-- ===== src/Files/Inodes.antt =====
-- No two open inodes in memory have one index: what `InodeOpen` and `InodeClose` keep.
use mmzzos.Base.{
  ℕ, ◌+◌, ◌-◌, ◌%◌, ◌^◌, ◌<◌, ◌≡◌, ◌≢◌, refl, subst, sym, ap, ◌∙◌, none, some, true, false, List,
  [], ◌∷◌, ◌==◌, if◌then◌else◌, arith, Option-cases, Bool-cases, ℕ_discrete, inl, inr, All, Ensures,
  ltb,
}
use mathlib.Core.Bool.{false≢true}
use mmzzos.Base.Stores.{update, update_self, update_ne, update_elim}
use mmzzos.Sched.{has, erase}
use mmzzos.Files.{
  Inode, Descriptors, Supply, find_open_inode, inode_open, inode_close, opened_as, with_inode,
  max_files,
}

-- The indices along the list are all different.
abbrev pub Distinct : (ℕ → ℕ) → List ℕ → Type 0
Distinct ix [] = Unit
Distinct ix (a ∷ rest) = All (λ b. ix b ≢ ix a) rest × Distinct ix rest

abbrev pub index_of : (ℕ → Inode) → ℕ → ℕ
index_of inodes a = (inodes a).index

-- An open inode is not null and is opened at least once.
pub record IsOpen (inodes : ℕ → Inode) (a : ℕ) : Type 0 where
  pub address : a ≢ 0
  pub counted : 0 < (inodes a).open_cnt

pub record IsValid (inodes : ℕ → Inode) (live : List ℕ) : Type 0 where
  pub distinct : Distinct (index_of inodes) live
  pub opened : All (IsOpen inodes) live

All-map :
    (P Q : ℕ → Type 0) (xs : List ℕ) → ((a : ℕ) → has a xs ≡ true → P a → Q a) → All P xs → All Q xs
All-map P Q [] f ps = tt
All-map P Q (x ∷ xs) f ps =
    (f x (ground arith) ps.0, All-map P Q xs (λ a h p. f a (ground arith) p) ps.1)

Distinct-same :
    (f g : ℕ → ℕ) (xs : List ℕ)
    → ((a : ℕ) → has a xs ≡ true → f a ≡ g a)
    → Distinct f xs
    → Distinct g xs
Distinct-same f g [] same d = tt
Distinct-same f g (x ∷ xs) same d = (
  All-map _ _ xs (λ b h ne e. ne (same b (ground arith) ∙ e ∙ sym (same x (ground arith)))) d.0,
  Distinct-same f g xs (λ b h. same b (ground arith)) d.1,
)

-- What the search finds is an open inode of the index, and it finds nothing only where there is none.
pub find_open_inode-Found :
    (inodes : ℕ → Inode) (index a : ℕ) (xs : List ℕ)
    → find_open_inode inodes index xs ≡ some a
    → (has a xs ≡ true) × ((inodes a).index ≡ index)
unfolding find_open_inode
find_open_inode-Found inodes index a [] e = ground arith
find_open_inode-Found inodes index a (x ∷ xs) e =
    ground (arith, find_open_inode-Found inodes index a xs)

pub find_open_inode-none :
    (inodes : ℕ → Inode) (index : ℕ) (xs : List ℕ)
    → find_open_inode inodes index xs ≡ none
    → All (λ b. (inodes b).index ≢ index) xs
unfolding find_open_inode
find_open_inode-none inodes index [] e = tt
find_open_inode-none inodes index (x ∷ xs) e =
    (ground arith, find_open_inode-none inodes index xs (ground arith))

-- A change of one inode that keeps its index, and keeps it open, keeps the invariant.
IsValid-change :
    (inodes : ℕ → Inode) (live : List ℕ) (a : ℕ) (node : Inode)
    → node.index ≡ (inodes a).index
    → 0 < node.open_cnt
    → IsValid inodes live
    → IsValid (update inodes a node) live
IsValid-change inodes live a node same pos v = record {
  distinct = Distinct-same (index_of inodes) _ live (λ b h. index b) v.distinct;
  opened = All-map (IsOpen inodes) _ live (λ b h o. kept b o) v.opened;
}
  where
    index : (b : ℕ) → index_of inodes b ≡ (update inodes a node b).index
    index b =
        update_elim (λ n. index_of inodes b ≡ n.index) inodes a b node
          (λ e. ap (index_of inodes) e ∙ sym same) (λ ne. refl)

    kept : (b : ℕ) → IsOpen inodes b → IsOpen (update inodes a node) b
    kept b o = record {
      address = o.address;
      counted = update_elim (λ n. 0 < n.open_cnt) inodes a b node (λ e. pos) (λ ne. o.counted);
    }

-- A new inode at an address and with an index that are not in use may be put in front.
IsValid-new :
    (inodes : ℕ → Inode) (live : List ℕ) (a : ℕ) (node : Inode)
    → a ≢ 0
    → has a live ≡ false
    → 0 < node.open_cnt
    → All (λ b. (inodes b).index ≢ node.index) live
    → IsValid inodes live
    → IsValid (update inodes a node) (a ∷ live)
IsValid-new inodes live a node na out pos fresh v = record {
  distinct = (
    All-map _ _ live (λ b h ne. different b h ne) fresh,
    Distinct-same (index_of inodes) _ live (λ b h. ap (λ n. n.index) (sym (elsewhere b h)))
        v.distinct,
  );
  opened = (
    record { address = na; counted = subst (λ n. 0 < n.open_cnt) (sym here) pos },
    All-map (IsOpen inodes) _ live
        (λ b h o. record {
          address = o.address;
          counted = subst (λ n. 0 < n.open_cnt) (sym (elsewhere b h)) o.counted;
        })
        v.opened,
  );
}
  where
    here : update inodes a node a ≡ node
    here = update_self inodes a node

    elsewhere : (b : ℕ) → has b live ≡ true → update inodes a node b ≡ inodes b
    elsewhere b h =
        update_ne inodes a b node (λ e. false≢true (sym out ∙ ap (λ c. has c live) (sym e) ∙ h))

    different :
        (b : ℕ)
        → has b live ≡ true
        → (inodes b).index ≢ node.index
        → (update inodes a node b).index ≢ (update inodes a node a).index
    different b h ne e = ne (ap (λ n. n.index) (sym (elsewhere b h)) ∙ e ∙ ap (λ n. n.index) here)

All-erase : (P : ℕ → Type 0) (a : ℕ) (xs : List ℕ) → All P xs → All P (erase a xs)
unfolding erase
All-erase P a [] ps = tt
All-erase P a (x ∷ xs) ps = elim (Bool-cases (x == a)) [
  | inl e ↦ rw e ps.1
  | inr e ↦ rw e (ps.0, All-erase P a xs ps.1)
]

Distinct-erase : (ix : ℕ → ℕ) (a : ℕ) (xs : List ℕ) → Distinct ix xs → Distinct ix (erase a xs)
unfolding erase
Distinct-erase ix a [] d = tt
Distinct-erase ix a (x ∷ xs) d = elim (Bool-cases (x == a)) [
  | inl e ↦ rw e d.1
  | inr e ↦ rw e (All-erase _ a xs d.0, Distinct-erase ix a xs d.1)
]

not_has : (ix : ℕ → ℕ) (a : ℕ) (xs : List ℕ) → All (λ b. ix b ≢ ix a) xs → has a xs ≡ false
not_has ix a [] ps = refl
not_has ix a (x ∷ xs) ps =
    let ne : x ≢ a = λ e. ps.0 (ap ix e) in ground (arith, not_has ix a xs ps.1)

has-erase-Distinct :
    (ix : ℕ → ℕ) (a : ℕ) (xs : List ℕ) → Distinct ix xs → has a (erase a xs) ≡ false
unfolding erase
has-erase-Distinct ix a [] d = refl
has-erase-Distinct ix a (x ∷ xs) d = elim (ℕ_discrete x a) [
  | yes e ↦
      let t : (x == a) ≡ true = ground arith in
      rw t (subst (λ b. has b xs ≡ false) e (not_has ix x xs d.0))
  | no ne ↦ let t : (x == a) ≡ false = ground arith in rw (t, t) (has-erase-Distinct ix a xs d.1)
]

-- An inode that has left the list may change as it wants.
IsValid-outside :
    (inodes : ℕ → Inode) (live : List ℕ) (a : ℕ) (node : Inode)
    → has a live ≡ false
    → IsValid inodes live
    → IsValid (update inodes a node) live
IsValid-outside inodes live a node out v = record {
  distinct =
      Distinct-same (index_of inodes) _ live (λ b h. ap (λ n. n.index) (sym (elsewhere b h)))
        v.distinct;
  opened =
      All-map (IsOpen inodes) _ live
        (λ b h o. record {
          address = o.address;
          counted = subst (λ n. 0 < n.open_cnt) (sym (elsewhere b h)) o.counted;
        })
        v.opened;
}
  where
    elsewhere : (b : ℕ) → has b live ≡ true → update inodes a node b ≡ inodes b
    elsewhere b h =
        update_ne inodes a b node (λ e. false≢true (sym out ∙ ap (λ c. has c live) (sym e) ∙ h))

IsValid-erase :
    (inodes : ℕ → Inode) (live : List ℕ) (a : ℕ)
    → IsValid inodes live
    → IsValid inodes (erase a live)
IsValid-erase inodes live a v = record {
  distinct = Distinct-erase (index_of inodes) a live v.distinct;
  opened = All-erase (IsOpen inodes) a live v.opened;
}

abbrev pub Valid : Descriptors → Type 0
Valid t = IsValid t.inodes t.open_inodes

-- What `InodeOpen` gives: an open inode of that index, and nothing else in memory changes.
pub record Opened (index : ℕ) (t t' : Descriptors) (a : ℕ) : Type 0 where
  pub valid : Valid t'
  pub found : has a t'.open_inodes ≡ true
  pub same_index : (t'.inodes a).index ≡ index
  pub others : (b : ℕ) → b ≢ a → t'.inodes b ≡ t.inodes b
  pub same_files : t'.files ≡ t.files
  pub same_fds : t'.fds ≡ t.fds

-- For an index below 4096, with memory to be had at an address that is not in use, and where no inode is opened
-- 2^32 - 1 times, `InodeOpen` returns an open inode of that index; it keeps the open inodes distinct and changes no
-- other inode, no slot and no descriptor.
pub inode_open_lem :
    (m : Supply) (index : ℕ) (t : Descriptors)
    → Valid t
    → index < max_files
    → m.fresh ≢ 0
    → m.buffer ≢ 0
    → has m.fresh t.open_inodes ≡ false
    → ((a : ℕ) → has a t.open_inodes ≡ true → (t.inodes a).open_cnt + 1 < 2 ^ 32)
    → Ensures (λ r. Opened index t r.1 r.0) (inode_open m index t)
unfolding inode_open
inode_open_lem m index t v lt nf nb out few =
    let bound : ltb index max_files ≡ true = ground arith in
    rw bound (elim (Option-cases (find_open_inode t.inodes index t.open_inodes)) [
      | inr (a, e) ↦ rw e (opened_again a (find_open_inode-Found t.inodes index a _ e))
      | inl e ↦
          let fresh : (m.fresh == 0) ≡ false = ground arith in
          let buffer : (m.buffer == 0) ≡ false = ground arith in
          rw (e, fresh, buffer) (opened_first (find_open_inode-none t.inodes index _ e))
    ])
  where
    opened_again :
        (a : ℕ)
        → (has a t.open_inodes ≡ true) × ((t.inodes a).index ≡ index)
        → Opened index t
            (with_inode t a
              (record (t.inodes a) { open_cnt = ((t.inodes a).open_cnt + 1) % 2 ^ 32 }))
            a
    opened_again a (h, same) = record {
      valid = IsValid-change _ _ a _ refl (omega (arith, few a h)) v;
      found = h;
      same_index = ap (λ n. n.index) (update_self t.inodes a _) ∙ same;
      others = λ b ne. update_ne t.inodes a b _ ne;
      same_files = refl;
      same_fds = refl;
    }

    opened_first :
        All (λ b. (t.inodes b).index ≢ index) t.open_inodes
        → Opened index t
            (record t {
              inodes = update t.inodes m.fresh (opened_as index (m.on_disk index));
              open_inodes = m.fresh ∷ t.open_inodes;
            })
            m.fresh
    opened_first none_open = record {
      valid = IsValid-new _ _ m.fresh _ nf out (omega arith) none_open v;
      found = ground arith;
      same_index = ap (λ n. n.index) (update_self t.inodes m.fresh _);
      others = λ b ne. update_ne t.inodes m.fresh b _ ne;
      same_files = refl;
      same_fds = refl;
    }

-- `InodeClose` keeps the open inodes distinct, and it takes the inode off the list exactly when it says so.
pub inode_close_lem :
    (a : ℕ) (t : Descriptors)
    → Valid t
    → Valid (inode_close a t).1
      × (has a (inode_close a t).1.open_inodes
          ≡ (if (inode_close a t).0 then false else has a t.open_inodes))
unfolding inode_close
inode_close_lem a t v = elim (Bool-cases (((t.inodes a).open_cnt + (2 ^ 32 - 1)) % 2 ^ 32 == 0)) [
  | inl last ↦ rw last (
    IsValid-outside _ _ a _ (has-erase-Distinct _ a _ v.distinct)
        (IsValid-erase t.inodes t.open_inodes a v),
    has-erase-Distinct _ a _ v.distinct,
  )
  | inr more ↦ rw more (IsValid-change _ _ a _ refl (ground arith) v, refl)
]
