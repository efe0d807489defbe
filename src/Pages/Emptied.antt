-- ===== src/Pages/Emptied.antt =====
-- The frames that `ReleaseProcessResource` gives back.
use mmzzos.Base.{
  ℕ, zero, suc, ◌+◌, ◌*◌, ◌/◌, ◌<◌, ◌≤◌, ◌≡◌, refl, sym, ap, ◌∙◌, true, false, if◌then◌else◌, ok,
  arith, subst, Bool-cases, inl, inr, ℕ_discrete, dec_lt,
}
use mathlib.Core.Bool.{false≢true}
use mmzzos.Bitmap.{IsValid}
use mmzzos.Pages.{Space, is_present}
use mmzzos.Pages.Teardown.{
  frame_of, release_entry, release_table, release_directory, release_tables,
}
use mmzzos.Pages.Frames.{InPool, in_use, Eased, Eased-trans, pfree_lem}

-- The frames of the present entries below the kernel's stand in the pools.
pub record HasFrames (s : Space) : Type 0 where
  pub kernel_map : IsValid s.kernel_pool.bp
  pub user_map : IsValid s.user_pool.bp
  pub pages : (p : ℕ) → p < 768 * 1024 → is_present (s.pte p) ≡ true → InPool s (frame_of (s.pte p))
  pub tables : (i : ℕ) → i < 768 → is_present (s.pde i) ≡ true → InPool s (frame_of (s.pde i))

HasFrames-Eased : (s s' : Space) → HasFrames s → Eased s s' → HasFrames s'
HasFrames-Eased s s' f e = record {
  kernel_map = e.kernel_map;
  user_map = e.user_map;
  pages = λ p h g.
      subst (λ t. InPool s' (frame_of (t p))) (sym e.pte)
        (e.room _ (f.pages p h (ap (λ t. is_present (t p)) (sym e.pte) ∙ g)));
  tables = λ i h g.
      subst (λ t. InPool s' (frame_of (t i))) (sym e.pde)
        (e.room _ (f.tables i h (ap (λ t. is_present (t i)) (sym e.pde) ∙ g)));
}

Eased-refl : (s : Space) → HasFrames s → Eased s s
Eased-refl s f = record {
  kernel_map = f.kernel_map;
  user_map = f.user_map;
  pde = refl;
  pte = refl;
  room = λ q h. h;
  kept = λ q h. h;
}

-- The frame of an entry, if it is present, is not in use.
abbrev IsCleared : Space → ℕ → Type 0
IsCleared s entry = (if is_present entry then in_use s (frame_of entry) else false) ≡ false

IsCleared-Eased : (s s' : Space) (entry : ℕ) → Eased s s' → IsCleared s entry → IsCleared s' entry
IsCleared-Eased s s' entry e h = elim (Bool-cases (is_present entry)) [
  | inl p ↦ rw p (
      e.kept (frame_of entry)
        (subst (λ b. (if b then in_use s (frame_of entry) else false) ≡ false) p h))
  | inr p ↦ rw p refl
]

cleared-in_use :
    (s : Space) (entry : ℕ)
    → is_present entry ≡ true
    → IsCleared s entry
    → in_use s (frame_of entry) ≡ false
cleared-in_use s entry e h =
    subst (λ b. (if b then in_use s (frame_of entry) else false) ≡ false) e h

release_entry_lem :
    (s : Space) (p : ℕ)
    → HasFrames s
    → p < 768 * 1024
    → (s' : Space) × (release_entry (s.pte p) s ≡ ok s') × Eased s s' × IsCleared s' (s.pte p)
unfolding release_entry
release_entry_lem s p f h = elim (Bool-cases (is_present (s.pte p))) [
  | inl e ↦
      let (s', done, eased, gone) =
        pfree_lem (frame_of (s.pte p)) s f.kernel_map f.user_map (f.pages p h e) in
      (s', rw e done, eased, rw e gone)
  | inr e ↦ (s, rw e refl, Eased-refl s f, rw e refl)
]

release_table_lem :
    (left page : ℕ) (s : Space)
    → HasFrames s
    → page + left ≤ 768 * 1024
    → (s' : Space) × (release_table left page s ≡ ok s')
      × Eased s s'
      × ((p : ℕ) → page ≤ p → p < page + left → IsCleared s' (s.pte p))
unfolding release_table
release_table_lem zero page s f h = (s, refl, Eased-refl s f, (λ p a b. absurd (omega arith)))
release_table_lem (suc left) page s f h =
    let (s1, done1, e1, c1) = release_entry_lem s page f (omega arith) in
    let (s2, done2, e2, c2) =
      release_table_lem left (page + 1) s1 (HasFrames-Eased s s1 f e1) (omega arith) in
    (
      s2,
      rw done1 done2,
      Eased-trans s s1 s2 e1 e2,
      λ p a b. elim (ℕ_discrete p page) [
        | yes e ↦
            subst (λ p. IsCleared s2 (s.pte p)) (sym e) (IsCleared-Eased s1 s2 (s.pte page) e2 c1)
        | no ne ↦ subst (λ t. IsCleared s2 (t p)) e1.pte (c2 p (omega (arith, ne, a)) (omega arith))
      ],
    )

-- What a round for the page table `i` leaves.
record Emptied (i : ℕ) (s s' : Space) : Type 0 where
  eased : Eased s s'
  table : is_present (s.pde i) ≡ true → in_use s' (frame_of (s.pde i)) ≡ false
  pages :
      is_present (s.pde i) ≡ true
      → (p : ℕ) → i * 1024 ≤ p
      → p < i * 1024 + 1024
      → IsCleared s' (s.pte p)

module _ (entries : ℕ) (all : entries ≡ 1024) where
  release_directory_lem :
      (s : Space) (i : ℕ)
      → HasFrames s
      → i < 768
      → (s' : Space) × (release_directory entries i s ≡ ok s') × Emptied i s s'
  unfolding release_directory
  release_directory_lem s i f h = elim (Bool-cases (is_present (s.pde i))) [
    | inl e ↦
        let (s1, done1, e1, c1) = release_table_lem entries (i * 1024) s f (omega (arith, all)) in
        let (s2, done2, e2, gone) =
          pfree_lem (frame_of (s.pde i)) s1 e1.kernel_map e1.user_map
            (e1.room _ (f.tables i h e)) in
        (
          s2,
          rw (e, done1) done2,
          record {
            eased = Eased-trans s s1 s2 e1 e2;
            table = λ _. gone;
            pages = λ _ p a b. IsCleared-Eased s1 s2 (s.pte p) e2 (c1 p a (omega (arith, all, b)));
          },
        )
    | inr e ↦ (
      s,
      rw e refl,
      record {
        eased = Eased-refl s f;
        table = λ g. absurd (false≢true (sym e ∙ g));
        pages = λ g. absurd (false≢true (sym e ∙ g));
      },
    )
  ]

  -- The later rounds keep the frames of page `p` and of its page table free.
  release_tables-rest :
      (left i : ℕ) (s : Space)
      → HasFrames s
      → i + left ≤ 768
      → (s' : Space) × (release_tables entries left i s ≡ ok s') × Eased s s'
  unfolding release_tables
  release_tables-rest zero i s f h = (s, refl, Eased-refl s f)
  release_tables-rest (suc left) i s f h =
      let (s1, done1, e1) = release_directory_lem s i f (omega arith) in
      let (s2, done2, e2) =
        release_tables-rest left (i + 1) s1 (HasFrames-Eased s s1 f e1.eased) (omega arith) in
      (s2, rw done1 done2, Eased-trans s s1 s2 e1.eased e2)

  release_tables_from :
      (left i p : ℕ) (s : Space)
      → HasFrames s
      → i + left ≤ 768
      → i * 1024 ≤ p
      → p < (i + left) * 1024
      → is_present (s.pde (p / 1024)) ≡ true
      → is_present (s.pte p) ≡ true
      → (s' : Space) × (release_tables entries left i s ≡ ok s')
        × Eased s s'
        × (in_use s' (frame_of (s.pte p)) ≡ false)
        × (in_use s' (frame_of (s.pde (p / 1024))) ≡ false)
  unfolding release_tables
  release_tables_from zero i p s f h a b table page = absurd (omega arith)
  release_tables_from (suc left) i p s f h a b table page =
      let (s1, done1, e1) = release_directory_lem s i f (omega arith) in
      let f1 = HasFrames-Eased s s1 f e1.eased in
      elim (dec_lt p ((i + 1) * 1024)) [
        | yes now ↦
            let same : p / 1024 ≡ i = omega arith in
            let here = ap (λ i. is_present (s.pde i)) (sym same) ∙ table in
            let (s2, done2, e2) = release_tables-rest left (i + 1) s1 f1 (omega arith) in
            (
              s2,
              rw done1 done2,
              Eased-trans s s1 s2 e1.eased e2,
              e2.kept (frame_of (s.pte p))
                  (cleared-in_use s1 (s.pte p) page (e1.pages here p a (omega arith))),
              subst (λ i. in_use s2 (frame_of (s.pde i)) ≡ false) (sym same)
                  (e2.kept (frame_of (s.pde i)) (e1.table here)),
            )
        | no later ↦
            let (s2, done2, e2, g, g') =
              release_tables_from left (i + 1) p s1 f1 (omega arith) (omega (arith, later))
                (omega arith) (ap (λ t. is_present (t (p / 1024))) e1.eased.pde ∙ table)
                (ap (λ t. is_present (t p)) e1.eased.pte ∙ page) in
            (
              s2,
              rw done1 done2,
              Eased-trans s s1 s2 e1.eased e2,
              subst (λ t. in_use s2 (frame_of (t p)) ≡ false) e1.eased.pte g,
              subst (λ t. in_use s2 (frame_of (t (p / 1024))) ≡ false) e1.eased.pde g',
            )
      ]

-- Where the frames of all present entries below the kernel's stand in the pools, the loop over the page directory
-- ends: the entries are as before, and the frame of a page that is mapped there, and that of its page table, are
-- free.
pub release_tables_lem :
    (s : Space) (p : ℕ)
    → HasFrames s
    → p < 768 * 1024
    → is_present (s.pde (p / 1024)) ≡ true
    → is_present (s.pte p) ≡ true
    → (s' : Space) × (release_tables 1024 768 0 s ≡ ok s')
      × Eased s s'
      × (in_use s' (frame_of (s.pte p)) ≡ false)
      × (in_use s' (frame_of (s.pde (p / 1024))) ≡ false)
release_tables_lem s p f h table page =
    release_tables_from 1024 refl 768 0 p s f (omega arith) (omega arith) (omega arith) table page
