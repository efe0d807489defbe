-- ===== src/Dirs/Filling.antt =====
-- The loops of `CreateDirEntry` in the blocks that a directory has.
use mmzzos.Base.{
  ℕ, zero, suc, ◌+◌, ◌%◌, ◌^◌, ◌<◌, ◌≤◌, ◌≡◌, ◌≢◌, refl, sym, ap, subst, ◌∙◌, true, false, ◌==◌,
  none, some, List, [], ◌∷◌, ◌++◌, Bool-cases, Option-cases, inl, inr, arith, ℕ_discrete, ltb,
}
use mathlib.Core.Bool.{false≢true}
use mathlib.Core.Option.{none-ne-some, some-injective}
use mmzzos.Base.Stores.{update, update_self, update_ne}
use mmzzos.Dirs.{
  Entry, Block, Dir, Fresh, is_used, load, whole_slots, begun_slots, block_count, unused_slot,
  create_blocks, no_new,
}
use mmzzos.Dirs.Entries.{used_slots, used_block, used_blocks}
use mmzzos.Dirs.Deleting.{HasOwnBlocks, used_slots-same, used_blocks-same}

-- `xs'` is `xs` with `e` put in.
pub record Inserted (e : Entry) (xs xs' : List Entry) : Type 0 where
  pub front : List Entry
  pub back : List Entry
  pub before : xs ≡ front ++ back
  pub after : xs' ≡ front ++ e ∷ back

append_assoc : (xs ys zs : List Entry) → (xs ++ ys) ++ zs ≡ xs ++ (ys ++ zs)
append_assoc [] ys zs = refl
append_assoc (x ∷ xs) ys zs = ap (λ l. x ∷ l) (append_assoc xs ys zs)

Inserted-front :
    (e : Entry) (ps xs xs' : List Entry) → Inserted e xs xs' → Inserted e (ps ++ xs) (ps ++ xs')
Inserted-front e ps xs xs' h = record {
  front = ps ++ h.front;
  back = h.back;
  before = ap (λ l. ps ++ l) h.before ∙ sym (append_assoc ps h.front h.back);
  after = ap (λ l. ps ++ l) h.after ∙ sym (append_assoc ps h.front (e ∷ h.back));
}

Inserted-back :
    (e : Entry) (ps xs xs' : List Entry) → Inserted e xs xs' → Inserted e (xs ++ ps) (xs' ++ ps)
Inserted-back e ps xs xs' h = record {
  front = h.front;
  back = h.back ++ ps;
  before = ap (λ l. l ++ ps) h.before ∙ append_assoc h.front h.back ps;
  after = ap (λ l. l ++ ps) h.after ∙ append_assoc h.front (e ∷ h.back) ps;
}

-- Writing a used entry into a slot that is not used puts it in.
used_slots-Inserted :
    (e : Entry) (n s k : ℕ) (block : Block)
    → s ≤ k
    → k < s + n
    → is_used e ≡ true
    → is_used (block k) ≡ false
    → Inserted e (used_slots n s block) (used_slots n s (update block k e))
unfolding used_slots
used_slots-Inserted e zero s k block lo hi u free = absurd (omega arith)
used_slots-Inserted e (suc n) s k block lo hi u free = elim (ℕ_discrete k s) [
  | yes at ↦
      let here : update block k e s ≡ e =
        subst (λ j. update block k e j ≡ e) at (update_self block k e) in
      let off : is_used (block s) ≡ false = subst (λ j. is_used (block j) ≡ false) at free in
      rw (here, u, off)
        (record {
          front = [];
          back = used_slots n (s + 1) block;
          before = refl;
          after =
              ap (λ l. e ∷ l)
                (used_slots-same n (s + 1) _ _ (λ j lo' hi'. update_ne block k j e (omega arith)));
        })
  | no ne ↦
      let same : update block k e s ≡ block s = update_ne block k s e (omega arith) in
      let later = used_slots-Inserted e n (s + 1) k block (omega arith) (omega arith) u free in
      rw same (elim (Bool-cases (is_used (block s))) [
        | inl used ↦ rw (used) (Inserted-front e (block s ∷ []) _ _ later)
        | inr not_used ↦ rw not_used later
      ])
]

unused_slot-free :
    (n s : ℕ) (block : Block) (k : ℕ)
    → unused_slot n s block ≡ some k
    → (s ≤ k) × (k < s + n) × (is_used (block k) ≡ false)
unfolding unused_slot
unused_slot-free zero s block k e = absurd (none-ne-some k e)
unused_slot-free (suc n) s block k e = elim (Bool-cases (is_used (block s))) [
  | inl used ↦
      let (lo, hi, free) = unused_slot-free n (s + 1) block k (rw used at e) in
      (omega arith, omega arith, free)
  | inr free ↦
      let at : s ≡ k = some-injective s k (rw free at e) in
      (omega arith, omega arith, subst (λ j. is_used (block j) ≡ false) at free)
]

pub unused_slot-first :
    (n s m : ℕ) (block : Block)
    → m < n
    → ((k : ℕ) → s ≤ k → k < s + m → is_used (block k) ≡ true)
    → is_used (block (s + m)) ≡ false
    → unused_slot n s block ≡ some (s + m)
unfolding unused_slot
unused_slot-first zero s m block lt used free = absurd (omega arith)
unused_slot-first (suc n) s zero block lt used free =
    let here : is_used (block s) ≡ false =
      subst (λ k. is_used (block k) ≡ false) (omega arith) free in
    rw here (ap some (omega arith))
unused_slot-first (suc n) s (suc m) block lt used free =
    let here : is_used (block s) ≡ true = used s (omega arith) (omega arith) in
    rw here (
      unused_slot-first n (s + 1) m block (omega arith)
        (λ k lo hi. used k (omega arith) (omega arith))
        (subst (λ k. is_used (block k) ≡ false) (omega arith) free)
      ∙ ap some (omega arith))

unused_slot-none :
    (n s : ℕ) (block : Block)
    → unused_slot n s block ≡ none
    → (k : ℕ) → s ≤ k
    → k < s + n
    → is_used (block k) ≡ true
unfolding unused_slot
unused_slot-none zero s block e k lo hi = absurd (omega arith)
unused_slot-none (suc n) s block e k lo hi = elim (Bool-cases (is_used (block s))) [
  | inr free ↦ absurd (none-ne-some s (sym (rw free at e)))
  | inl used ↦ elim (ℕ_discrete k s) [
    | yes at ↦ subst (λ j. is_used (block j) ≡ true) (sym at) used
    | no ne ↦ unused_slot-none n (s + 1) block (rw used at e) k (omega arith) (omega arith)
  ]
]

-- What the loop over the blocks gives.
pub record Created (e : Entry) (n i : ℕ) (d d' : Dir) : Type 0 where
  pub inserted : Inserted e (used_blocks n i d) (used_blocks n i d')
  pub same_table : d'.table ≡ d.table
  pub counted : d'.size ≡ (d.size + 1) % 2 ^ 32
  pub others :
      (lba : ℕ)
      → ((j : ℕ) → i ≤ j → j < i + n → d.table j ≢ 0 → d.table j ≢ lba)
      → d'.disk lba ≡ d.disk lba

module _ (e : Entry) (n i : ℕ) (d : Dir) (there : d.table i ≢ 0)
    (own : (j : ℕ) → i + 1 ≤ j → j < i + 1 + n → d.table j ≢ d.table i) where
  abbrev loaded : Block
  loaded = load d (d.table i)

  abbrev filled : ℕ → Dir
  filled k =
      let block = update loaded k e in
      record d { disk = update d.disk (d.table i) block; size = (d.size + 1) % 2 ^ 32; buf = block }

  loaded_slots : used_slots whole_slots 0 loaded ≡ used_slots whole_slots 0 (d.disk (d.table i))
  loaded_slots =
      used_slots-same whole_slots 0 loaded (d.disk (d.table i))
        (λ k lo hi. let whole : ltb k whole_slots ≡ true = ground arith in rw whole refl)

  -- The entry goes into this block.
  Created-here :
      (k : ℕ)
      → k < whole_slots
      → is_used e ≡ true
      → is_used (loaded k) ≡ false
      → Created e (suc n) i d (filled k)
  unfolding used_blocks
  Created-here k lt u free =
      let nonzero : (d.table i == 0) ≡ false = ground arith in
      let kept : used_blocks n (i + 1) (filled k) ≡ used_blocks n (i + 1) d =
        used_blocks-same n (i + 1) d (filled k) refl
          (λ j lo hi nz. update_ne d.disk (d.table i) (d.table j) _ (own j lo hi)) in
      let slots : Inserted e (used_slots whole_slots 0 (d.disk (d.table i)))
          (used_slots whole_slots 0 (update loaded k e)) =
        subst (λ l. Inserted e l (used_slots whole_slots 0 (update loaded k e))) loaded_slots
          (used_slots-Inserted e whole_slots 0 k loaded (omega arith) lt u free) in
      record {
        inserted =
            rw (kept, nonzero, update_self d.disk (d.table i) (update loaded k e))
              (Inserted-back e (used_blocks n (i + 1) d) _ _ slots);
        same_table = refl;
        counted = refl;
        others = λ lba ne.
            update_ne d.disk (d.table i) lba _
              (λ at. ne i (omega arith) (omega arith) there (sym at));
      }

  -- The entry goes into a block behind it.
  Created-later :
      (d' : Dir) → Created e n (i + 1) (record d { buf = loaded }) d' → Created e (suc n) i d d'
  unfolding used_blocks
  Created-later d' h =
      let rest : used_blocks n (i + 1) (record d { buf = loaded }) ≡ used_blocks n (i + 1) d =
        used_blocks-same n (i + 1) d (record d { buf = loaded }) refl (λ j lo hi nz. refl) in
      let nonzero : (d.table i == 0) ≡ false = ground arith in
      let block : used_block d' (d'.table i) ≡ used_block d (d.table i) =
        rw (ap (λ f. f i) h.same_table, nonzero, h.others (d.table i) (λ j lo hi nz. own j lo hi))
          refl in
      record {
        inserted = rw block (
            Inserted-front e (used_block d (d.table i)) _ _
              (subst (λ l. Inserted e l (used_blocks n (i + 1) d')) rest h.inserted));
        same_table = h.same_table;
        counted = h.counted;
        others = λ lba ne. h.others lba (λ j lo hi nz. ne j (omega arith) (omega arith) nz);
      }

whole_slot :
    (d : Dir) (lba s : ℕ)
    → is_used (d.buf whole_slots) ≡ true
    → s < begun_slots
    → is_used (load d lba s) ≡ false
    → s < whole_slots
whole_slot d lba s half lt free = elim (ℕ_discrete s whole_slots) [
  | yes at ↦ absurd (false≢true (sym (subst (λ j. is_used (load d lba j) ≡ false) at free) ∙ half))
  | no ne ↦ omega arith
]

pub create_blocks_lem :
    (fresh : Fresh) (e : Entry) (n i m k : ℕ) (d : Dir)
    → i + n ≤ block_count
    → HasOwnBlocks d.table
    → is_used e ≡ true
    → is_used (d.buf whole_slots) ≡ true
    → i ≤ m
    → m < i + n
    → ((j : ℕ) → j ≤ m → d.table j ≢ 0)
    → k < whole_slots
    → is_used (d.disk (d.table m) k) ≡ false
    → (d' : Dir) × (create_blocks fresh e n i d ≡ some (d', no_new)) × Created e n i d d'
unfolding create_blocks
create_blocks_lem fresh e zero i m k d fits own u half lo hi there lt free = absurd (omega arith)
create_blocks_lem fresh e (suc n) i m k d fits own u half lo hi there lt free =
    let nonzero : (d.table i == 0) ≡ false = let nz = there i lo in ground arith in
    let apart : (j : ℕ) → i + 1 ≤ j → j < i + 1 + n → d.table j ≢ d.table i =
      λ j lo' hi' same. own i j (omega arith) (omega arith) (omega arith) (there i lo) (sym same) in
    elim (Option-cases (unused_slot begun_slots 0 (load d (d.table i)))) [
      | inr (s, found) ↦
          let (slo, shi, sfree) = unused_slot-free begun_slots 0 (load d (d.table i)) s found in
          let whole : s < whole_slots = whole_slot d (d.table i) s half shi sfree in
          rw (nonzero, found) (_, refl, Created-here e n i d (there i lo) apart s whole u sfree)
      | inl full ↦
          let (d', e', h) =
            create_blocks_lem fresh e n (i + 1) m k (record d { buf = load d (d.table i) })
              (omega arith) own u half
              (behind (unused_slot-none begun_slots 0 (load d (d.table i)) full)) (omega arith)
              there lt free in
          rw (nonzero, full, e') (d', refl, Created-later e n i d (there i lo) apart d' h)
    ]
  where
    behind : ((s : ℕ) → 0 ≤ s → s < begun_slots → is_used (load d (d.table i) s) ≡ true) → i + 1 ≤ m
    behind used = elim (ℕ_discrete i m) [
      | yes at ↦
          let whole : ltb k whole_slots ≡ true = ground arith in
          let taken : is_used (d.disk (d.table i) k) ≡ true =
            rw whole at (used k (omega arith) (omega arith)) in
          absurd (
            false≢true
              (sym (subst (λ j. is_used (d.disk (d.table j) k) ≡ false) (sym at) free) ∙ taken))
      | no ne ↦ omega arith
    ]
