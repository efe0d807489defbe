-- ===== src/Dirs/Deleting.antt =====
-- `DeleteDirectoryDirEntry` takes the first entry with the name out of the directory, and no other.
use mmzzos.Base.{
  ℕ, zero, suc, ◌+◌, ◌-◌, ◌%◌, ◌^◌, ◌<◌, ◌≤◌, ◌≡◌, ◌≢◌, refl, ap, ap₂, Bool, ◌==◌, Option, none,
  some, List, [], ◌∷◌, if◌then◌else◌, Bool-cases, inl, inr, arith,
}
use mmzzos.Dirs.{Entry, Block, Dir, is_used, same_name, whole_slots, block_count}
use mmzzos.Dirs.Entries.{used_slots, used_blocks, entries, find_name}

-- The list without the first entry of the name.
unfoldable pub remove_name : List ℕ → List Entry → List Entry
remove_name name [] = []
remove_name name (e ∷ es) =
    let later = e ∷ remove_name name es in if same_name e.filename name then es else later

pub used_slots-same :
    (n s : ℕ) (f g : Block)
    → ((k : ℕ) → s ≤ k → k < s + n → f k ≡ g k)
    → used_slots n s f ≡ used_slots n s g
unfolding used_slots
used_slots-same zero s f g same = refl
used_slots-same (suc n) s f g same =
    ap₂ (λ (e : Entry) (l : List Entry). if is_used e then e ∷ l else l)
      (same s (omega arith) (omega arith))
      (used_slots-same n (s + 1) f g (λ k lo hi. same k (omega arith) (omega arith)))

-- What the loop over the slots gives.
abbrev DeletedSlots : List ℕ → ℕ → ℕ → Block → Option Block → Type 0
DeletedSlots name n s block none = find_name name (used_slots n s block) ≡ none
DeletedSlots name n s block (some block') =
    (find_name name (used_slots n s block) ≢ none)
    × (used_slots n s block' ≡ remove_name name (used_slots n s block))
    × ((k : ℕ) → k < s → block' k ≡ block k)

-- The blocks of a directory are different ones.
abbrev pub HasOwnBlocks : (ℕ → ℕ) → Type 0
HasOwnBlocks table =
    (i j : ℕ) → i < block_count → j < block_count → i ≢ j → table i ≢ 0 → table i ≢ table j

pub used_blocks-agree :
    (n i : ℕ) (d d' : Dir)
    → d'.table ≡ d.table
    → ((j : ℕ)
        → i ≤ j
        → j < i + n
        → d.table j ≢ 0
        → used_slots whole_slots 0 (d'.disk (d.table j))
          ≡ used_slots whole_slots 0 (d.disk (d.table j)))
    → used_blocks n i d' ≡ used_blocks n i d
unfolding used_blocks
used_blocks-agree zero i d d' table same = refl
used_blocks-agree (suc n) i d d' table same =
    let later =
      used_blocks-agree n (i + 1) d d' table (λ j lo hi. same j (omega arith) (omega arith)) in
    rw (later, ap (λ f. f i) table)
      (elim (Bool-cases (d.table i == 0)) [
        | inl e ↦ rw e refl
        | inr e ↦
            let there : d.table i ≢ 0 = ground arith in
            let block = same i (omega arith) (omega arith) there in rw (e, block) refl
      ])

pub used_blocks-same :
    (n i : ℕ) (d d' : Dir)
    → d'.table ≡ d.table
    → ((j : ℕ) → i ≤ j → j < i + n → d.table j ≢ 0 → d'.disk (d.table j) ≡ d.disk (d.table j))
    → used_blocks n i d' ≡ used_blocks n i d
used_blocks-same n i d d' table same =
    used_blocks-agree n i d d' table (λ j lo hi nz. ap (used_slots whole_slots 0) (same j lo hi nz))

-- What the loop over the blocks gives.
abbrev DeletedBlocks : List ℕ → ℕ → ℕ → Dir → Option Dir → Type 0
DeletedBlocks name n i d none = find_name name (used_blocks n i d) ≡ none
DeletedBlocks name n i d (some d') =
    (find_name name (used_blocks n i d) ≢ none)
    × (used_blocks n i d' ≡ remove_name name (used_blocks n i d))
    × (d'.table ≡ d.table)
    × (d'.size ≡ (d.size + (2 ^ 32 - 1)) % 2 ^ 32)
    × ((lba : ℕ)
        → ((j : ℕ) → i ≤ j → j < i + n → d.table j ≢ 0 → d.table j ≢ lba)
        → d'.disk lba ≡ d.disk lba)

module _ (name : List ℕ) (n i : ℕ) (d : Dir) where
  abbrev here : List Entry
  here = used_slots whole_slots 0 (d.disk (d.table i))

-- What `DeleteDirectoryDirEntry` gives.
abbrev pub Deleted : List ℕ → Dir → Option Dir → Type 0
Deleted name d none = find_name name (entries d) ≡ none
Deleted name d (some d') =
    (find_name name (entries d) ≢ none)
    × (entries d' ≡ remove_name name (entries d))
    × (d'.size ≡ (d.size + (2 ^ 32 - 1)) % 2 ^ 32)
