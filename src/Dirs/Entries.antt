-- ===== src/Dirs/Entries.antt =====
-- A directory as the list of its used entries, and the search in it.
use mmzzos.Base.{
  ℕ, zero, suc, ◌+◌, ◌≡◌, refl, sym, ◌==◌, Option, none, some, List, [], ◌∷◌, ◌++◌, if◌then◌else◌,
  Bool-cases, inl, inr,
}
use mmzzos.Dirs.{
  Entry, Block, Dir, is_used, same_name, or_else, whole_slots, block_count, search_slots,
  search_blocks, search_dir_entry,
}

-- The used entries of `n` slots from `s` on.
unfoldable pub used_slots : ℕ → ℕ → Block → List Entry
used_slots zero s block = []
used_slots (suc n) s block =
    let later = used_slots n (s + 1) block in if is_used (block s) then block s ∷ later else later

abbrev pub used_block : Dir → ℕ → List Entry
used_block d lba = if lba == 0 then [] else used_slots whole_slots 0 (d.disk lba)

-- The used entries of `n` blocks from number `i` on.
unfoldable pub used_blocks : ℕ → ℕ → Dir → List Entry
used_blocks zero i d = []
used_blocks (suc n) i d = used_block d (d.table i) ++ used_blocks n (i + 1) d

abbrev pub entries : Dir → List Entry
entries d = used_blocks block_count 0 d

unfoldable pub find_name : List ℕ → List Entry → Option Entry
find_name name [] = none
find_name name (e ∷ es) =
    let later = find_name name es in if same_name e.filename name then some e else later

pub find_name-append :
    (name : List ℕ) (xs ys : List Entry)
    → find_name name (xs ++ ys) ≡ or_else (find_name name xs) (find_name name ys)
unfolding find_name
find_name-append name [] ys = refl
find_name-append name (x ∷ xs) ys = elim (Bool-cases (same_name x.filename name)) [
  | inl e ↦ rw e refl
  | inr e ↦ rw e (find_name-append name xs ys)
]

search_slots-find_name :
    (n s : ℕ) (block : Block) (name : List ℕ)
    → search_slots n s block name ≡ find_name name (used_slots n s block)
unfolding search_slots find_name used_slots
search_slots-find_name zero s block name = refl
search_slots-find_name (suc n) s block name = elim (Bool-cases (is_used (block s))) [
  | inl u ↦ elim (Bool-cases (same_name (block s).filename name)) [
    | inl e ↦ rw (u, e) refl
    | inr e ↦ rw (u, e) (search_slots-find_name n (s + 1) block name)
  ]
  | inr u ↦ rw u (search_slots-find_name n (s + 1) block name)
]

search_blocks-find_name :
    (n i : ℕ) (d : Dir) (name : List ℕ)
    → search_blocks n i d name ≡ find_name name (used_blocks n i d)
unfolding search_blocks find_name used_blocks
search_blocks-find_name zero i d name = refl
search_blocks-find_name (suc n) i d name = elim (Bool-cases (d.table i == 0)) [
  | inl e ↦ rw e (search_blocks-find_name n (i + 1) d name)
  | inr e ↦
      rw
        (
          e,
          search_slots-find_name whole_slots 0 (d.disk (d.table i)) name,
          search_blocks-find_name n (i + 1) d name,
        )
        (sym (
          find_name-append name (used_slots whole_slots 0 (d.disk (d.table i)))
            (used_blocks n (i + 1) d)))
]

-- `SearchDirEntry` returns the first of the used entries that has the name, or it finds nothing where none has it.
pub search_dir_entry_lem :
    (d : Dir) (name : List ℕ) → search_dir_entry d name ≡ find_name name (entries d)
unfolding search_dir_entry
search_dir_entry_lem d name = search_blocks-find_name block_count 0 d name
