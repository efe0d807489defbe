-- ===== src/Pages/Arenas.antt =====
-- The blocks of an arena.
use mmzzos.Base.{
  ℕ, ◌+◌, ◌-◌, ◌*◌, ◌%◌, ◌^◌, ◌<◌, ◌≤◌, ◌≡◌, Option, none, some, List, [], ◌∷◌, leb, Bool-cases,
  leb→le, inl, inr, arith, All, subst,
}
use native.Mathlib.Nat.{mul-le-mul_right}
use mmzzos.Pages.Blocks.{
  Desc, arena_size, memory_block_desc_init, find_desc, arena_idx_block, arena_contain_block,
}

-- The blocks of a page fit behind the header.
record IsSized (d : Desc) : Type 0 where
  some_size : 0 < d.block_size
  fits : d.cnt_per_page * d.block_size ≤ 4096 - arena_size

init-IsSized : All IsSized memory_block_desc_init
unfolding memory_block_desc_init
init-IsSized = (
  record { some_size = omega arith; fits = omega arith },
  (
    record { some_size = omega arith; fits = omega arith },
    (
      record { some_size = omega arith; fits = omega arith },
      (
        record { some_size = omega arith; fits = omega arith },
        (
          record { some_size = omega arith; fits = omega arith },
          (
            record { some_size = omega arith; fits = omega arith },
            (record { some_size = omega arith; fits = omega arith }, tt),
          ),
        ),
      ),
    ),
  ),
)

-- The choice is one of the descriptors, and its blocks are large enough.
abbrev IsChoice : ℕ → Option Desc → Type 0
IsChoice size none = Unit
IsChoice size (some d) = (size ≤ d.block_size) × IsSized d

find_desc-IsChoice :
    (size : ℕ) (ds : List Desc) → All IsSized ds → IsChoice size (find_desc size ds)
unfolding find_desc
find_desc-IsChoice size [] all = tt
find_desc-IsChoice size (d ∷ ds) all = elim (Bool-cases (leb size d.block_size)) [
  | inl e ↦ rw e (leb→le size d.block_size e, all.0)
  | inr e ↦ rw e (find_desc-IsChoice size ds all.1)
]

-- `cnt` rows of `size` reach as far as the row behind row `i`.
row-fits : (i cnt size : ℕ) → i < cnt → i * size + size ≤ cnt * size
row-fits i cnt size h =
    let below : i + 1 ≤ cnt = omega arith in
    omega (arith, mul-le-mul_right {m = i + 1} {n = cnt} size below)

-- The descriptor that the loop chooses has blocks of at least the size asked for. In a page-aligned arena such a block
-- lies behind the header and inside the page, two of them do not overlap, and ArenaContainBlcok of a block is its
-- arena.
pub arena_idx_block_lem :
    (size arena first second : ℕ) (d : Desc)
    → find_desc size memory_block_desc_init ≡ some d
    → arena % 4096 ≡ 0
    → arena + 4096 ≤ 2 ^ 32
    → first < second
    → second < d.cnt_per_page
    → (size ≤ d.block_size)
      × (arena + arena_size ≤ arena_idx_block arena d first)
      × (arena_idx_block arena d first + d.block_size ≤ arena_idx_block arena d second)
      × (arena_idx_block arena d second + d.block_size ≤ arena + 4096)
      × (arena_contain_block (arena_idx_block arena d first) ≡ arena)
      × (arena_contain_block (arena_idx_block arena d second) ≡ arena)
unfolding arena_idx_block arena_contain_block
arena_idx_block_lem size arena first second d chosen aligned fits order small =
    let c : IsChoice size (some d) =
      subst (IsChoice size) chosen (find_desc-IsChoice size memory_block_desc_init init-IsSized) in
    let r1 = row-fits first second d.block_size order in
    let r2 = row-fits second d.cnt_per_page d.block_size small in
    let f = c.1.fits in
    let p = c.1.some_size in
    (c.0, ground arith, ground arith, ground arith, ground arith, ground arith)
