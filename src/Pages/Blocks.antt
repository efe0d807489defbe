-- ===== src/Pages/Blocks.antt =====
-- The small blocks of syscall_malloc in kernel/memory.c: the descriptors of the block sizes, the choice between
-- them, and the places of the blocks in a page that has the header `struct Arena`, of 12 bytes.
use mmzzos.Base.{
  ℕ, zero, suc, ◌+◌, ◌-◌, ◌*◌, ◌/◌, ◌%◌, ◌^◌, Option, none, some, List, [], ◌∷◌, ◌++◌, leb,
  if◌then◌else◌,
}

-- `struct Memory_Block_Desc`, with the addresses of the blocks in the list `freeMemoryBlock`.
pub record Desc : Type 0 where
  pub block_size : ℕ
  pub cnt_per_page : ℕ
  pub free_memory_block : List ℕ

abbrev pub arena_size : ℕ
arena_size = 12

-- The loop of `MemoryBlockDescInit`; `/` by 0 does not occur.
unfoldable pub desc_init : ℕ → ℕ → List Desc
desc_init zero blocksize = []
desc_init (suc left) blocksize =
    record {
      block_size = blocksize;
      cnt_per_page = (4096 - arena_size) / blocksize;
      free_memory_block = [];
    }
    ∷ desc_init left (blocksize * 2 % 2 ^ 32)

unfoldable pub memory_block_desc_init : List Desc
unfolding desc_init
memory_block_desc_init = desc_init 7 16

-- `if(desc[i].blockSize>=size)` in the loop over the descriptors.
unfoldable pub find_desc : ℕ → List Desc → Option Desc
find_desc size [] = none
find_desc size (d ∷ rest) =
    let later = find_desc size rest in if leb size d.block_size then some d else later

-- `ArenaIdxBlock`
unfoldable pub arena_idx_block : ℕ → Desc → ℕ → ℕ
arena_idx_block arena d idx = (arena + arena_size + idx * d.block_size) % 2 ^ 32

-- `ArenaContainBlcok`
unfoldable pub arena_contain_block : ℕ → ℕ
arena_contain_block block = block / 4096 * 4096

-- The loop that splits a new arena, `left` rounds from the block `i` on.
unfoldable pub split_arena : ℕ → ℕ → ℕ → Desc → List ℕ → List ℕ
unfolding arena_idx_block
split_arena zero i arena d free = free
split_arena (suc left) i arena d free =
    split_arena left (i + 1) arena d (free ++ arena_idx_block arena d i ∷ [])
