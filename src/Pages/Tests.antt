-- ===== src/Pages/Tests.antt =====
-- Small pools, and the theorems on kernel/memory.c applied to them.
use mmzzos.Base.{
  replicate, length-replicate, ℕ, ◌<◌, ◌≤◌, ◌≡◌, some, refl, sym, ap, subst, ◌∙◌, true, false, ◌==◌,
  if◌then◌else◌, Bool-cases, inl, inr, [], ◌∷◌, ok, arith,
}
use mmzzos.Base.Bytes.{bit, set_bit, passes, passes-true}
use mmzzos.Pages.Supply.{free_pages_of}
use mmzzos.Bitmap.{bit_at, allocate, scan, scan_byte, mark_bit}
use mmzzos.Pages.{
  Pool, Space, kernel, user, is_present, vpool_of, vaddr_get, vaddr_get_at, mark_run,
}
use mmzzos.Pages.Pools.{IsPool}
use mmzzos.Pages.Runs.{malloc_page}
use mathlib.Core.Bool.{false≢true}
use mmzzos.Pages.Teardown.{frame_of, release_tables}
use mmzzos.Pages.Frames.{InPool, Eased, in_use}
use mmzzos.Pages.Emptied.{HasFrames, release_tables_lem}
use mmzzos.Pages.Blocks.{Desc, find_desc, memory_block_desc_init}
use mmzzos.Pages.Start.{mem_init, IsFresh, pool_end, mem_init_lem}
use mmzzos.Pages.Rounds.{AllMapped}
use mmzzos.Pages.Success.{malloc_page_lem}

abbrev pool_from : ℕ → ℕ → Pool
pool_from start bits = record { bp = record { len = 1; bits = bits ∷ [] }; addr_start = start }

pool_from-IsPool :
    (start bits : ℕ) → bits < 256 → 0 < start → start < 0xf0000000 → IsPool (pool_from start bits)
pool_from-IsPool start bits h pos below = record {
  map = record { storage = refl; bytes = (h, tt) };
  above = pos;
  below = omega arith;
}

-- Eight frames in each pool, those of the kernel all in use.
abbrev space : Space
space = record {
  kernel_pool = pool_from 0x200000 255;
  user_pool = pool_from 0x400000 1;
  kernel_vpool = pool_from 0xc0100000 3;
  user_vpool = pool_from 0x8048000 0;
  pde = λ d. 0x300007;
  pte = λ p. 0;
}

abbrev d128 : Desc
d128 = record { block_size = 128; cnt_per_page = 31; free_memory_block = [] }

-- The pages 2 and 3 of the kernel.
two_pages : vaddr_get (vpool_of kernel space) 2 ≡ ok (0xc0102000, pool_from 0xc0100000 15)
unfolding vaddr_get vaddr_get_at mark_run allocate scan scan_byte mark_bit bit set_bit
two_pages = refl

all_used : passes (bit_at (pool_from 0x200000 255).bp) 8 ≡ true
unfolding passes bit
all_used = refl

frames_left : free_pages_of (pool_from 0x400000 1) ≡ 7
unfolding bit
frames_left = refl

used : (k : ℕ) → k < 8 → bit_at (pool_from 0x200000 255).bp k ≡ true
used k h = passes-true (bit_at (pool_from 0x200000 255).bp) 8 k h all_used

two_user_pages : vaddr_get (vpool_of user space) 2 ≡ ok (0x8048000, pool_from 0x8048000 3)
unfolding vaddr_get vaddr_get_at mark_run allocate scan scan_byte mark_bit bit set_bit
two_user_pages = refl

malloc_page_lem_example :
    (s : Space) × (malloc_page user 2 space ≡ ok (0x8048000, s))
    × AllMapped user 2 0x8048000 space s
malloc_page_lem_example =
    malloc_page_lem user 2 0x8048000 (pool_from 0x8048000 3) space (omega arith)
      (pool_from-IsPool 0x8048000 0 (omega arith) (omega arith) (omega arith)) refl two_user_pages
      (λ e. absurd (omega arith))
      (record {
        kernel_well = pool_from-IsPool 0x200000 255 (omega arith) (omega arith) (omega arith);
        well = pool_from-IsPool 0x400000 1 (omega arith) (omega arith) (omega arith);
        aligned = refl;
        enough = omega (arith, frames_left);
        tables = λ i lt. refl;
        no_entries = λ i lt. refl;
      })

-- Page 5 has a frame of the user's, and its page table one of the kernel's.
abbrev one_page_space : Space
one_page_space = record {
  kernel_pool = pool_from 0x200000 255;
  user_pool = pool_from 0x400000 9;
  kernel_vpool = pool_from 0xc0100000 3;
  user_vpool = pool_from 0x8048000 0;
  pde = λ d. if d == 0 then 0x200007 else 0;
  pte = λ p. if p == 5 then 0x403007 else 0;
}

one_page_space-HasFrames : HasFrames one_page_space
one_page_space-HasFrames = record {
  kernel_map = record { storage = refl; bytes = (omega arith, tt) };
  user_map = record { storage = refl; bytes = (omega arith, tt) };
  pages = λ p h e. elim (Bool-cases (p == 5)) [
    | inl g ↦
        subst (λ b. InPool one_page_space (frame_of (if b then 0x403007 else 0))) (sym g)
          (omega arith)
    | inr g ↦ absurd (false≢true (sym (ap (λ b. is_present (if b then 0x403007 else 0)) g) ∙ e))
  ];
  tables = λ i h e. elim (Bool-cases (i == 0)) [
    | inl g ↦
        subst (λ b. InPool one_page_space (frame_of (if b then 0x200007 else 0))) (sym g)
          (omega arith)
    | inr g ↦ absurd (false≢true (sym (ap (λ b. is_present (if b then 0x200007 else 0)) g) ∙ e))
  ];
}

release_tables_lem_example :
    (s' : Space) × (release_tables 1024 768 0 one_page_space ≡ ok s')
    × Eased one_page_space s'
    × (in_use s' 0x403000 ≡ false)
    × (in_use s' 0x200000 ≡ false)
release_tables_lem_example =
    release_tables_lem one_page_space 5 one_page_space-HasFrames (omega arith) refl refl

-- A request of 100 bytes takes a block of 128.
block_of_128 : find_desc 100 memory_block_desc_init ≡ some d128
unfolding find_desc memory_block_desc_init
block_of_128 = refl

mem_init_lem_example :
    (s' : Space) × (mem_init 0x2000000 (replicate 24576 255) space ≡ ok s')
    × IsFresh s'.kernel_pool
    × IsFresh s'.user_pool
    × IsFresh s'.kernel_vpool
    × (pool_end s'.kernel_pool ≤ s'.user_pool.addr_start)
    × (pool_end s'.user_pool ≤ 0x2000000)
mem_init_lem_example =
    mem_init_lem 0x2000000 (replicate 24576 255) space (omega arith) (omega arith)
      (length-replicate {A = ℕ} 24576 255)
