-- ===== src/Pages/Start.antt =====
-- `mem_init` of kernel/memory.c: the pools of frames and the kernel's pool of virtual pages, over the bytes from
-- BITMAP_BASE on. The mutexes and the descriptors of the small blocks are set up elsewhere, and what it prints is left
-- out.
use mmzzos.Base.{
  ℕ, zero, suc, ◌+◌, ◌-◌, ◌*◌, ◌/◌, ◌%◌, ◌^◌, ◌≤◌, ◌≡◌, refl, false, List, [], ◌∷◌, length, take,
  drop, length-take, Result, ok, ◌>>=◌, returned, arith,
}
use mmzzos.Bitmap.{BitMap, IsValid, bit_at, init}
use mmzzos.Bitmap.Bits.{init_lem}
use mmzzos.Pages.{Pool, Space}
use mmzzos.Pages.Pools.{IsPool}

-- The page tables and the low megabyte.
abbrev used_mem : ℕ
used_mem = 4096 * 256 + 0x100000

abbrev free_page_count : ℕ → ℕ
free_page_count total = (total + (2 ^ 32 - used_mem)) % 2 ^ 32 / 4096

-- `BitMapInit` of a map of `len` bytes that begins `skip` bytes into the area.
unfoldable pub map_at : ℕ → ℕ → List ℕ → Result BitMap
map_at skip len area = init (record { len = len; bits = take len (drop skip area) })

unfoldable pub mem_init : ℕ → List ℕ → Space → Result Space
unfolding map_at
mem_init total area s =
    let free_page = free_page_count total in
    let kernel_cnt = free_page / 2 in
    let user_cnt = free_page - kernel_cnt in
    let kernel_len = kernel_cnt / 8 in
    let user_len = user_cnt / 8 in
    do
      kernel_bp ← map_at 0 kernel_len area
      user_bp ← map_at kernel_len user_len area
      virtual_bp ← map_at (kernel_len + user_len) kernel_len area
      ok (record s {
        kernel_pool = record { bp = kernel_bp; addr_start = used_mem };
        user_pool = record { bp = user_bp; addr_start = (used_mem + kernel_cnt * 4096) % 2 ^ 32 };
        kernel_vpool = record { bp = virtual_bp; addr_start = 0xc0100000 };
      })

-- The address behind the last page of a pool.
abbrev pub pool_end : Pool → ℕ
pool_end pool = pool.addr_start + 8 * pool.bp.len * 4096

-- A well-formed pool with all its pages free.
pub record IsFresh (pool : Pool) : Type 0 where
  pub well : IsPool pool
  pub clear : (k : ℕ) → bit_at pool.bp k ≡ false

length-drop : (n : ℕ) (xs : List ℕ) → n ≤ length xs → n + length (drop n xs) ≡ length xs
length-drop zero xs h = omega arith
length-drop (suc n) [] h = absurd (omega arith)
length-drop (suc n) (x ∷ xs) h = omega (arith, length-drop n xs (omega arith))

map_at_lem :
    (skip len : ℕ) (area : List ℕ)
    → skip + len ≤ length area
    → (bp : BitMap) × (map_at skip len area ≡ ok bp)
      × IsValid bp
      × (bp.len ≡ len)
      × ((k : ℕ) → bit_at bp k ≡ false)
unfolding map_at
map_at_lem skip len area h =
    let bp : BitMap = record { len = len; bits = take len (drop skip area) } in
    let (bp', e, rest) =
      returned (λ bp'. IsValid bp' × (bp'.len ≡ bp.len) × ((k : ℕ) → bit_at bp' k ≡ false))
        (init bp)
        (init_lem bp
          (omega (arith, length-take (drop skip area) len, length-drop skip area (omega arith)))) in
    (bp', e, rest.0, rest.1, rest.2)

-- With more than the low 2 MB and at most 512 MB of memory, and the 24 KB below the video memory for the maps,
-- mem_init ends with three pools of free pages; the frames of the kernel end where those of the user begin or before,
-- and the latter end inside the memory.
pub mem_init_lem :
    (total : ℕ) (area : List ℕ) (s : Space)
    → used_mem ≤ total
    → total ≤ 2 ^ 29
    → length area ≡ 0xa0000 - 0x9a000
    → (s' : Space) × (mem_init total area s ≡ ok s')
      × IsFresh s'.kernel_pool
      × IsFresh s'.user_pool
      × IsFresh s'.kernel_vpool
      × (pool_end s'.kernel_pool ≤ s'.user_pool.addr_start)
      × (pool_end s'.user_pool ≤ total)
unfolding mem_init
mem_init_lem total area s low high size =
    let free = free_page_count total in
    let k = free / 2 in
    let u = free - k in
    let (bk, ek, vk, lk, ck) = map_at_lem 0 (k / 8) area (omega arith) in
    let (bu, eu, vu, lu, cu) = map_at_lem (k / 8) (u / 8) area (omega arith) in
    let (bv, ev, vv, lv, cv) = map_at_lem (k / 8 + u / 8) (k / 8) area (omega arith) in
    (
      record s {
        kernel_pool = record { bp = bk; addr_start = used_mem };
        user_pool = record { bp = bu; addr_start = (used_mem + k * 4096) % 2 ^ 32 };
        kernel_vpool = record { bp = bv; addr_start = 0xc0100000 };
      },
      rw (ek, eu, ev) refl,
      record {
        well = record { map = vk; above = omega arith; below = omega (arith, lk) };
        clear = ck;
      },
      record {
        well = record { map = vu; above = omega arith; below = omega (arith, lu) };
        clear = cu;
      },
      record {
        well = record { map = vv; above = omega arith; below = omega (arith, lv) };
        clear = cv;
      },
      omega (arith, lk),
      omega (arith, lu),
    )
