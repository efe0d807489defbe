-- ===== src/Pages.antt =====
-- kernel/memory.c: pools of pages over bit maps, the page tables, and runs of pages that are mapped.
-- The contents of the mapped pages are left out, and so are the clears of them; the clear of a new page
-- table is there. The callers hold the mutex of the pool. Addresses have 32 bits.
pub mod Pools
pub mod Runs
pub mod Addresses
pub mod Mapping
pub mod Leaks
pub mod Supply
pub mod Rounds
pub mod Success
pub mod Teardown
pub mod Frames
pub mod Emptied
pub mod Blocks
pub mod Arenas
pub mod Start
mod Tests
use mmzzos.Base.{
  ℕ, zero, suc, ◌+◌, ◌-◌, ◌*◌, ◌/◌, ◌%◌, ◌^◌, Bool, true, false, Option, none, some, ◌==◌, ltb, leb,
  not, if◌then◌else◌, Result, ok, panic, fault, ◌>>=◌, ◌>>◌, assert,
}
use mmzzos.Bitmap.{BitMap, allocate, mark_bit, reset_bit}

-- `struct PhyAddr_Pool` without its mutex and its size, and `struct Vaddr_Pool`.
pub record Pool : Type 0 where
  pub bp : BitMap
  pub addr_start : ℕ

-- `addr_start+idx*PAGE_SIZE`
abbrev pub page_addr : Pool → ℕ → ℕ
page_addr pool idx = (pool.addr_start + idx * 4096) % 2 ^ 32

-- `(addr-addr_start)/PAGE_SIZE`
abbrev pub page_index : Pool → ℕ → ℕ
page_index pool addr = (addr + (2 ^ 32 - pool.addr_start)) % 2 ^ 32 / 4096

unfoldable pub palloc_at : Pool → Option ℕ → Result (ℕ × Pool)
palloc_at pool none = ok (0, pool)
palloc_at pool (some idx) = do
  bp ← mark_bit pool.bp idx
  ok (page_addr pool idx, record pool { bp = bp })

unfoldable pub palloc : Pool → Result (ℕ × Pool)
unfolding palloc_at
palloc pool = do found ← allocate pool.bp 1; palloc_at pool found

-- The part of `pfree` and of `FreeOnePhyPage` behind the choice of the pool.
unfoldable pub release : Pool → ℕ → Result Pool
release pool addr = do bp ← reset_bit pool.bp (page_index pool addr); ok (record pool { bp = bp })

-- `while(pageCnt--)BitMapSet(bp,idx++);`
unfoldable pub mark_run : ℕ → ℕ → BitMap → Result BitMap
mark_run zero idx bp = ok bp
mark_run (suc cnt) idx bp = do bp' ← mark_bit bp idx; mark_run cnt (idx + 1) bp'

unfoldable pub vaddr_get_at : Pool → ℕ → Option ℕ → Result (ℕ × Pool)
unfolding mark_run
vaddr_get_at pool cnt none = ok (0, pool)
vaddr_get_at pool cnt (some idx) = do
  bp ← mark_run cnt idx pool.bp
  ok (page_addr pool idx, record pool { bp = bp })

-- `VaddrGet` on the pool of its flag.
unfoldable pub vaddr_get : Pool → ℕ → Result (ℕ × Pool)
unfolding vaddr_get_at
vaddr_get pool cnt = do found ← allocate pool.bp cnt; vaddr_get_at pool cnt found

unfoldable pub reset_run : ℕ → ℕ → BitMap → Result BitMap
reset_run zero idx bp = ok bp
reset_run (suc cnt) idx bp = do bp' ← reset_bit bp idx; reset_run cnt (idx + 1) bp'

-- `VaddrRemove` on the pool of its flag.
unfoldable pub vaddr_remove : Pool → ℕ → ℕ → Result Pool
unfolding reset_run
vaddr_remove pool vaddr cnt = do
  bp ← reset_run cnt (page_index pool vaddr) pool.bp
  ok (record pool { bp = bp })

pub data PoolOwner : Type 0 where
  kernel user : PoolOwner

-- The pools, with the virtual pool of the running process, and the entries of the page directory and
-- of all page tables, by the number of the entry.
pub record Space : Type 0 where
  pub kernel_pool : Pool
  pub user_pool : Pool
  pub kernel_vpool : Pool
  pub user_vpool : Pool
  pub pde : ℕ → ℕ
  pub pte : ℕ → ℕ

abbrev pub pool_of : PoolOwner → Space → Pool
pool_of kernel s = s.kernel_pool
pool_of user s = s.user_pool

abbrev pub with_pool : PoolOwner → Pool → Space → Space
with_pool kernel p s = record s { kernel_pool = p }
with_pool user p s = record s { user_pool = p }

abbrev pub vpool_of : PoolOwner → Space → Pool
vpool_of kernel s = s.kernel_vpool
vpool_of user s = s.user_vpool

abbrev pub with_vpool : PoolOwner → Pool → Space → Space
with_vpool kernel p s = record s { kernel_vpool = p }
with_vpool user p s = record s { user_vpool = p }

-- `PDE` and `PTE`
abbrev pub pde_index : ℕ → ℕ
pde_index addr = addr / 2 ^ 22 % 2 ^ 10

abbrev pub pte_index : ℕ → ℕ
pte_index addr = addr / 2 ^ 12 % 2 ^ 10

-- `PTE_Addr` and `PDE_Addr`: the fields that `|` joins do not overlap.
unfoldable pub pte_addr : ℕ → ℕ
pte_addr addr = 0xffc00000 + addr / 2 ^ 22 * 2 ^ 22 / 2 ^ 10 + pte_index addr * 4

unfoldable pub pde_addr : ℕ → ℕ
pde_addr addr = 0xfffff000 + pde_index addr * 4

-- The number of the page of an address, which is that of its entry in the page tables.
abbrev pub page_of : ℕ → ℕ
page_of vaddr = vaddr / 4096

abbrev pub is_present : ℕ → Bool
is_present entry = entry % 2 == 1

-- `((uint32_t)addr)|PG_US_U|PG_RW_W|PG_P_1`
abbrev pub entry_to : ℕ → ℕ
entry_to addr = addr / 8 * 8 + 7

unfoldable pub put : (ℕ → ℕ) → ℕ → ℕ → ℕ → ℕ
put f i v j = if j == i then v else f j

-- `memset((void*)((uint32_t)pte & 0xfffff000),0,PAGE_SIZE);`
unfoldable pub clear_table : (ℕ → ℕ) → ℕ → ℕ → ℕ
clear_table pte table page = if page / 1024 == table then 0 else pte page

-- With the page of a new page table.
unfoldable pub add_table : ℕ → ℕ → Space → ℕ × Pool → Space
unfolding put clear_table
add_table phy vaddr s (page, pool) =
    let s' = record s { kernel_pool = pool } in
    if page == 0 then s' else record s' {
      pde = put s.pde (vaddr / 2 ^ 22) (entry_to page);
      pte = put (clear_table s.pte (vaddr / 2 ^ 22)) (page_of vaddr) (entry_to phy);
    }

unfoldable pub new_table : ℕ → ℕ → Space → Option ℕ → Result Space
unfolding add_table
new_table phy vaddr s none = ok s
new_table phy vaddr s (some _) = do page ← palloc s.kernel_pool; ok (add_table phy vaddr s page)

-- `AddToPageTable`
unfoldable pub add_to_page_table : ℕ → ℕ → Space → Result Space
unfolding new_table put
add_to_page_table phy vaddr s =
    if is_present (s.pde (vaddr / 2 ^ 22))
    then (do
      assert (not (is_present (s.pte (page_of vaddr))))
      ok (record s { pte = put s.pte (page_of vaddr) (entry_to phy) }))
    else (do found ← allocate s.kernel_pool.bp 1; new_table phy vaddr s found)

-- `MapVaddrToPhyaddr`
unfoldable pub map_vaddr_to_phyaddr : Space → ℕ → ℕ
map_vaddr_to_phyaddr s vaddr = s.pte (page_of vaddr) / 4096 * 4096 + vaddr % 4096
