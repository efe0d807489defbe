-- ===== src/Pages/Runs.antt =====
-- Pages by their virtual addresses, in kernel/memory.c: malloc_page, free_page and the calls for one
-- page.
use mmzzos.Base.{
  ℕ, zero, suc, ◌+◌, ◌-◌, ◌*◌, ◌/◌, ◌%◌, ◌^◌, Bool, false, ◌==◌, ltb, if◌then◌else◌, Result, ok,
  panic, ◌>>=◌,
}
use mmzzos.Bitmap.{mark_bit}
use mmzzos.Pages.{
  Pool, Space, PoolOwner, user, palloc, release, vaddr_get, vaddr_remove, pool_of, with_pool,
  vpool_of, with_vpool, page_of, page_index, put, add_to_page_table, map_vaddr_to_phyaddr,
}

-- `pfree`; `FreeOnePhyPage` makes the same choice.
unfoldable pub pfree : ℕ → Space → Result Space
pfree phy s =
    if ltb phy s.user_pool.addr_start
    then (do pool ← release s.kernel_pool phy; ok (record s { kernel_pool = pool }))
    else (do pool ← release s.user_pool phy; ok (record s { user_pool = pool }))

-- `page_table_remove_pte`: the present bit goes.
unfoldable pub page_table_remove_pte : ℕ → Space → Space
unfolding put
page_table_remove_pte vaddr s = record s {
  pte = put s.pte (page_of vaddr) (s.pte (page_of vaddr) / 2 * 2);
}

-- The loop of `free_page`.
unfoldable pub free_pages : ℕ → ℕ → Space → Result Space
unfolding pfree page_table_remove_pte
free_pages zero vaddr s = ok s
free_pages (suc cnt) vaddr s = do
  s' ← pfree (map_vaddr_to_phyaddr s vaddr) s
  free_pages cnt ((vaddr + 4096) % 2 ^ 32) (page_table_remove_pte vaddr s')

unfoldable pub free_page : PoolOwner → ℕ → ℕ → Space → Result Space
unfolding free_pages
free_page flag vaddr cnt s = do
  s' ← free_pages cnt vaddr s
  pool ← vaddr_remove (vpool_of flag s') vaddr cnt
  ok (with_vpool flag pool s')

-- A round of the loop of `malloc_page` behind its `palloc`, at `vaddr` in a run that starts at `ret`,
-- and what follows. Where no page is left the pages mapped before are freed.
unfoldable pub map_page :
    PoolOwner → ℕ → ℕ → Space → (Space → Result (ℕ × Space)) → ℕ × Pool → Result (ℕ × Space)
unfolding free_page
map_page flag ret vaddr s next (phy, pool) =
    let s' = with_pool flag pool s in
    if phy == 0
    then (do s'' ← free_page flag ret ((vaddr + (2 ^ 32 - ret)) % 2 ^ 32 / 4096) s'; ok (0, s''))
    else (do s'' ← add_to_page_table phy vaddr s'; next s'')

unfoldable pub map_pages : PoolOwner → ℕ → ℕ → ℕ → Space → Result (ℕ × Space)
unfolding map_page
map_pages flag zero ret vaddr s = ok (ret, s)
map_pages flag (suc cnt) ret vaddr s = do
  got ← palloc (pool_of flag s)
  map_page flag ret vaddr s (λ s'. map_pages flag cnt ret ((vaddr + 4096) % 2 ^ 32) s') got

unfoldable pub map_run : PoolOwner → ℕ → Space → ℕ × Pool → Result (ℕ × Space)
unfolding map_pages
map_run flag cnt s (vaddr, pool) =
    let s' = with_vpool flag pool s in
    if vaddr == 0 then ok (0, s') else map_pages flag cnt vaddr vaddr s'

unfoldable pub malloc_page : PoolOwner → ℕ → Space → Result (ℕ × Space)
unfolding map_run
malloc_page flag cnt s = do got ← vaddr_get (vpool_of flag s) cnt; map_run flag cnt s got

-- Behind the `palloc` of `GetOnePage`.
unfoldable pub one_page : PoolOwner → ℕ → Space → ℕ × Pool → Result (ℕ × Space)
one_page flag vaddr s (phy, pool) =
    let s' = with_pool flag pool s in
    if phy == 0 then ok (0, s') else (do s'' ← add_to_page_table phy vaddr s'; ok (vaddr, s''))

-- `GetOnePageWithoutOpBitmap`
unfoldable pub get_one_page_without_op_bitmap : PoolOwner → ℕ → Space → Result (ℕ × Space)
unfolding one_page
get_one_page_without_op_bitmap flag vaddr s = do
  got ← palloc (pool_of flag s)
  one_page flag vaddr s got

-- `GetOnePage`, where `process` says that the running thread has a page directory of its own.
unfoldable pub get_one_page : Bool → PoolOwner → ℕ → Space → Result (ℕ × Space)
unfolding get_one_page_without_op_bitmap
get_one_page false user vaddr s = panic
get_one_page process flag vaddr s = do
  let pool = vpool_of flag s
  bp ← mark_bit pool.bp (page_index pool vaddr)
  get_one_page_without_op_bitmap flag vaddr (with_vpool flag (record pool { bp = bp }) s)
