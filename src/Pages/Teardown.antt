-- ===== src/Pages/Teardown.antt =====
-- The memory part of `ReleaseProcessResource` in userprog/wait_exit.c, on the page tables of the process that exits.
use mmzzos.Base.{ℕ, zero, suc, ◌+◌, ◌*◌, ◌/◌, if◌then◌else◌, Result, ok, ◌>>=◌}
use mmzzos.Pages.{Space, kernel, is_present}
use mmzzos.Pages.Runs.{pfree, free_page}

-- `entry&0xfffff000`
abbrev pub frame_of : ℕ → ℕ
frame_of entry = entry / 4096 * 4096

-- `if(pte&1)`, with the call of `FreeOnePhyPage`, which does what `pfree` does.
unfoldable pub release_entry : ℕ → Space → Result Space
unfolding pfree
release_entry entry s = if is_present entry then pfree (frame_of entry) s else ok s

-- The loop over one page table, from the entry of a page on.
unfoldable pub release_table : ℕ → ℕ → Space → Result Space
unfolding release_entry
release_table zero page s = ok s
release_table (suc left) page s = do
  s' ← release_entry (s.pte page) s
  release_table left (page + 1) s'

-- A round for one entry of the page directory, with the number of entries of a page table, 1024.
unfoldable pub release_directory : ℕ → ℕ → Space → Result Space
unfolding release_table
release_directory entries i s =
    if is_present (s.pde i)
    then (do s' ← release_table entries (i * 1024) s; pfree (frame_of (s.pde i)) s')
    else ok s

-- The loop over the page directory.
unfoldable pub release_tables : ℕ → ℕ → ℕ → Space → Result Space
unfolding release_directory
release_tables entries zero i s = ok s
release_tables entries (suc left) i s = do
  s' ← release_directory entries i s
  release_tables entries left (i + 1) s'

-- Up to the files, with the address and the length of the bit map of the virtual pool.
unfoldable pub release_process_memory : ℕ → ℕ → Space → Result Space
unfolding release_tables
release_process_memory bits len s = do
  s' ← release_tables 1024 768 0 s
  free_page kernel bits (len / 4096) s'
