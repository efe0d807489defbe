-- ===== src/Pages/Mapping.antt =====
-- AddToPageTable and MapVaddrToPhyaddr of kernel/memory.c.
use mmzzos.Base.{
  ℕ, ◌+◌, ◌*◌, ◌/◌, ◌%◌, ◌^◌, ◌<◌, ◌≡◌, ◌≢◌, ◌⊎◌, refl, true, false, ◌==◌, Result, ok, panic, arith,
  ==_refl,
}
use mmzzos.Bitmap.{bit_at}
use mmzzos.Pages.{
  Space, page_of, is_present, entry_to, put, add_to_page_table, map_vaddr_to_phyaddr,
}

-- The page of `vaddr` is mapped to the frame at `phy`, and what else changed.
pub record Mapped (phy vaddr : ℕ) (s s' : Space) : Type 0 where
  pub translates : (v : ℕ) → page_of v ≡ page_of vaddr → map_vaddr_to_phyaddr s' v ≡ phy + v % 4096
  pub present : is_present (s'.pte (page_of vaddr)) ≡ true
  pub table : is_present (s'.pde (vaddr / 2 ^ 22)) ≡ true
  -- Other pages keep their entries, but in a new page table they have none.
  pub others :
      (p : ℕ)
      → p ≢ page_of vaddr
      → (s'.pte p ≡ s.pte p)
        ⊎ ((p / 1024 ≡ vaddr / 2 ^ 22)
            × (is_present (s.pde (vaddr / 2 ^ 22)) ≡ false)
            × (s'.pte p ≡ 0))
  pub directory : (d : ℕ) → d ≢ vaddr / 2 ^ 22 → s'.pde d ≡ s.pde d

pub entry_to-present : (a : ℕ) → is_present (entry_to a) ≡ true
entry_to-present a = ground arith

pub put_at : (f : ℕ → ℕ) (i v : ℕ) → put f i v i ≡ v
unfolding put
put_at f i v = rw (==_refl i) refl

pub put_ne : (f : ℕ → ℕ) (i v j : ℕ) → j ≢ i → put f i v j ≡ f j
unfolding put
put_ne f i v j ne = let e : (j == i) ≡ false = ground arith in rw e refl

-- With a page table and no entry for the page.
pub add_to_page_table-free :
    (phy vaddr : ℕ) (s : Space)
    → is_present (s.pde (vaddr / 2 ^ 22)) ≡ true
    → is_present (s.pte (page_of vaddr)) ≡ false
    → add_to_page_table phy vaddr s
      ≡ ok (record s { pte = put s.pte (page_of vaddr) (entry_to phy) })
unfolding add_to_page_table
add_to_page_table-free phy vaddr s there free = rw (there, free) refl

-- What AddToPageTable does on each of its branches.
pub data Added (phy vaddr : ℕ) (s : Space) : Result Space → Type 0 where
  -- The page had no page table or no entry, and is mapped.
  mapped :
      (s' : Space)
      → (is_present (s.pde (vaddr / 2 ^ 22)) ≡ false) ⊎ (is_present (s.pte (page_of vaddr)) ≡ false)
      → Mapped phy vaddr s s'
      → Added phy vaddr s (ok s')
  -- The page was mapped already, and the ASSERT stops the machine.
  taken :
      is_present (s.pde (vaddr / 2 ^ 22)) ≡ true
      → is_present (s.pte (page_of vaddr)) ≡ true
      → Added phy vaddr s panic
  -- There is no page for a page table, and nothing is done.
  skipped :
      is_present (s.pde (vaddr / 2 ^ 22)) ≡ false
      → ((k : ℕ) → k < 8 * s.kernel_pool.bp.len → bit_at s.kernel_pool.bp k ≡ true)
      → Added phy vaddr s (ok s)
