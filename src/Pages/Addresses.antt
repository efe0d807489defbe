-- ===== src/Pages/Addresses.antt =====
-- The addresses of page table and page directory entries in kernel/memory.c.
use mmzzos.Base.{ℕ, ◌+◌, ◌*◌, ◌^◌, ◌<◌, ◌≡◌, ◌↔◌, arith}
use mmzzos.Pages.{pte_addr, pde_addr, page_of}

-- The entries of all pages stand in one array from 0xffc00000 on, one word for each page, so that two
-- addresses share an entry exactly if they are on one page; and the entry of the page directory is
-- the entry of the page on which the page table entry itself stands.
pub pte_addr_lem :
    (a b : ℕ)
    → a < 2 ^ 32
    → b < 2 ^ 32
    → (pte_addr a ≡ 0xffc00000 + page_of a * 4)
      × (pte_addr a < 2 ^ 32)
      × ((pte_addr a ≡ pte_addr b) ↔ (page_of a ≡ page_of b))
      × (pde_addr a ≡ pte_addr (pte_addr a))
unfolding pte_addr pde_addr
pte_addr_lem a b ha hb =
    (omega arith, omega arith, ((λ e. omega arith), (λ e. omega arith)), omega arith)
