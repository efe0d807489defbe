-- ===== src/Pages/Success.antt =====
-- malloc_page of kernel/memory.c where there are frames enough.
use mmzzos.Base.{
  ℕ, zero, suc, ◌+◌, ◌*◌, ◌%◌, ◌^◌, ◌<◌, ◌≤◌, ◌≡◌, ◌≢◌, refl, sym, ap, ◌∙◌, false, ◌==◌, ok, ok_inj,
  ◌>>=◌, arith,
}
use mmzzos.Pages.{Pool, Space, PoolOwner, pool_of, vpool_of, with_vpool, vaddr_get}
use mmzzos.Pages.Runs.{malloc_page, map_run, map_pages, map_page}
use mmzzos.Pages.Pools.{IsPool, Got, run, full, vaddr_get_lem}
use mmzzos.Pages.Supply.{palloc-Frame}
use mmzzos.Pages.Rounds.{
  Ready, AllMapped, AllMapped-first, AllMapped-vpool, Ready-rest, map_page-frame, after_round,
}

map_pages_lem :
    (cnt : ℕ) (flag : PoolOwner) (ret vaddr : ℕ) (s : Space)
    → vaddr % 4096 ≡ 0
    → vaddr + cnt * 4096 ≤ 2 ^ 32
    → Ready flag cnt vaddr s
    → (s' : Space) × (map_pages flag cnt ret (vaddr % 2 ^ 32) s ≡ ok (ret, s'))
      × AllMapped flag cnt vaddr s s'
unfolding map_pages
map_pages_lem zero flag ret vaddr s h fits r = (
  s,
  refl,
  record {
    present = λ i lt. absurd (omega arith);
    frames = λ i lt. absurd (omega arith);
    distinct = λ i j lt ltj. absurd (omega arith);
    used = λ k e. e;
    fewer = omega arith;
    others = λ p out. refl;
  },
)
map_pages_lem (suc cnt) flag ret vaddr s h fits r =
    let at : vaddr % 2 ^ 32 ≡ vaddr = omega arith in
    let (phy, pool, given, f) = palloc-Frame (pool_of flag s) r.well (omega (arith, r.enough)) in
    let s1 = after_round flag phy vaddr pool s in
    let (s', rest, m) =
      map_pages_lem cnt flag ret (vaddr + 4096) s1 (omega arith) (omega arith)
        (Ready-rest flag cnt vaddr phy pool s h r f) in
    let next = λ (s' : Space). map_pages flag cnt ret ((vaddr + 4096) % 2 ^ 32) s' in
    (
      s',
      ap (λ v. map_pages flag (suc cnt) ret v s) at
          ∙ ap (λ r. r >>= map_page flag ret vaddr s next) given
          ∙ map_page-frame flag cnt ret vaddr phy pool s next r f.some_page
          ∙ rest,
      AllMapped-first flag cnt vaddr phy pool s s' h r.aligned f m,
    )

-- Where the pools are sound and begin at multiples of 4096, the virtual pool has a run of `cnt` pages, more than none,
-- there are page tables but no entries for the run, and as many frames are free in the pool: malloc_page gives the
-- address of the run, the entry of each page of it is that of a frame of the pool that was free and is taken now,
-- different pages have different frames, exactly `cnt` frames were taken, and no entry of another page changed.
pub malloc_page_lem :
    (flag : PoolOwner) (cnt vaddr : ℕ) (vpool : Pool) (s : Space)
    → 0 < cnt
    → IsPool (vpool_of flag s)
    → (vpool_of flag s).addr_start % 4096 ≡ 0
    → vaddr_get (vpool_of flag s) cnt ≡ ok (vaddr, vpool)
    → vaddr ≢ 0
    → Ready flag cnt vaddr (with_vpool flag vpool s)
    → (s' : Space) × (malloc_page flag cnt s ≡ ok (vaddr, s')) × AllMapped flag cnt vaddr s s'
unfolding malloc_page map_run
malloc_page_lem flag cnt vaddr vpool s pos v aligned given some_ r =
    let (out, e, got) = vaddr_get_lem (vpool_of flag s) cnt v pos in
    let same : out ≡ (vaddr, vpool) = ok_inj out (vaddr, vpool) (sym e ∙ given) in
    let (h, fits) = placed out got (λ z. some_ (sym (ap (λ (o : ℕ × Pool). o.0) same) ∙ z)) in
    let here = ap (λ (o : ℕ × Pool). o.0) same in
    let small : vaddr % 2 ^ 32 ≡ vaddr = omega (arith, here) in
    let (s', ends, m) =
      map_pages_lem cnt flag vaddr vaddr (with_vpool flag vpool s) (omega (arith, here))
        (omega (arith, here)) r in
    let not_zero : (vaddr == 0) ≡ false = ground arith in
    (
      s',
      ap (λ r. r >>= map_run flag cnt s) given
          ∙ rw not_zero
              (ap (λ a. map_pages flag cnt vaddr a (with_vpool flag vpool s)) (sym small) ∙ ends),
      AllMapped-vpool flag cnt vaddr vpool s s' m,
    )
  where
    placed :
        (out : ℕ × Pool)
        → Got (vpool_of flag s) cnt out
        → out.0 ≢ 0
        → (out.0 % 4096 ≡ 0) × (out.0 + cnt * 4096 ≤ 2 ^ 32)
    placed _ (full none_) ne = absurd (ne refl)
    placed _ (run idx p inside free c) ne = (omega arith, omega (arith, v.below))
