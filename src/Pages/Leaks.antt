-- ===== src/Pages/Leaks.antt =====
-- What malloc_page and GetOnePage of kernel/memory.c leave behind where no frame is left.
use mmzzos.Base.{
  ℕ, suc, ◌+◌, ◌-◌, ◌*◌, ◌/◌, ◌%◌, ◌^◌, ◌<◌, ◌≡◌, refl, sym, ap, ◌∙◌, true, false, ◌==◌, ok, ◌>>=◌,
  returned, arith, subst,
}
use mathlib.Core.Bool.{false≢true}
use mmzzos.Bitmap.{bit_at, mark_bit}
use mmzzos.Bitmap.Bits.{Wrote, mark_bit_lem}
use mmzzos.Pages.{
  Pool, Space, PoolOwner, kernel, user, pool_of, vpool_of, with_pool, with_vpool, palloc,
  vaddr_remove, reset_run, page_index,
}
use mmzzos.Pages.Runs.{
  malloc_page, map_run, map_pages, map_page, free_page, free_pages, get_one_page,
  get_one_page_without_op_bitmap, one_page,
}
use mmzzos.Pages.Pools.{IsPool, Got, run, full, vaddr_get_lem, palloc_lem}

-- Every frame of the pool is in use.
abbrev pub AllUsed : Pool → Type 0
AllUsed pool = (k : ℕ) → k < 8 * pool.bp.len → bit_at pool.bp k ≡ true

palloc-none : (pool : Pool) → IsPool pool → AllUsed pool → palloc pool ≡ ok (0, pool)
palloc-none pool v used = let (out, e, got) = palloc_lem pool v in e ∙ behind out got
  where
    behind : (out : ℕ × Pool) → Got pool 1 out → ok out ≡ ok (0, pool)
    behind _ (run idx p inside free c) =
        absurd (false≢true (sym (free idx (omega arith) (omega arith)) ∙ used idx (omega arith)))
    behind _ (full none_) = refl

free_page-none :
    (flag : PoolOwner) (vaddr : ℕ) (s : Space)
    → (s' : Space) × (free_page flag vaddr 0 s ≡ ok s') × (vpool_of flag s' ≡ vpool_of flag s)
unfolding free_page free_pages vaddr_remove reset_run
free_page-none kernel vaddr s = (s, refl, refl)
free_page-none user vaddr s = (s, refl, refl)

-- The first round of the loop of malloc_page.
map_pages-none :
    (flag : PoolOwner) (cnt vaddr : ℕ) (s : Space)
    → vaddr < 2 ^ 32
    → palloc (pool_of flag s) ≡ ok (0, pool_of flag s)
    → (s' : Space) × (map_pages flag (suc cnt) vaddr vaddr s ≡ ok (0, s'))
      × (vpool_of flag s' ≡ vpool_of flag s)
unfolding map_pages map_page
map_pages-none flag cnt vaddr s small none_ =
    let zero_ : (vaddr + (2 ^ 32 - vaddr)) % 2 ^ 32 / 4096 ≡ 0 = omega arith in
    let s1 = with_pool flag (pool_of flag s) s in
    let (s', e, same) = free_page-none flag vaddr s1 in
    (
      s',
      ap
            (λ r.
              r
              >>= map_page flag vaddr vaddr s
                  (λ s'. map_pages flag cnt vaddr ((vaddr + 4096) % 2 ^ 32) s'))
            none_
          ∙ ap (λ n. free_page flag vaddr n s1 >>= λ s''. ok (0, s'')) zero_
          ∙ ap (λ r. r >>= λ s''. ok (0, s'')) e,
      same ∙ kept flag,
    )
  where
    kept : (flag : PoolOwner) → vpool_of flag (with_pool flag (pool_of flag s) s) ≡ vpool_of flag s
    kept kernel = refl
    kept user = refl

pool_of-with_vpool :
    (flag : PoolOwner) (p : Pool) (s : Space) → pool_of flag (with_vpool flag p s) ≡ pool_of flag s
pool_of-with_vpool kernel p s = refl
pool_of-with_vpool user p s = refl

vpool_of-with_vpool :
    (flag : PoolOwner) (p : Pool) (s : Space) → vpool_of flag (with_vpool flag p s) ≡ p
vpool_of-with_vpool kernel p s = refl
vpool_of-with_vpool user p s = refl

-- With no frame left malloc_page gives 0, but the run of virtual pages that it took for the call is
-- not given back: the virtual pool is as VaddrGet left it.
pub malloc_page-no_frame :
    (flag : PoolOwner) (cnt : ℕ) (s : Space)
    → IsPool (vpool_of flag s)
    → IsPool (pool_of flag s)
    → AllUsed (pool_of flag s)
    → (s' : Space) × (malloc_page flag (suc cnt) s ≡ ok (0, s'))
      × ((vaddr : ℕ) × Got (vpool_of flag s) (suc cnt) (vaddr, vpool_of flag s'))
unfolding malloc_page map_run
malloc_page-no_frame flag cnt s v w used =
    let (out, e, got) = vaddr_get_lem (vpool_of flag s) (suc cnt) v (omega arith) in
    let (s', ends, held) = behind out got in
    (s', ap (λ r. r >>= map_run flag (suc cnt) s) e ∙ ends, held)
  where
    behind :
        (out : ℕ × Pool)
        → Got (vpool_of flag s) (suc cnt) out
        → (s' : Space) × (map_run flag (suc cnt) s out ≡ ok (0, s'))
          × ((vaddr : ℕ) × Got (vpool_of flag s) (suc cnt) (vaddr, vpool_of flag s'))
    behind _ (full none_) = (
      with_vpool flag (vpool_of flag s) s,
      refl,
      (
        0,
        subst (λ p. Got (vpool_of flag s) (suc cnt) (0, p)) (sym (vpool_of-with_vpool flag _ s))
            (full none_),
      ),
    )
    behind _ (run idx p inside free c) =
        let vaddr = (vpool_of flag s).addr_start + idx * 4096 in
        let some_ : (vaddr == 0) ≡ false = ground (arith, v.above) in
        let s1 = with_vpool flag p s in
        let none_ : palloc (pool_of flag s1) ≡ ok (0, pool_of flag s1) =
          subst (λ q. palloc q ≡ ok (0, q)) (sym (pool_of-with_vpool flag p s))
            (palloc-none (pool_of flag s) w used) in
        let (s', ends, same) = map_pages-none flag cnt vaddr s1 (omega (arith, v.below)) none_ in
        (
          s',
          rw some_ ends,
          (
            vaddr,
            subst (λ q. Got (vpool_of flag s) (suc cnt) (vaddr, q))
                (sym (same ∙ vpool_of-with_vpool flag p s)) (run idx p inside free c),
          ),
        )

one_page-none :
    (flag : PoolOwner) (vaddr : ℕ) (s : Space)
    → palloc (pool_of flag s) ≡ ok (0, pool_of flag s)
    → (s' : Space) × (get_one_page_without_op_bitmap flag vaddr s ≡ ok (0, s'))
      × (vpool_of flag s' ≡ vpool_of flag s)
unfolding get_one_page_without_op_bitmap one_page
one_page-none kernel vaddr s none_ =
    (with_pool kernel s.kernel_pool s, ap (λ r. r >>= one_page kernel vaddr s) none_, refl)
one_page-none user vaddr s none_ =
    (with_pool user s.user_pool s, ap (λ r. r >>= one_page user vaddr s) none_, refl)

-- With no frame left GetOnePage gives 0, but the virtual page stays marked.
pub get_one_page-no_frame :
    (flag : PoolOwner) (vaddr : ℕ) (s : Space)
    → IsPool (vpool_of flag s)
    → page_index (vpool_of flag s) vaddr < 8 * (vpool_of flag s).bp.len
    → IsPool (pool_of flag s)
    → AllUsed (pool_of flag s)
    → (s' : Space) × (get_one_page true flag vaddr s ≡ ok (0, s'))
      × (bit_at (vpool_of flag s').bp (page_index (vpool_of flag s) vaddr) ≡ true)
unfolding get_one_page
get_one_page-no_frame flag vaddr s v inside w used =
    let pool = vpool_of flag s in
    let idx = page_index pool vaddr in
    let (bp, e, wrote) =
      returned (Wrote pool.bp idx true) _ (mark_bit_lem pool.bp idx v.map inside) in
    let pool' = record pool { bp = bp } in
    let s1 = with_vpool flag pool' s in
    let none_ : palloc (pool_of flag s1) ≡ ok (0, pool_of flag s1) =
      subst (λ q. palloc q ≡ ok (0, q)) (sym (pool_of-with_vpool flag pool' s))
        (palloc-none (pool_of flag s) w used) in
    let (s', ends, same) = one_page-none flag vaddr s1 none_ in
    (
      s',
      shape flag
          ∙ ap
              (λ r. r >>= λ bp.
                get_one_page_without_op_bitmap flag vaddr
                  (with_vpool flag (record pool { bp = bp }) s))
              e
          ∙ ends,
      ap (λ p. bit_at p.bp idx) (same ∙ vpool_of-with_vpool flag pool' s)
          ∙ wrote.bit idx
          ∙ ground arith,
    )
  where
    shape :
        (flag : PoolOwner)
        → get_one_page true flag vaddr s ≡ (
            mark_bit (vpool_of flag s).bp (page_index (vpool_of flag s) vaddr) >>= λ bp.
            get_one_page_without_op_bitmap flag vaddr
              (with_vpool flag (record (vpool_of flag s) { bp = bp }) s))
    shape kernel = refl
    shape user = refl
