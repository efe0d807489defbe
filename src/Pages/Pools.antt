-- ===== src/Pages/Pools.antt =====
-- The pools of pages of kernel/memory.c: what palloc gives, and that a release takes it back.
use mmzzos.Base.{
  ℕ, zero, suc, ◌+◌, ◌*◌, ◌^◌, ◌<◌, ◌≤◌, ◌≡◌, ◌≢◌, refl, sym, ap, ◌∙◌, Bool, true, false, ◌&&◌,
  Option, none, some, ltb, leb, if◌then◌else◌, Result, ok, ◌>>=◌, returned, ok_inj, panic, fault,
  arith, subst,
}
use mathlib.Core.Path.{fun_ext}
use mmzzos.Bitmap.{BitMap, IsValid, bit_at, allocate, mark_bit}
use mmzzos.Bitmap.Bits.{Wrote, mark_bit_lem, reset_bit_lem}
use mmzzos.Bitmap.Search.{First, Free, allocate-First}
use mmzzos.Pages.{
  Pool, page_addr, page_index, palloc, palloc_at, mark_run, reset_run, vaddr_get, vaddr_get_at,
  vaddr_remove,
}

-- The map is valid, and the pages of the pool are inside the address space and do not start at 0.
pub record IsPool (pool : Pool) : Type 0 where
  pub map : IsValid pool.bp
  pub above : 0 < pool.addr_start
  pub below : pool.addr_start + 8 * pool.bp.len * 4096 ≤ 2 ^ 32

-- The pool and the virtual pool after the bits from `idx` on, `cnt` of them, were set to `b`.
pub record Changed (pool pool' : Pool) (idx cnt : ℕ) (b : Bool) : Type 0 where
  pub well : IsPool pool'
  pub len : pool'.bp.len ≡ pool.bp.len
  pub start : pool'.addr_start ≡ pool.addr_start
  pub bits :
      (k : ℕ) → bit_at pool'.bp k ≡ (if leb idx k && ltb k (idx + cnt) then b else bit_at pool.bp k)

-- The outcome of a search for `cnt` pages: a run of free pages, now used, or none because there is no
-- such run.
pub data Got (pool : Pool) (cnt : ℕ) : ℕ × Pool → Type 0 where
  run :
      (idx : ℕ) (pool' : Pool)
      → idx + cnt ≤ 8 * pool.bp.len
      → Free (bit_at pool.bp) idx cnt
      → Changed pool pool' idx cnt true
      → Got pool cnt (pool.addr_start + idx * 4096, pool')
  full :
      ((t : ℕ) → t + cnt ≤ 8 * pool.bp.len → ¬ Free (bit_at pool.bp) t cnt) → Got pool cnt (0, pool)

page_addr-eq :
    (pool : Pool) (idx : ℕ)
    → IsPool pool
    → idx < 8 * pool.bp.len
    → page_addr pool idx ≡ pool.addr_start + idx * 4096
page_addr-eq pool idx v h = omega (arith, v.below)

pub page_index-page :
    (pool : Pool) (idx : ℕ)
    → IsPool pool
    → idx < 8 * pool.bp.len
    → page_index pool (pool.addr_start + idx * 4096) ≡ idx
page_index-page pool idx v h = omega (arith, v.below)

-- `cnt` bits set in turn.
mark_run_lem :
    (cnt idx : ℕ) (bp : BitMap)
    → IsValid bp
    → idx + cnt ≤ 8 * bp.len
    → (bp' : BitMap) × (mark_run cnt idx bp ≡ ok bp')
      × IsValid bp'
      × (bp'.len ≡ bp.len)
      × ((k : ℕ) → bit_at bp' k ≡ (if leb idx k && ltb k (idx + cnt) then true else bit_at bp k))
unfolding mark_run
mark_run_lem zero idx bp v h = (bp, refl, v, refl, (λ k. ground arith))
mark_run_lem (suc cnt) idx bp v h =
    let (bp1, e1, w) = returned (Wrote bp idx true) _ (mark_bit_lem bp idx v (omega arith)) in
    let (bp2, e2, v2, l2, b2) = mark_run_lem cnt (idx + 1) bp1 w.valid (omega (arith, w.len)) in
    (bp2, rw e1 e2, v2, l2 ∙ w.len, (λ k. ground (arith, b2 k, w.bit k)))

reset_run_lem :
    (cnt idx : ℕ) (bp : BitMap)
    → IsValid bp
    → idx + cnt ≤ 8 * bp.len
    → (bp' : BitMap) × (reset_run cnt idx bp ≡ ok bp')
      × IsValid bp'
      × (bp'.len ≡ bp.len)
      × ((k : ℕ) → bit_at bp' k ≡ (if leb idx k && ltb k (idx + cnt) then false else bit_at bp k))
unfolding reset_run
reset_run_lem zero idx bp v h = (bp, refl, v, refl, (λ k. ground arith))
reset_run_lem (suc cnt) idx bp v h =
    let (bp1, e1, w) = returned (Wrote bp idx false) _ (reset_bit_lem bp idx v (omega arith)) in
    let (bp2, e2, v2, l2, b2) = reset_run_lem cnt (idx + 1) bp1 w.valid (omega (arith, w.len)) in
    (bp2, rw e1 e2, v2, l2 ∙ w.len, (λ k. ground (arith, b2 k, w.bit k)))

IsPool-changed :
    (pool : Pool) (bp : BitMap)
    → IsPool pool
    → IsValid bp
    → bp.len ≡ pool.bp.len
    → IsPool (record pool { bp = bp })
IsPool-changed pool bp v w len = record {
  map = w;
  above = v.above;
  below = omega (arith, v.below, len);
}

-- The window found is marked, and its address given.
vaddr_get-found :
    (pool : Pool) (cnt : ℕ) (found : Option ℕ)
    → 0 < cnt
    → IsPool pool
    → First (bit_at pool.bp) (8 * pool.bp.len) cnt found
    → (out : ℕ × Pool) × (vaddr_get_at pool cnt found ≡ ok out) × Got pool cnt out
unfolding vaddr_get_at
vaddr_get-found pool cnt none pos v none_ = ((0, pool), refl, full none_)
vaddr_get-found pool cnt (some idx) pos v (inside, free, first) =
    let (bp, e, w, len, bits) = mark_run_lem cnt idx pool.bp v.map inside in
    let pool' = record pool { bp = bp } in
    (
      (pool.addr_start + idx * 4096, pool'),
      rw e (ap (λ a. ok (a, pool')) (page_addr-eq pool idx v (omega arith))),
      run idx pool' inside free
          (record { well = IsPool-changed pool bp v w len; len = len; start = refl; bits = bits }),
    )

-- `VaddrGet` of at least one page reads nothing outside the map. It gives the address of the first run
-- of free pages and marks that run, and no other page, as used; it gives 0 and changes nothing where
-- there is no such run.
pub vaddr_get_lem :
    (pool : Pool) (cnt : ℕ)
    → IsPool pool
    → 0 < cnt
    → (out : ℕ × Pool) × (vaddr_get pool cnt ≡ ok out) × Got pool cnt out
unfolding vaddr_get
vaddr_get_lem pool cnt v pos =
    let (found, e, first) =
      returned (First (bit_at pool.bp) (8 * pool.bp.len) cnt) _
        (allocate-First pool.bp cnt v.map pos) in
    let (out, e', got) = vaddr_get-found pool cnt found pos v first in (out, rw e e', got)

-- `palloc` is the case of one page.
then_ok : (r : Result BitMap) (f : BitMap → Result (ℕ × Pool)) → (r >>= f) ≡ ((r >>= ok) >>= f)
then_ok (ok bp) f = refl
then_ok panic f = refl
then_ok fault f = refl

palloc_at-one : (pool : Pool) (found : Option ℕ) → palloc_at pool found ≡ vaddr_get_at pool 1 found
unfolding palloc_at vaddr_get_at mark_run
palloc_at-one pool none = refl
palloc_at-one pool (some idx) = then_ok (mark_bit pool.bp idx) _

palloc-vaddr_get : (pool : Pool) → palloc pool ≡ vaddr_get pool 1
unfolding palloc vaddr_get
palloc-vaddr_get pool = ap (λ f. allocate pool.bp 1 >>= f) (fun_ext (palloc_at-one pool))

pub palloc_lem :
    (pool : Pool) → IsPool pool → (out : ℕ × Pool) × (palloc pool ≡ ok out) × Got pool 1 out
palloc_lem pool v =
    let (out, e, got) = vaddr_get_lem pool 1 v (omega arith) in
    (out, palloc-vaddr_get pool ∙ e, got)

-- The pages of a run that the pool gave are free again once `VaddrRemove` took them back, and every
-- other page is as before.
pub vaddr_get-remove :
    (pool pool' : Pool) (cnt vaddr : ℕ)
    → IsPool pool
    → 0 < cnt
    → vaddr_get pool cnt ≡ ok (vaddr, pool')
    → vaddr ≢ 0
    → (pool'' : Pool) × (vaddr_remove pool' vaddr cnt ≡ ok pool'')
      × ((k : ℕ) → bit_at pool''.bp k ≡ bit_at pool.bp k)
unfolding vaddr_remove
vaddr_get-remove pool pool' cnt vaddr v pos given some_ =
    let (out, e, got) = vaddr_get_lem pool cnt v pos in
    let same : out ≡ (vaddr, pool') = ok_inj out (vaddr, pool') (sym e ∙ given) in
    undo (vaddr, pool') (subst (Got pool cnt) same got) some_
  where
    undo :
        (out : ℕ × Pool)
        → Got pool cnt out
        → out.0 ≢ 0
        → (pool'' : Pool) × (vaddr_remove out.1 out.0 cnt ≡ ok pool'')
          × ((k : ℕ) → bit_at pool''.bp k ≡ bit_at pool.bp k)
    undo _ (full none_) some_ = absurd (some_ refl)
    undo _ (run idx p inside free c) some_ =
        let (bp, e, _, _, bits) = reset_run_lem cnt idx p.bp c.well.map (omega (arith, c.len)) in
        let at : page_index p (pool.addr_start + idx * 4096) ≡ idx =
          omega (arith, v.below, c.start) in
        (
          record p { bp = bp },
          ap (λ i. reset_run cnt i p.bp >>= λ bp. ok (record p { bp = bp })) at
              ∙ ap (λ r. r >>= λ bp. ok (record p { bp = bp })) e,
          (λ k. ground (arith, bits k, c.bits k, free k)),
        )
