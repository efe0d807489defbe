-- ===== src/Pages/Supply.antt =====
-- The number of free pages of a pool of kernel/memory.c, and that palloc takes one of them.
use mmzzos.Base.{
  ℕ, zero, suc, ◌+◌, ◌*◌, ◌%◌, ◌<◌, ◌≡◌, ◌≢◌, refl, ap, ◌∙◌, Bool, true, false, ◌==◌, if◌then◌else◌,
  ok, arith, Bool-cases, inl, inr, ==_iff, subst,
}
use mmzzos.Bitmap.{bit_at}
use mmzzos.Pages.{Pool, palloc}
use mmzzos.Pages.Pools.{IsPool, Got, run, full, palloc_lem}

abbrev pub free_below : (ℕ → Bool) → ℕ → ℕ
free_below p zero = 0
free_below p (suc n) = (if p n then 0 else 1) + free_below p n

-- The free pages of a pool.
abbrev pub free_pages_of : Pool → ℕ
free_pages_of pool = free_below (bit_at pool.bp) (8 * pool.bp.len)

free_below-same :
    (p q : ℕ → Bool) (n : ℕ) → ((k : ℕ) → k < n → q k ≡ p k) → free_below q n ≡ free_below p n
free_below-same p q zero e = refl
free_below-same p q (suc n) e =
    let rest = free_below-same p q n (λ k h. e k (omega arith)) in ground (arith, e n (omega arith))

free_below-taken :
    (p q : ℕ → Bool) (n idx : ℕ)
    → idx < n
    → p idx ≡ false
    → q idx ≡ true
    → ((k : ℕ) → k ≢ idx → q k ≡ p k)
    → free_below q n + 1 ≡ free_below p n
free_below-taken p q zero idx h free taken others = absurd (omega arith)
free_below-taken p q (suc n) idx h free taken others = elim (Bool-cases (n == idx)) [
  | inl e ↦
      let same : n ≡ idx = (==_iff n idx).0 e in
      let rest = free_below-same p q n (λ k lt. others k (λ z. absurd (omega arith))) in
      let f : p n ≡ false = ap p same ∙ free in
      let t : q n ≡ true = ap q same ∙ taken in rw (f, t) (omega (arith, rest))
  | inr ne ↦
      let differ : n ≢ idx = λ z. absurd (ground arith) in
      let rest = free_below-taken p q n idx (ground arith) free taken others in
      ground (arith, others n differ)
]

free_below-none : (p : ℕ → Bool) (n : ℕ) → ((k : ℕ) → k < n → p k ≡ true) → free_below p n ≡ 0
free_below-none p zero all = refl
free_below-none p (suc n) all =
    let rest = free_below-none p n (λ k h. all k (omega arith)) in
    ground (arith, all n (omega arith))

-- What palloc gives of a pool that has a page left.
pub record Frame (pool : Pool) (addr : ℕ) (pool' : Pool) : Type 0 where
  pub well : IsPool pool'
  pub some_page : addr ≢ 0
  pub aligned : pool.addr_start % 4096 ≡ 0 → addr % 4096 ≡ 0
  pub fewer : free_pages_of pool' + 1 ≡ free_pages_of pool
  pub start : pool'.addr_start ≡ pool.addr_start
  pub len : pool'.bp.len ≡ pool.bp.len
  pub idx : ℕ
  pub at : addr ≡ pool.addr_start + idx * 4096
  pub inside : idx < 8 * pool.bp.len
  pub free : bit_at pool.bp idx ≡ false
  pub taken : bit_at pool'.bp idx ≡ true
  pub others : (k : ℕ) → k ≢ idx → bit_at pool'.bp k ≡ bit_at pool.bp k

-- A palloc of a pool with a free page gives a page, and leaves one free page less.
pub palloc-Frame :
    (pool : Pool)
    → IsPool pool
    → 0 < free_pages_of pool
    → (addr : ℕ) × (pool' : Pool) × (palloc pool ≡ ok (addr, pool')) × Frame pool addr pool'
palloc-Frame pool v some_ = let (out, e, got) = palloc_lem pool v in behind out e got
  where
    behind :
        (out : ℕ × Pool)
        → palloc pool ≡ ok out
        → Got pool 1 out
        → (addr : ℕ) × (pool' : Pool) × (palloc pool ≡ ok (addr, pool')) × Frame pool addr pool'
    behind _ e (run idx p inside free c) = (
      pool.addr_start + idx * 4096,
      p,
      e,
      record {
        well = c.well;
        some_page = λ z. absurd (omega (arith, v.above));
        aligned = λ h. omega arith;
        fewer =
            ap (λ n. free_below (bit_at p.bp) (8 * n) + 1) c.len
            ∙ free_below-taken (bit_at pool.bp) (bit_at p.bp) (8 * pool.bp.len) idx (omega arith)
                (free idx (omega arith) (omega arith)) (c.bits idx ∙ ground arith)
                (λ k ne. c.bits k ∙ ground arith);
        start = c.start;
        len = c.len;
        idx = idx;
        at = refl;
        inside = omega arith;
        free = free idx (omega arith) (omega arith);
        taken = c.bits idx ∙ ground arith;
        others = λ k ne. c.bits k ∙ ground arith;
      },
    )
    behind _ e (full none_) =
        let used : (k : ℕ) → k < 8 * pool.bp.len → bit_at pool.bp k ≡ true = λ k lt.
          elim (Bool-cases (bit_at pool.bp k)) [
            | inl e ↦ e
            | inr e ↦ absurd (
                none_ k (omega arith)
                  (λ j a b. subst (λ j. bit_at pool.bp j ≡ false) (omega arith) e))
          ] in
        let none_left = free_below-none (bit_at pool.bp) (8 * pool.bp.len) used in
        absurd (omega arith)
