-- ===== src/MinHeap/Count.antt =====
-- The cells of a heap as a multiset: how many of them pass a test.
use mmzzos.Base.{
  ℕ, zero, suc, ◌+◌, ◌≤◌, ◌<◌, ◌≡◌, refl, ◌≢◌, Bool, true, false, arith, ◌==◌, Bool-cases, inl, inr,
  ap, ℕ_discrete, ==_refl, ==_iff,
}
use mmzzos.MinHeap.{store, swap}

abbrev pub one : Bool → ℕ
one true = 1
one false = 0

-- The two cells that a swap exchanges, and all others.
module _ {ℓ} {A : Type ℓ} (buf : ℕ → A) (i j : ℕ) where
  pub swap-second : swap buf i j j ≡ buf i
  unfolding swap store
  swap-second = rw (==_refl j)

  pub swap-first : swap buf i j i ≡ buf j
  unfolding swap store
  swap-first = elim (Bool-cases (i == j)) [
    | inl e ↦ rw e (ap buf ((==_iff i j).0 e))
    | inr e ↦ rw (e, ==_refl i)
  ]

  pub swap-other : (a : ℕ) → a ≢ i → a ≢ j → swap buf i j a ≡ buf a
  unfolding swap store
  swap-other a ne ne' =
      let e : (a == i) ≡ false = ground arith in
      let e' : (a == j) ≡ false = ground arith in rw (e', e)

pub store-same {ℓ} : {A : Type ℓ} (buf : ℕ → A) (i : ℕ) (v : A) → store buf i v i ≡ v
unfolding store
store-same buf i v = rw (==_refl i)

pub store-other {ℓ} :
    {A : Type ℓ} (buf : ℕ → A) (i : ℕ) (v : A) (j : ℕ) → j ≢ i → store buf i v j ≡ buf j
unfolding store
store-other buf i v j ne = let e : (j == i) ≡ false = ground arith in rw e

-- A cell that takes the value of `j` leaves `j` as it is.
store_again {ℓ} : {A : Type ℓ} (buf : ℕ → A) (i j : ℕ) → store buf i (buf j) j ≡ buf j
unfolding store
store_again buf i j = elim (Bool-cases (j == i)) [ inl e ↦ rw e | inr e ↦ rw e ]

module _ {ℓ} {A : Type ℓ} (test : A → Bool) where
  -- How many of the cells 1 to `n` pass the test.
  unfoldable pub count : ℕ → (ℕ → A) → ℕ
  count zero buf = 0
  count (suc n) buf = one (test (buf (suc n))) + count n buf

  count-beyond :
      (n : ℕ) (buf : ℕ → A) (i : ℕ) (v : A) → n < i → count n (store buf i v) ≡ count n buf
  unfolding count store
  count-beyond zero buf i v h = refl
  count-beyond (suc n) buf i v h = ground (arith, count-beyond n buf i v (omega arith))

  pub count-store :
      (n : ℕ) (buf : ℕ → A) (i : ℕ) (v : A)
      → 0 < i
      → i ≤ n
      → count n (store buf i v) + one (test (buf i)) ≡ count n buf + one (test v)
  unfolding count store
  count-store zero buf i v h h' = absurd (omega arith)
  count-store (suc n) buf i v h h' = elim (ℕ_discrete i (suc n)) [
    | yes e ↦
        let here : (suc n == i) ≡ true = ground arith in
        rw here
          (omega (arith, count-beyond n buf i v (omega arith), ap (λ k. one (test (buf k))) e))
    | no ne ↦
        let away : (suc n == i) ≡ false = ground arith in
        rw away (omega (arith, count-store n buf i v h (omega arith)))
  ]

  -- One more cell.
  pub count-push :
      (n : ℕ) (buf : ℕ → A) (v : A)
      → count (n + 1) (store buf (n + 1) v) ≡ one (test v) + count n buf
  unfolding count
  count-push n buf v =
      let e : n + 1 ≡ suc n = omega arith in
      rw (e, store-same buf (suc n) v, count-beyond n buf (suc n) v (omega arith))

  pub count-swap :
      (n : ℕ) (buf : ℕ → A) (i j : ℕ)
      → 0 < i
      → i ≤ n
      → 0 < j
      → j ≤ n
      → count n (swap buf i j) ≡ count n buf
  unfolding swap
  count-swap n buf i j h h' k k' = omega (
    arith,
    count-store n buf i (buf j) h h',
    count-store n (store buf i (buf j)) j (buf i) k k',
    ap (λ a. one (test a)) (store_again buf i j),
  )
