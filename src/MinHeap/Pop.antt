-- ===== src/MinHeap/Pop.antt =====
-- `MinHeapPop` where its sift goes down to a leaf.
use mmzzos.Base.{
  ℕ, zero, suc, ◌+◌, ◌≤◌, ◌<◌, ◌≡◌, refl, ◌∙◌, ◌≢◌, ◌⊎◌, Bool, true, false, some, arith, leb, ◌&&◌,
  ◌||◌, Bool-cases, inl, inr, ℕ_discrete, dec_le,
}
use mmzzos.MinHeap.{swap, father, left_son, right_son, target, sift_down}
use mmzzos.MinHeap.Count.{count-swap, swap-first, swap-second, swap-other}
use mmzzos.MinHeap.Insert.{IsOrder, Sorts}

-- The node `x` at `idx` is larger than all others; the others are in order, and the sons of `idx`
-- fit its father.
pub record Falling {ℓ} {A : Type ℓ} (cmp : A → A → Bool) (n idx : ℕ) (x : A) (buf : ℕ → A)
    : Type ℓ where
  pub here : buf idx ≡ x
  pub large : (i : ℕ) → 1 ≤ i → i ≤ n → i ≢ idx → cmp (buf i) x ≡ true
  pub order : (i : ℕ) → 2 ≤ i → i ≤ n → father i ≢ idx → cmp (buf i) (buf (father i)) ≡ false
  pub skip : (i : ℕ) → 2 ≤ idx → i ≤ n → father i ≡ idx → cmp (buf i) (buf (father idx)) ≡ false

-- `t` is the smaller son.
record SmallerSon {ℓ} {A : Type ℓ} (cmp : A → A → Bool) (n idx t : ℕ) (buf : ℕ → A) : Type ℓ where
  son : father t ≡ idx
  inside : t ≤ n
  least : (i : ℕ) → i ≤ n → father i ≡ idx → cmp (buf i) (buf t) ≡ false

module _ {ℓ} {A : Type ℓ} (cmp : A → A → Bool) (ord : IsOrder cmp) where
  pub irreflexive : (a : A) → cmp a a ≡ false
  irreflexive a = elim (Bool-cases (cmp a a)) [ inl t ↦ ord.asym a a t | inr f ↦ f ]

  target-SmallerSon :
      (n idx : ℕ) (x : A) (buf : ℕ → A)
      → 1 ≤ idx
      → left_son idx ≤ n
      → Falling cmp n idx x buf
      → SmallerSon cmp n idx (target cmp n idx buf) buf
  unfolding target
  target-SmallerSon n idx x buf pos h f =
      let first : cmp (buf (left_son idx)) (buf idx) ≡ true =
        rw f.here (f.large (left_son idx) (omega arith) h (omega arith)) in
      let t : leb (left_son idx) n ≡ true = ground arith in
      elim (Bool-cases (leb (right_son idx) n && cmp (buf (right_son idx)) (buf (left_son idx)))) [
        | inl r ↦ rw (t, first, r) (right r)
        | inr l ↦ rw (t, first, l) (left l)
      ]
    where
      sons : (i : ℕ) → father i ≡ idx → (i ≡ left_son idx) ⊎ (i ≡ right_son idx)
      sons i e = elim (ℕ_discrete i (left_son idx)) [ yes l ↦ inl l | no ne ↦ inr (omega arith) ]

      right :
          (leb (right_son idx) n && cmp (buf (right_son idx)) (buf (left_son idx))) ≡ true
          → SmallerSon cmp n idx (right_son idx) buf
      right r =
          let less : cmp (buf (right_son idx)) (buf (left_son idx)) ≡ true = ground arith in
          record {
            son = omega arith;
            inside = ground arith;
            least = λ i hi e. elim (sons i e) [
              | inl l ↦ rw l (ord.asym _ _ less)
              | inr r ↦ rw r (irreflexive _)
            ];
          }

      left :
          (leb (right_son idx) n && cmp (buf (right_son idx)) (buf (left_son idx))) ≡ false
          → SmallerSon cmp n idx (left_son idx) buf
      left l = record {
        son = omega arith;
        inside = h;
        least = λ i hi e. elim (sons i e) [
          | inl l' ↦ rw l' (irreflexive _)
          | inr r ↦ let hr : leb (right_son idx) n ≡ true = ground arith in rw r (ground arith)
        ];
      }

  Falling-swap :
      (n idx t : ℕ) (x : A) (buf : ℕ → A)
      → 1 ≤ idx
      → idx ≤ n
      → Falling cmp n idx x buf
      → SmallerSon cmp n idx t buf
      → Falling cmp n t x (swap buf idx t)
  Falling-swap n idx t x buf pos h f s = record {
    here = swap-second buf idx t ∙ f.here;
    large = large;
    order = order;
    skip = skip;
  }
    where
      new : ℕ → A
      new = swap buf idx t

      below : idx < t
      below = omega (arith, s.son)

      other : (a : ℕ) → a ≢ idx → a ≢ t → new a ≡ buf a
      other = swap-other buf idx t

      at_idx : new idx ≡ buf t
      at_idx = swap-first buf idx t

      at_t : new t ≡ x
      at_t = swap-second buf idx t ∙ f.here

      large_t : cmp (buf t) x ≡ true
      large_t = f.large t (omega arith) s.inside (omega arith)

      large : (i : ℕ) → 1 ≤ i → i ≤ n → i ≢ t → cmp (new i) x ≡ true
      large i h h' ne = elim (ℕ_discrete i idx) [
        | yes e ↦ rw (e, at_idx) large_t
        | no ne' ↦ rw (other i ne' ne) (f.large i h h' ne')
      ]

      order : (i : ℕ) → 2 ≤ i → i ≤ n → father i ≢ t → cmp (new i) (new (father i)) ≡ false
      order i h h' ne = elim (ℕ_discrete i t) [
        | yes e ↦ rw (e, s.son, at_t, at_idx) (ord.asym _ _ large_t)
        | no it ↦ elim (ℕ_discrete i idx) [
          | yes e ↦
              rw (e, at_idx, other (father idx) (omega arith) (omega arith))
                (f.skip t (omega arith) s.inside s.son)
          | no ii ↦ elim (ℕ_discrete (father i) idx) [
            | yes e ↦ rw (e, other i ii it, at_idx) (s.least i h' e)
            | no fi ↦ rw (other i ii it, other (father i) fi ne) (f.order i h h' fi)
          ]
        ]
      ]

      skip : (i : ℕ) → 2 ≤ t → i ≤ n → father i ≡ t → cmp (new i) (new (father t)) ≡ false
      skip i h h' e =
          rw (s.son, at_idx, other i (omega arith) (omega arith))
            (rw e at (f.order i (omega arith) h' (omega arith)))

  pub sift_down_lem :
      (fuel n idx : ℕ) (x : A) (buf : ℕ → A)
      → 1 ≤ idx
      → idx ≤ n + 1
      → n + 1 < idx + fuel
      → Falling cmp n idx x buf
      → (new : ℕ → A) × (sift_down cmp fuel n idx buf ≡ some new) × Sorts cmp ord n buf new
  unfolding sift_down
  sift_down_lem zero n idx x buf pos h enough f = absurd (omega arith)
  sift_down_lem (suc fuel) n idx x buf pos h enough f = elim (dec_le (left_son idx) n) [
    | yes more ↦
        let go : (leb (left_son idx) n || leb (right_son idx) n) ≡ true = ground arith in
        let t = target cmp n idx buf in
        let s = target-SmallerSon n idx x buf pos more f in
        let (new, e, (heap, same)) =
          sift_down_lem fuel n t x (swap buf idx t) (omega (arith, s.son)) (omega (arith, s.inside))
            (omega (arith, s.son)) (Falling-swap n idx t x buf pos (omega arith) f s) in
        (
          new,
          rw go e,
          (
            heap,
            λ test.
                same test
                ∙ count-swap test n buf idx t pos (omega arith) (omega (arith, s.son)) s.inside,
          ),
        )
    | no leaf ↦
        let stop : (leb (left_son idx) n || leb (right_son idx) n) ≡ false = ground arith in
        (buf, rw stop, (λ i h h'. f.order i h h' (omega arith), λ test. refl))
  ]
