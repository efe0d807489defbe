-- ===== src/MinHeap/Insert.antt =====
-- `MinHeapInsert` ends and keeps the order of the heap.
use mmzzos.Base.{
  ℕ, zero, suc, ◌+◌, ◌≤◌, ◌<◌, ◌≡◌, refl, ◌∙◌, ◌≢◌, Bool, true, false, some, arith, ◌==◌, ltb, not,
  ◌&&◌, Bool-cases, inl, inr, ok, panic, ℕ_discrete,
}
use mmzzos.MinHeap.{MinHeap, store, swap, father, sift_up, insert}
use mmzzos.MinHeap.Count.{
  count, one, count-swap, swap-first, swap-second, swap-other, store-other, count-push,
}

-- What the routines rely on in `heap->cmp`: it is a strict order, and what is not smaller is so
-- transitively.
pub record IsOrder {ℓ} {A : Type ℓ} (cmp : A → A → Bool) : Type ℓ where
  pub asym : (a b : A) → cmp a b ≡ true → cmp b a ≡ false
  pub not_trans : (a b c : A) → cmp b a ≡ false → cmp c b ≡ false → cmp c a ≡ false

module _ {ℓ} {A : Type ℓ} (cmp : A → A → Bool) where
  -- No node is smaller than its father.
  abbrev pub IsHeap : ℕ → (ℕ → A) → Type 0
  IsHeap n buf = (i : ℕ) → 2 ≤ i → i ≤ n → cmp (buf i) (buf (father i)) ≡ false

  -- The same but at `idx`, whose sons fit its father.
  record Rising (n idx : ℕ) (buf : ℕ → A) : Type 0 where
    order : (i : ℕ) → 2 ≤ i → i ≤ n → i ≢ idx → cmp (buf i) (buf (father i)) ≡ false
    skip : (i : ℕ) → 2 ≤ idx → i ≤ n → father i ≡ idx → cmp (buf i) (buf (father idx)) ≡ false

module _ {ℓ} {A : Type ℓ} (cmp : A → A → Bool) (ord : IsOrder cmp) where
  Rising-swap :
      (n idx : ℕ) (buf : ℕ → A)
      → 2 ≤ idx
      → idx ≤ n
      → cmp (buf idx) (buf (father idx)) ≡ true
      → Rising cmp n idx buf
      → Rising cmp n (father idx) (swap buf idx (father idx))
  Rising-swap n idx buf h h' less r = record { order = order; skip = skip }
    where
      fa : ℕ
      fa = father idx

      new : ℕ → A
      new = swap buf idx fa

      fa-le : cmp (buf fa) (buf idx) ≡ false
      fa-le = ord.asym (buf idx) (buf fa) less

      other : (a : ℕ) → a ≢ idx → a ≢ fa → new a ≡ buf a
      other = swap-other buf idx fa

      order : (i : ℕ) → 2 ≤ i → i ≤ n → i ≢ fa → cmp (new i) (new (father i)) ≡ false
      order i hi hi' ne = elim (ℕ_discrete i idx) [
        | yes e ↦ rw (e, swap-first buf idx fa, swap-second buf idx fa) fa-le
        | no ne' ↦ elim (ℕ_discrete (father i) idx) [
          | yes e ↦ rw (e, other i ne' ne, swap-first buf idx fa) (r.skip i h hi' e)
          | no ne'' ↦ elim (ℕ_discrete (father i) fa) [
            | yes e ↦
                rw (e, other i ne' ne, swap-second buf idx fa)
                  (ord.not_trans (buf idx) (buf fa) (buf i) fa-le (rw e at (r.order i hi hi' ne')))
            | no ne_root ↦ rw (other i ne' ne, other (father i) ne'' ne_root) (r.order i hi hi' ne')
          ]
        ]
      ]

      skip : (i : ℕ) → 2 ≤ fa → i ≤ n → father i ≡ fa → cmp (new i) (new (father fa)) ≡ false
      skip i hf hi e =
          let up : cmp (buf fa) (buf (father fa)) ≡ false =
            r.order fa hf (omega arith) (omega arith) in
          elim (ℕ_discrete i idx) [
            | yes same ↦
                rw (same, swap-first buf idx fa, other (father fa) (omega arith) (omega arith)) up
            | no ne ↦
                rw (other i ne (omega arith), other (father fa) (omega arith) (omega arith))
                  (ord.not_trans (buf (father fa)) (buf fa) (buf i) up
                    (rw e at (r.order i (omega arith) hi ne)))
          ]

  -- A rising node that is no smaller than its father, or has none, stands right.
  Rising-IsHeap :
      (n idx : ℕ) (buf : ℕ → A)
      → (2 ≤ idx → cmp (buf idx) (buf (father idx)) ≡ false)
      → Rising cmp n idx buf
      → IsHeap cmp n buf
  Rising-IsHeap n idx buf fits r i h h' = elim (ℕ_discrete i idx) [
    | yes e ↦ rw e (fits (omega arith))
    | no ne ↦ r.order i h h' ne
  ]

  -- `new` is a heap of the same nodes as `buf`.
  abbrev pub Sorts : ℕ → (ℕ → A) → (ℕ → A) → Type ℓ
  Sorts n buf new = IsHeap cmp n new × ((test : A → Bool) → count test n new ≡ count test n buf)

  -- The loop ends within `idx` rounds, with a heap of the same nodes.
  sift_up_lem :
      (fuel n idx : ℕ) (buf : ℕ → A)
      → 1 ≤ idx
      → idx ≤ n
      → idx ≤ fuel
      → Rising cmp n idx buf
      → (new : ℕ → A) × (sift_up cmp fuel idx buf ≡ some new) × Sorts n buf new
  unfolding sift_up
  sift_up_lem zero n idx buf h h' f r = absurd (omega arith)
  sift_up_lem (suc fuel) n idx buf h h' f r =
      elim (Bool-cases (not (father idx == 0) && cmp (buf idx) (buf (father idx)))) [
        | inl t ↦
            let big : 2 ≤ idx = ground arith in
            let less : cmp (buf idx) (buf (father idx)) ≡ true = ground arith in
            let (new, e, (heap, same)) =
              sift_up_lem fuel n (father idx) (swap buf idx (father idx)) (omega arith)
                (omega arith) (omega arith) (Rising-swap n idx buf big h' less r) in
            (
              new,
              rw t e,
              (
                heap,
                λ test.
                    same test
                    ∙ count-swap test n buf idx (father idx) h h' (omega arith) (omega arith),
              ),
            )
        | inr t ↦ (buf, rw t, (Rising-IsHeap n idx buf (λ big. ground arith) r, λ test. refl))
      ]

  -- With a comparison that is an order (`IsOrder`), `MinHeapInsert` on a heap that is not full ends within as many rounds as there are nodes, and
  -- leaves a heap of the old nodes and the new one; on a full heap it stops the machine.
  pub insert_lem :
      (fuel : ℕ) (heap : MinHeap A) (value : A)
      → heap.cur_cnt < fuel
      → IsHeap cmp heap.cur_cnt heap.buf
      → (heap.max_cnt ≤ heap.cur_cnt → insert cmp fuel heap value ≡ panic)
        × (heap.cur_cnt < heap.max_cnt
            → (new : MinHeap A) × (insert cmp fuel heap value ≡ ok (some new))
              × (new.cur_cnt ≡ heap.cur_cnt + 1)
              × (new.max_cnt ≡ heap.max_cnt)
              × IsHeap cmp new.cur_cnt new.buf
              × ((test : A → Bool)
                  → count test new.cur_cnt new.buf
                    ≡ one (test value) + count test heap.cur_cnt heap.buf))
  unfolding insert
  insert_lem fuel heap value f is = (
    λ full. let e : ltb heap.cur_cnt heap.max_cnt ≡ false = ground arith in rw e,
    λ room.
        let e : ltb heap.cur_cnt heap.max_cnt ≡ true = ground arith in
        let (new, done, (sorted, same)) =
          sift_up_lem fuel idx idx buf (omega arith) (omega arith) (omega arith) start in
        (
          record heap { cur_cnt = idx; buf = new },
          rw (e, done),
          refl,
          refl,
          sorted,
          λ test. same test ∙ count-push test heap.cur_cnt heap.buf value,
        ),
  )
    where
      idx : ℕ
      idx = heap.cur_cnt + 1

      buf : ℕ → A
      buf = store heap.buf idx value

      old : (i : ℕ) → i ≤ heap.cur_cnt → buf i ≡ heap.buf i
      old i h = store-other heap.buf idx value i (omega arith)

      start : Rising cmp idx idx buf
      start = record {
        order = λ i h h' ne.
            rw (old i (omega arith), old (father i) (omega arith)) (is i h (omega arith));
        skip = λ i h h' e. absurd (omega arith);
      }
