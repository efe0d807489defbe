-- ===== src/MinHeap/Order.antt =====
-- `MinHeapPop` as a whole: what it returns and what it leaves.
use mmzzos.Base.{
  ℕ, zero, suc, ◌+◌, ◌-◌, ◌≤◌, ◌<◌, ◌≡◌, sym, subst, ◌≢◌, Bool, true, false, some, arith, ◌==◌, not,
  ok, panic, ℕ_discrete,
}
use mmzzos.MinHeap.{MinHeap, store, father, pop}
use mmzzos.MinHeap.Count.{count, one, count-store, store-other, store-same}
use mmzzos.MinHeap.Insert.{IsOrder, IsHeap}
use mmzzos.MinHeap.Pop.{Falling, irreflexive, sift_down_lem}

module _ {ℓ} {A : Type ℓ} (cmp : A → A → Bool) (ord : IsOrder cmp) where
  -- `k` bounds the recursion.
  root-least :
      (k n i : ℕ) (buf : ℕ → A)
      → IsHeap cmp n buf
      → i ≤ k
      → 1 ≤ i
      → i ≤ n
      → cmp (buf i) (buf 1) ≡ false
  root-least zero n i buf is h pos h' = absurd (omega arith)
  root-least (suc k) n i buf is h pos h' = elim (ℕ_discrete i 1) [
    | yes e ↦ rw e (irreflexive cmp ord (buf 1))
    | no ne ↦
        ord.not_trans (buf 1) (buf (father i)) (buf i)
          (root-least k n (father i) buf is (omega arith) (omega arith) (omega arith))
          (is i (omega arith) h')
  ]

  count-drop :
      (test : A → Bool) (buf : ℕ → A) (size : ℕ)
      → count test size (store buf 1 (buf (suc size))) + one (test (buf 1))
        ≡ count test (suc size) buf
  unfolding count
  count-drop test buf zero = omega arith
  count-drop test buf (suc size) =
      omega (
        arith,
        count-store test (suc size) buf 1 (buf (suc (suc size))) (omega arith) (omega arith),
      )

  -- With a comparison that is an order, `MinHeapPop` stops the machine on an empty heap. On a heap whose last node is larger than all
  -- others it ends within as many rounds as there are nodes, returns a node that no other is smaller
  -- than, and leaves a heap of the other nodes.
  pub pop_lem :
      (fuel : ℕ) (heap : MinHeap A)
      → heap.cur_cnt ≤ fuel
      → IsHeap cmp heap.cur_cnt heap.buf
      → ((i : ℕ) → 1 ≤ i → i < heap.cur_cnt → cmp (heap.buf i) (heap.buf heap.cur_cnt) ≡ true)
      → (heap.cur_cnt ≡ 0 → pop cmp fuel heap ≡ panic)
        × (0 < heap.cur_cnt
            → (new : MinHeap A) × (pop cmp fuel heap ≡ ok (some (heap.buf 1, new)))
              × (new.cur_cnt + 1 ≡ heap.cur_cnt)
              × IsHeap cmp new.cur_cnt new.buf
              × ((i : ℕ) → 1 ≤ i → i ≤ heap.cur_cnt → cmp (heap.buf i) (heap.buf 1) ≡ false)
              × ((test : A → Bool)
                  → count test new.cur_cnt new.buf + one (test (heap.buf 1))
                    ≡ count test heap.cur_cnt heap.buf))
  unfolding pop
  pop_lem fuel heap enough is large = (
    λ e. let gone : not (heap.cur_cnt == 0) ≡ false = ground arith in rw gone,
    λ pos.
        let there : not (heap.cur_cnt == 0) ≡ true = ground arith in
        let (new, done, (sorted, same)) =
          sift_down_lem cmp ord fuel size 1 x buf (omega arith) (omega arith) (omega arith)
            (start pos) in
        (
          record heap { cur_cnt = size; buf = new },
          rw (there, done),
          omega arith,
          sorted,
          λ i h h'. root-least heap.cur_cnt heap.cur_cnt i heap.buf is h' h h',
          λ test. rw (same test) (dropped pos test),
        ),
  )
    where
      size : ℕ
      size = heap.cur_cnt - 1

      x : A
      x = heap.buf heap.cur_cnt

      buf : ℕ → A
      buf = store heap.buf 1 x

      old : (i : ℕ) → i ≢ 1 → buf i ≡ heap.buf i
      old i ne = store-other heap.buf 1 x i ne

      start : 0 < heap.cur_cnt → Falling cmp size 1 x buf
      start pos = record {
        here = store-same heap.buf 1 x;
        large = λ i h h' ne. rw (old i ne) (large i h (omega arith));
        order = λ i h h' ne. rw (old i (omega arith), old (father i) ne) (is i h (omega arith));
        skip = λ i h h' e. absurd (omega arith);
      }

      dropped :
          0 < heap.cur_cnt
          → (test : A → Bool)
          → count test size buf + one (test (heap.buf 1)) ≡ count test heap.cur_cnt heap.buf
      dropped pos test =
          let e : heap.cur_cnt ≡ suc size = omega arith in
          subst
            (λ n.
              count test size (store heap.buf 1 (heap.buf n)) + one (test (heap.buf 1))
              ≡ count test n heap.buf)
            (sym e) (count-drop test heap.buf size)
