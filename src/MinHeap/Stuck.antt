-- ===== src/MinHeap/Stuck.antt =====
-- The loop of `MinHeapPop` has no exit at a node that already stands right: where the sift reaches
-- one that has sons, it exchanges the node with itself for ever.
use mathlib.Core.Path.{fun_ext}
use mmzzos.Base.{
  ℕ, zero, suc, ◌-◌, ◌≤◌, ◌≡◌, refl, Bool, true, false, none, arith, ◌==◌, leb, ◌&&◌, ◌||◌, not, ok,
  ℕ_discrete, dec_le,
}
use mmzzos.MinHeap.{MinHeap, store, swap, left_son, right_son, target, sift_down, pop}
use mmzzos.MinHeap.Count.{swap-second, swap-other, store-same, store-other}

swap_self {ℓ} : {A : Type ℓ} (buf : ℕ → A) (i : ℕ) → swap buf i i ≡ buf
swap_self buf i = fun_ext λ a. elim (ℕ_discrete a i) [
  | yes e ↦ rw e (swap-second buf i i)
  | no ne ↦ swap-other buf i i a ne ne
]

&&-false : (b : Bool) → (b && false) ≡ false
&&-false true = refl
&&-false false = refl

module _ {ℓ} {A : Type ℓ} (cmp : A → A → Bool) where
  sift_down-stuck :
      (fuel size idx : ℕ) (buf : ℕ → A)
      → target cmp size idx buf ≡ idx
      → left_son idx ≤ size
      → sift_down cmp fuel size idx buf ≡ none
  unfolding sift_down
  sift_down-stuck zero size idx buf t h = refl
  sift_down-stuck (suc fuel) size idx buf t h =
      let go : (leb (left_son idx) size || leb (right_son idx) size) ≡ true = ground arith in
      rw (go, t, swap_self buf idx) (sift_down-stuck fuel size idx buf t h)

  -- `MinHeapPop` never ends on three or more nodes whose last is larger than neither son of the root,
  -- as on three equal nodes.
  pub pop-stuck :
      (heap : MinHeap A)
      → 3 ≤ heap.cur_cnt
      → cmp (heap.buf 2) (heap.buf heap.cur_cnt) ≡ false
      → (4 ≤ heap.cur_cnt → cmp (heap.buf 3) (heap.buf heap.cur_cnt) ≡ false)
      → (fuel : ℕ) → pop cmp fuel heap ≡ ok none
  unfolding pop target
  pop-stuck heap three left right fuel =
      let there : not (heap.cur_cnt == 0) ≡ true = ground arith in
      rw (there, sift_down-stuck fuel size 1 buf stays (omega arith))
    where
      size : ℕ
      size = heap.cur_cnt - 1

      buf : ℕ → A
      buf = store heap.buf 1 (heap.buf heap.cur_cnt)

      root : buf 1 ≡ heap.buf heap.cur_cnt
      root = store-same heap.buf 1 _

      two : buf 2 ≡ heap.buf 2
      two = store-other heap.buf 1 _ 2 (omega arith)

      three' : buf 3 ≡ heap.buf 3
      three' = store-other heap.buf 1 _ 3 (omega arith)

      no_left : (leb 2 size && cmp (buf 2) (buf 1)) ≡ false
      no_left = rw (two, root, left) (&&-false (leb 2 size))

      no_right : (leb 3 size && cmp (buf 3) (buf 1)) ≡ false
      no_right = elim (dec_le 4 heap.cur_cnt) [
        | yes four ↦ rw (three', root, right four) (&&-false (leb 3 size))
        | no few ↦ let out : leb 3 size ≡ false = ground arith in rw out
      ]

      stays : target cmp size 1 buf ≡ 1
      stays = rw (no_left, no_right)
