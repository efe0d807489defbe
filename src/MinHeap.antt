-- ===== src/MinHeap.antt =====
-- lib/kernel/minHeap.c: a binary heap in cells 1 to `curCnt` of an array, with a comparison that the
-- caller gives. `MinHeapInit` reserves `maxCnt + 1` cells; the array is a function of the index.
-- Both operations run with interrupts off and put the flag back, so no other thread sees a middle
-- state. A loop runs on fuel, and `none` means that it has not ended yet.
pub mod Count
pub mod Insert
pub mod Pop
pub mod Order
pub mod Stuck
mod Tests
use mmzzos.Base.{
  ℕ, zero, suc, ◌+◌, ◌-◌, ◌*◌, ◌/◌, Bool, true, false, ◌&&◌, ◌||◌, Option, none, some, ◌==◌, ltb,
  leb, if◌then◌else◌, Result, ok, panic, ◌>>=◌, ◌>>◌, assert, not,
}

pub record MinHeap {ℓ} (A : Type ℓ) : Type ℓ where
  pub max_cnt : ℕ
  pub cur_cnt : ℕ
  pub buf : ℕ → A

module _ {ℓ} {A : Type ℓ} where
  unfoldable pub store : (ℕ → A) → ℕ → A → ℕ → A
  store buf i v j = if j == i then v else buf j

  -- `node_t=buf[i]; buf[i]=buf[j]; buf[j]=node_t;`
  unfoldable pub swap : (ℕ → A) → ℕ → ℕ → ℕ → A
  unfolding store
  swap buf i j = store (store buf i (buf j)) j (buf i)

  -- `heap->buf` is what the allocation returned.
  unfoldable pub init : (ℕ → A) → ℕ → MinHeap A
  init buf max = record { max_cnt = max; cur_cnt = 0; buf = buf }

-- `MinHeapFa`, `MinHeapLeft`, `MinHeapRight`
abbrev pub father : ℕ → ℕ
father idx = idx / 2

abbrev pub left_son : ℕ → ℕ
left_son idx = 2 * idx

abbrev pub right_son : ℕ → ℕ
right_son idx = 2 * idx + 1

module _ {ℓ} {A : Type ℓ} (cmp : A → A → Bool) where
  -- The loop of `MinHeapInsert`.
  unfoldable pub sift_up : ℕ → ℕ → (ℕ → A) → Option (ℕ → A)
  sift_up zero idx buf = none
  sift_up (suc fuel) idx buf =
      let up = sift_up fuel (father idx) (swap buf idx (father idx)) in
      if not (father idx == 0) && cmp (buf idx) (buf (father idx)) then up else some buf

  abbrev pub with_buf : MinHeap A → ℕ → Option (ℕ → A) → Option (MinHeap A)
  with_buf heap cnt none = none
  with_buf heap cnt (some buf) = some (record heap { cur_cnt = cnt; buf = buf })

  unfoldable pub insert : ℕ → MinHeap A → A → Result (Option (MinHeap A))
  insert fuel heap value = do
    assert (ltb heap.cur_cnt heap.max_cnt)
    let idx = heap.cur_cnt + 1
    ok (with_buf heap idx (sift_up fuel idx (store heap.buf idx value)))

  -- The place that the loop of `MinHeapPop` goes on to.
  unfoldable pub target : ℕ → ℕ → (ℕ → A) → ℕ
  target size idx buf =
      let t =
        if leb (left_son idx) size && cmp (buf (left_son idx)) (buf idx)
        then left_son idx
        else idx in
      if leb (right_son idx) size && cmp (buf (right_son idx)) (buf t) then right_son idx else t

  -- The loop of `MinHeapPop`.
  unfoldable pub sift_down : ℕ → ℕ → ℕ → (ℕ → A) → Option (ℕ → A)
  sift_down zero size idx buf = none
  sift_down (suc fuel) size idx buf =
      let t = target size idx buf in
      let down = sift_down fuel size t (swap buf idx t) in
      if leb (left_son idx) size || leb (right_son idx) size then down else some buf

  abbrev pub with_result : A → Option (MinHeap A) → Option (A × MinHeap A)
  with_result a none = none
  with_result a (some heap) = some (a, heap)

  unfoldable pub pop : ℕ → MinHeap A → Result (Option (A × MinHeap A))
  pop fuel heap = do
    assert (not (heap.cur_cnt == 0))
    let size = heap.cur_cnt - 1
    let buf = store heap.buf 1 (heap.buf heap.cur_cnt)
    ok (with_result (heap.buf 1) (with_buf heap size (sift_down fuel size 1 buf)))
