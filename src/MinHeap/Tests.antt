-- ===== src/MinHeap/Tests.antt =====
-- Heaps of numbers under `<`, and the theorems applied to them.
use mmzzos.Base.{
  ℕ, ◌+◌, ◌≤◌, ◌<◌, ◌≡◌, refl, Bool, false, none, some, arith, ◌==◌, ltb, if◌then◌else◌, ok, panic,
}
use mmzzos.MinHeap.{MinHeap, insert, pop}
use mmzzos.MinHeap.Count.{count, one}
use mmzzos.MinHeap.Insert.{IsOrder, IsHeap, insert_lem}
use mmzzos.MinHeap.Order.{pop_lem}
use mmzzos.MinHeap.Stuck.{pop-stuck}

ltb-IsOrder : IsOrder ltb
ltb-IsOrder = record { asym = λ a b h. ground arith; not_trans = λ a b c h h'. ground arith }

-- 2 over 5 and 9
abbrev three : MinHeap ℕ
three = record {
  max_cnt = 4;
  cur_cnt = 3;
  buf = λ i. if i == 1 then 2 else if i == 2 then 5 else 9;
}

three-IsHeap : IsHeap ltb 3 three.buf
three-IsHeap = λ i h h'. ground arith

abbrev equal : MinHeap ℕ
equal = record { max_cnt = 4; cur_cnt = 3; buf = λ i. 7 }

insert_lem_example :
    (4 ≤ 3 → insert ltb 4 three 1 ≡ panic)
    × (3 < 4
        → (new : MinHeap ℕ) × (insert ltb 4 three 1 ≡ ok (some new))
          × (new.cur_cnt ≡ 4)
          × (new.max_cnt ≡ 4)
          × IsHeap ltb new.cur_cnt new.buf
          × ((test : ℕ → Bool)
              → count test new.cur_cnt new.buf ≡ one (test 1) + count test 3 three.buf))
insert_lem_example = insert_lem ltb ltb-IsOrder 4 three 1 (omega arith) three-IsHeap

pop_lem_example :
    (three.cur_cnt ≡ 0 → pop ltb 3 three ≡ panic)
    × (0 < 3
        → (new : MinHeap ℕ) × (pop ltb 3 three ≡ ok (some (2, new)))
          × (new.cur_cnt + 1 ≡ 3)
          × IsHeap ltb new.cur_cnt new.buf
          × ((i : ℕ) → 1 ≤ i → i ≤ 3 → ltb (three.buf i) 2 ≡ false)
          × ((test : ℕ → Bool)
              → count test new.cur_cnt new.buf + one (test 2) ≡ count test 3 three.buf))
pop_lem_example =
    pop_lem ltb ltb-IsOrder 3 three (omega arith) three-IsHeap (λ i h h'. ground arith)

pop-stuck_example : pop ltb 9 equal ≡ ok none
pop-stuck_example = pop-stuck ltb equal (omega arith) refl (λ h. refl) 9
