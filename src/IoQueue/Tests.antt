-- ===== src/IoQueue/Tests.antt =====
-- The ring and the pipe at concrete inputs, and the theorems applied there.
use mmzzos.Base.{◌≡◌, refl, some, none, [], ◌∷◌, ◌++◌, arith}
use mmzzos.IoQueue.{IoQueue, next_pos, is_full, queue_len, put_round}
use mmzzos.IoQueue.Ring.{IsValid, contents, cells}
use mmzzos.IoQueue.Pipe.{pipe_write, Over, asleep, pipe_write_lem}

-- two bytes, 8 and 9, round the end of four cells; thread 5 waits to read
abbrev ring : IoQueue
ring = record {
  holder = none;
  len = 4;
  buff = 9 ∷ 0 ∷ 0 ∷ 8 ∷ [];
  head = 1;
  tail = 3;
  producer = none;
  consumer = some 5;
}

ring-IsValid : IsValid ring
ring-IsValid = omega arith

contents-ring : contents ring ≡ 8 ∷ 9 ∷ []
unfolding cells queue_len
contents-ring = refl

write_two :
    pipe_write 1 ring (6 ∷ 7 ∷ [])
    ≡ asleep 1 (record {
      holder = some 1;
      len = 4;
      buff = 9 ∷ 6 ∷ 0 ∷ 8 ∷ [];
      head = 2;
      tail = 3;
      producer = some 1;
      consumer = none;
    })
unfolding pipe_write queue_len put_round is_full next_pos
write_two = refl

pipe_write_lem_example :
    Over
      (λ written q. (written ≡ 1) × IsValid q × (contents q ≡ contents ring ++ (6 ∷ [])))
      (pipe_write 1 ring (6 ∷ []))
unfolding cells queue_len
pipe_write_lem_example = pipe_write_lem 1 ring ring-IsValid (6 ∷ []) (omega arith)
