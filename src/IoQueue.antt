-- ===== src/IoQueue.antt =====
-- lib/kernel/ioqueue.c: a ring of bytes between a producer and a consumer, one cell always unused.
-- `ioQueuePut` and `ioQueueGet` sleep inside their loops. A call is therefore cut at its sleeps: a
-- round runs from the loop test up to the next sleep or to the end of the call, with interrupts off,
-- so no other thread runs in between.
pub mod Ring
pub mod Rounds
pub mod Pipe
mod Tests
use mmzzos.Base.{
  ℕ, ◌+◌, ◌-◌, ◌%◌, ◌<◌, ◌≡◌, Bool, true, false, Option, none, some, List, ◌==◌, leb, if◌then◌else◌,
  length, get_or, set,
}

-- A thread is named by its control block.
abbrev pub Thread : Type 0
Thread = ℕ

-- `holder` is that of `lock`; `head` and `tail` are indices, so the signed type adds nothing.
pub record IoQueue : Type 0 where
  pub holder : Option Thread
  pub len : ℕ
  pub buff : List ℕ
  pub head : ℕ
  pub tail : ℕ
  pub producer : Option Thread
  pub consumer : Option Thread

-- `IOQUEUE_NEXTPOS`
unfoldable pub next_pos : IoQueue → ℕ → ℕ
next_pos q x = (x + 1) % q.len

-- `ioQueueInit` leaves `len` and `buff` to its caller.
unfoldable pub init : IoQueue → IoQueue
init q = record q { holder = none; head = 0; tail = 0; producer = none; consumer = none }

unfoldable pub is_full : IoQueue → Bool
is_full q = next_pos q q.head == q.tail

unfoldable pub is_empty : IoQueue → Bool
is_empty q = q.head == q.tail

unfoldable pub queue_len : IoQueue → ℕ
queue_len q = if leb q.tail q.head then q.head - q.tail else q.len + q.head - q.tail

-- How a round ends: the call is over, with its result and the thread that it wakes; the thread
-- sleeps in `ThreadBlock`, with the lock; or it waits for the lock in `MutexAcquire`.
pub data Round (A : Type 0) : Type 0 where
  done : A → Option Thread → IoQueue → Round A
  sleeps : IoQueue → Round A
  waits : IoQueue → Round A

-- What the loop body does up to its sleep; `note` records the thread.
abbrev pub sleep_round : {A : Type 0} → (IoQueue → IoQueue) → Thread → IoQueue → Round A
sleep_round note me q = elim q.holder [
  | none ↦ sleeps (note (record q { holder = some me }))
  | some other ↦ waits q
]

unfoldable pub put_round : Thread → IoQueue → ℕ → Round (Unit {0})
put_round me q byte =
    if is_full q
    then sleep_round (λ s. record s { producer = some me }) me q
    else done tt q.consumer
        (record q { buff = set q.buff q.head byte; head = next_pos q q.head; consumer = none })

-- A read inside the storage; `Ring.IsValid` says why it is inside.
unfoldable pub get_round : Thread → IoQueue → Round ℕ
get_round me q =
    if is_empty q
    then sleep_round (λ s. record s { consumer = some me }) me q
    else done (get_or q.buff q.tail 0) q.producer
        (record q { tail = next_pos q q.tail; producer = none })

-- A thread that has slept gives the lock back before it tests again.
unfoldable pub put_again : Thread → IoQueue → ℕ → Round (Unit {0})
put_again me q byte = put_round me (record q { holder = none }) byte

unfoldable pub get_again : Thread → IoQueue → Round ℕ
get_again me q = get_round me (record q { holder = none })
