-- ===== src/Sync.antt =====
-- Semaphores and mutexes of kernel/thread.c. SemaphoreInc and each round of SemaphoreDec run with
-- interrupts off, so they are single steps; between the steps of one thread others may run.
-- `wait` is the sequence of threads that the list of waiting threads holds, as in `Dll.Laws`.
pub mod Steps
pub mod Safe
pub mod Kept
pub mod Wakes
pub mod Exclusion
mod Tests
use mmzzos.Base.{
  ℕ, ◌+◌, ◌-◌, ◌%◌, Bool, true, false, Option, none, some, List, [], ◌∷◌, ◌++◌, ◌==◌, ltb,
  if◌then◌else◌, Result, ok, ◌>>=◌, ◌>>◌, assert,
}
use mmzzos.Sched.{Thread}

pub record Semaphore : Type 0 where
  pub value : ℕ
  pub wait : List Thread

unfoldable pub semaphore_init : ℕ → Semaphore
semaphore_init value = record { value = value % 256; wait = [] }

-- The thread to unblock and the list without it.
unfoldable pub first_waiting : List Thread → Option Thread × List Thread
first_waiting [] = (none, [])
first_waiting (t ∷ ts) = (some t, ts)

-- `SemaphoreInc`, with the thread that it passes to `ThreadUnBlock`.
unfoldable pub semaphore_inc : Semaphore → Result (Option Thread × Semaphore)
semaphore_inc sem = do
  assert (ltb sem.value 255)
  let (woken, rest) = first_waiting sem.wait
  ok (woken, record { value = (sem.value + 1) % 256; wait = rest })

-- How a round of the loop of `SemaphoreDec` ends: the thread blocks and tries again once it is
-- unblocked, or the routine returns.
pub data Round : Type 0 where
  blocks : Semaphore → Round
  returns : Semaphore → Round

unfoldable pub semaphore_dec : Thread → Semaphore → Round
semaphore_dec cur sem =
    if sem.value == 0
    then blocks (record sem { wait = sem.wait ++ cur ∷ [] })
    else returns (record sem { value = sem.value - 1 })

pub record Mutex : Type 0 where
  pub holder : Option Thread
  pub sem : Semaphore

unfoldable pub mutex_init : Mutex
unfolding semaphore_init
mutex_init = record { holder = none; sem = semaphore_init 1 }

-- Where a thread stands in `MutexAcquire(m); ... MutexRelease(m);`.
pub data Phase : Type 0 where
  outside : Phase
  trying : Phase
  asleep : Phase
  entered : Phase
  holding : Phase
  leaving : Phase

pub record World : Type 0 where
  pub mutex : Mutex
  pub phase : Thread → Phase

unfoldable pub set_phase : (Thread → Phase) → Thread → Phase → Thread → Phase
set_phase f t p u = if u == t then p else f u

abbrev pub after_dec : Thread → World → Round → World
after_dec t w (blocks sem) = record {
  mutex = record w.mutex { sem = sem };
  phase = set_phase w.phase t asleep;
}
after_dec t w (returns sem) = record {
  mutex = record w.mutex { sem = sem };
  phase = set_phase w.phase t entered;
}

abbrev pub wake : Option Thread → (Thread → Phase) → Thread → Phase
wake none f = f
wake (some u) f = set_phase f u trying

-- `SemaphoreDec(&(mutex->sem))` in `MutexAcquire`, one round.
unfoldable pub try_acquire : Thread → World → World
try_acquire t w = after_dec t w (semaphore_dec t w.mutex.sem)

-- `mutex->holder=RunningThread();`
unfoldable pub set_holder : Thread → World → World
set_holder t w = record {
  mutex = record w.mutex { holder = some t };
  phase = set_phase w.phase t holding;
}

-- `mutex->holder=0;` in `MutexRelease`
unfoldable pub clear_holder : Thread → World → World
clear_holder t w = record {
  mutex = record w.mutex { holder = none };
  phase = set_phase w.phase t leaving;
}

-- `SemaphoreInc(&(mutex->sem))` in `MutexRelease`
unfoldable pub let_go : Thread → World → Result World
let_go t w = do
  (woken, sem) ← semaphore_inc w.mutex.sem
  let phase = wake woken (set_phase w.phase t outside)
  ok (record { mutex = record w.mutex { sem = sem }; phase = phase })
