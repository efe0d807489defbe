-- ===== src/Sync/Steps.antt =====
-- The interleavings of threads that use one mutex of kernel/thread.c.
use mmzzos.Base.{◌≡◌, ok}
use mmzzos.Sched.{Thread}
use mmzzos.Sync.{
  World, outside, trying, entered, holding, leaving, mutex_init, set_phase, try_acquire, set_holder,
  clear_holder, let_go,
}

-- A thread calls MutexAcquire when it likes, and then takes the steps of the two routines in turn; a
-- thread that is asleep takes none.
pub data Step : World → World → Type 0 where
  call :
      (w : World) (t : Thread)
      → w.phase t ≡ outside
      → Step w (record w { phase = set_phase w.phase t trying })
  try : (w : World) (t : Thread) → w.phase t ≡ trying → Step w (try_acquire t w)
  hold : (w : World) (t : Thread) → w.phase t ≡ entered → Step w (set_holder t w)
  leave : (w : World) (t : Thread) → w.phase t ≡ holding → Step w (clear_holder t w)
  go : (w : World) (t : Thread) (w' : World) → w.phase t ≡ leaving → let_go t w ≡ ok w' → Step w w'

abbrev pub start : World
start = record { mutex = mutex_init; phase = λ t. outside }

pub data Reach : World → Type 0 where
  here : Reach start
  next : (w w' : World) → Reach w → Step w w' → Reach w'
