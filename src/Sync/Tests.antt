-- ===== src/Sync/Tests.antt =====
-- Two threads that use a mutex of kernel/thread.c: thread 1 acquires it and thread 2 falls asleep.
use mmzzos.Base.{◌≡◌, refl, true, false, arith, ◌||◌}
use mmzzos.Sched.{Thread}
use mmzzos.Sync.{
  World, trying, mutex_init, semaphore_init, semaphore_dec, set_phase, try_acquire, set_holder,
}
use mmzzos.Sync.Steps.{start, Reach, here, next, call, try, hold}
use mmzzos.Sync.Safe.{owns, is_trying}
use mmzzos.Sync.Exclusion.{mutual_exclusion, no_lost_wake}

abbrev calls : Thread → World → World
calls t w = record w { phase = set_phase w.phase t trying }

abbrev one_enters : World
one_enters = try_acquire 1 (calls 1 start)

abbrev two_sleeps : World
two_sleeps = try_acquire 2 (calls 2 one_enters)

one_enters-Reach : Reach one_enters
unfolding set_phase mutex_init semaphore_init
one_enters-Reach = next _ _ (next _ _ here (call start 1 refl)) (try (calls 1 start) 1 refl)

two_sleeps-Reach : Reach two_sleeps
unfolding set_phase mutex_init semaphore_init semaphore_dec try_acquire
two_sleeps-Reach =
    next _ _ (next _ _ one_enters-Reach (call one_enters 2 refl)) (try (calls 2 one_enters) 2 refl)

one_holds-Reach : Reach (set_holder 1 one_enters)
unfolding set_phase mutex_init semaphore_init semaphore_dec try_acquire
one_holds-Reach = next _ _ one_enters-Reach (hold one_enters 1 refl)

mutual_exclusion_example : owns (two_sleeps.phase 2) ≡ false
unfolding set_phase mutex_init semaphore_init semaphore_dec try_acquire
mutual_exclusion_example =
    mutual_exclusion two_sleeps 1 2 two_sleeps-Reach refl (λ e. absurd (omega arith))

no_lost_wake_example :
    (u : Thread) × ((owns (two_sleeps.phase u) || is_trying (two_sleeps.phase u)) ≡ true)
unfolding set_phase mutex_init semaphore_init semaphore_dec try_acquire
no_lost_wake_example = no_lost_wake two_sleeps 2 two_sleeps-Reach refl
