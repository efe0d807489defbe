-- ===== src/Sync/Exclusion.antt =====
-- MutexRelease of kernel/thread.c, and mutual exclusion over all interleavings.
use mmzzos.Base.{
  ◌≡◌, ◌≢◌, refl, sym, ap, ◌∙◌, inl, inr, true, false, ◌||◌, some, List, [], ◌∷◌, Result, ok, arith,
  Bool-cases, ==_refl, subst,
}
use mathlib.Core.Bool.{false≢true}
use mmzzos.Sched.{Thread, has}
use mmzzos.Sync.{
  World, Phase, outside, trying, asleep, holding, leaving, set_phase, let_go, semaphore_inc,
  first_waiting,
}
use mmzzos.Sync.Steps.{Step, call, try, hold, leave, go, Reach, here, next}
use mmzzos.Sync.Kept.{call-IsSafe, hold-IsSafe, leave-IsSafe}
use mmzzos.Sync.Wakes.{try-IsSafe}
use mmzzos.Sync.Safe.{
  start-IsSafe, IsSafe, Owner, NoLostWake, is_asleep, is_holding, is_trying, owns, once,
  set_phase_test, set_phase_same, set_phase_at, Owner-unique,
}

-- The state behind the release, by the threads that wait.
abbrev released : Thread → World → List Thread → World
released t w [] = record {
  mutex = record w.mutex { sem = record { value = 1; wait = [] } };
  phase = set_phase w.phase t outside;
}
released t w (u ∷ ts) = record {
  mutex = record w.mutex { sem = record { value = 1; wait = ts } };
  phase = set_phase (set_phase w.phase t outside) u trying;
}

let_go_as :
    (t : Thread) (w : World) (ts : List Thread)
    → w.mutex.sem.wait ≡ ts
    → w.mutex.sem.value ≡ 0
    → let_go t w ≡ ok (released t w ts)
unfolding let_go semaphore_inc first_waiting
let_go_as t w [] e z = simp (e, z)
let_go_as t w (u ∷ ts) e z = simp (e, z)

-- A free semaphore after the release by `t`, where `f` is the phases behind it.
released_owner :
    (w : World) (t : Thread)
    → IsSafe w
    → owns (w.phase t) ≡ true
    → (u : Thread) → owns (set_phase w.phase t outside u) ≡ false
released_owner w t v ht u =
    set_phase_test owns w.phase t outside u ∙ elim (Bool-cases (owns (w.phase u))) [
      | inl own ↦ rw (Owner-unique w t u v.owner ht own, ==_refl t) refl
      | inr other ↦ ground arith
    ]

holding-owns : (p : Phase) → owns p ≡ false → is_holding p ≡ false
holding-owns p h = ground arith

-- The phases of the threads that wait, behind the release by `t`.
released_waiting :
    (w : World) (t : Thread) (ts : List Thread)
    → w.mutex.sem.wait ≡ ts
    → w.phase t ≡ leaving
    → IsSafe w
    → (u : Thread) → has u ts ≡ is_asleep (set_phase w.phase t outside u)
released_waiting w t ts e ht v u =
    ap (has u) (sym e)
    ∙ v.waiting u
    ∙ sym (set_phase_same is_asleep w.phase t outside u (sym (ap is_asleep ht)))

released-IsSafe :
    (w : World) (t : Thread) (ts : List Thread)
    → w.mutex.sem.wait ≡ ts
    → w.phase t ≡ leaving
    → IsSafe w
    → IsSafe (released t w ts)
released-IsSafe w t [] e ht v = record {
  owner = inl (refl, released_owner w t v (ap owns ht));
  waiting = released_waiting w t [] e ht v;
  distinct = refl;
  held =
      λ u h. absurd (false≢true (sym (holding-owns _ (released_owner w t v (ap owns ht) u)) ∙ h));
  no_lost = inl refl;
}
released-IsSafe w t (u ∷ ts) e ht v = record {
  owner = inl (refl, free);
  waiting = waiting;
  distinct = ground arith;
  held = λ x h. absurd (false≢true (sym (holding-owns _ (free x)) ∙ h));
  no_lost = inr (inr (u, ap is_trying (set_phase_at (set_phase w.phase t outside) u trying)));
}
  where
    before : Thread → Phase
    before = set_phase w.phase t outside

    d : once (u ∷ ts) ≡ true
    d = ap once (sym e) ∙ v.distinct

    free : (x : Thread) → owns (set_phase before u trying x) ≡ false
    free x =
        set_phase_test owns before u trying x ∙ ground (arith, released_owner w t v (ap owns ht) x)

    waiting : (x : Thread) → has x ts ≡ is_asleep (set_phase before u trying x)
    waiting x =
        ground (arith, released_waiting w t (u ∷ ts) e ht v x)
        ∙ sym (set_phase_test is_asleep before u trying x)

Owner-zero : (w : World) (t : Thread) → Owner w → owns (w.phase t) ≡ true → w.mutex.sem.value ≡ 0
Owner-zero w t (inl (one, free)) h = absurd (false≢true (sym (free t) ∙ h))
Owner-zero w t (inr (o, zero_, taken)) h = zero_

-- The release of a mutex by its owner passes the ASSERT on the value of the semaphore.
pub let_go-IsSafe :
    (w : World) (t : Thread)
    → w.phase t ≡ leaving
    → IsSafe w
    → (w' : World) × (let_go t w ≡ ok w') × IsSafe w'
let_go-IsSafe w t ht v =
    let zero_ = Owner-zero w t v.owner (ap owns ht) in
    (
      released t w w.mutex.sem.wait,
      let_go_as t w w.mutex.sem.wait refl zero_,
      released-IsSafe w t w.mutex.sem.wait refl ht v,
    )

abbrev from_ok : World → Result World → World
from_ok w (ok w') = w'
from_ok w _ = w

Step-IsSafe : (w w' : World) → Step w w' → IsSafe w → IsSafe w'
Step-IsSafe _ _ (call w t e) v = call-IsSafe w t e v
Step-IsSafe _ _ (try w t e) v = try-IsSafe w t e v
Step-IsSafe _ _ (hold w t e) v = hold-IsSafe w t e v
Step-IsSafe _ _ (leave w t e) v = leave-IsSafe w t e v
Step-IsSafe _ _ (go w t w' e h) v =
    let (new, ends, v') = let_go-IsSafe w t e v in subst IsSafe (ap (from_ok w) (sym ends ∙ h)) v'

-- Every interleaving keeps the invariant.
pub Reach-IsSafe : (w : World) → Reach w → IsSafe w
Reach-IsSafe _ here = start-IsSafe
Reach-IsSafe _ (next w w' r s) = Step-IsSafe w w' s (Reach-IsSafe w r)

-- In every state that the threads reach, while one of them is between the acquisition of the
-- semaphore and its release, no other one is.
pub mutual_exclusion :
    (w : World) (t u : Thread)
    → Reach w
    → owns (w.phase t) ≡ true
    → t ≢ u
    → owns (w.phase u) ≡ false
mutual_exclusion w t u r ht differ = elim (Bool-cases (owns (w.phase u))) [
  | inl hu ↦ absurd (differ (Owner-unique w u t (Reach-IsSafe w r).owner hu ht))
  | inr hu ↦ hu
]

-- In every reachable state a thread in its critical section is the holder of the mutex, and its
-- release passes the ASSERT of SemaphoreInc.
pub holder_release :
    (w : World) (t : Thread)
    → Reach w
    → (w.phase t ≡ holding → w.mutex.holder ≡ some t)
      × (w.phase t ≡ leaving → (w' : World) × (let_go t w ≡ ok w') × Reach w')
holder_release w t r =
    let v = Reach-IsSafe w r in
    (
      (λ h. v.held t (ap is_holding h)),
      (λ h.
          let (w', ends, v') = let_go-IsSafe w t h v in (w', ends, next w w' r (go w t w' h ends))),
    )

-- No wake-up is lost: in every reachable state in which a thread is asleep, another thread owns the
-- semaphore or is about to try for it.
pub no_lost_wake :
    (w : World) (t : Thread)
    → Reach w
    → w.phase t ≡ asleep
    → (u : Thread) × ((owns (w.phase u) || is_trying (w.phase u)) ≡ true)
no_lost_wake w t r h = wakes v.no_lost
  where
    v : IsSafe w
    v = Reach-IsSafe w r

    taken :
        w.mutex.sem.value ≡ 0
        → Owner w
        → (u : Thread) × ((owns (w.phase u) || is_trying (w.phase u)) ≡ true)
    taken z (inl (one, free)) = absurd (omega arith)
    taken z (inr (o, zero_, all)) = (o, rw (all o, ==_refl o) refl)

    wakes : NoLostWake w → (u : Thread) × ((owns (w.phase u) || is_trying (w.phase u)) ≡ true)
    wakes (inl e) = absurd (false≢true (ap (has t) (sym e) ∙ v.waiting t ∙ ap is_asleep h))
    wakes (inr (inl z)) = taken z v.owner
    wakes (inr (inr (u, tries))) = (u, ground arith)
