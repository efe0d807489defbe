-- ===== src/Sync/Safe.antt =====
-- Mutual exclusion, and no lost wake-up, for the mutex of kernel/thread.c.
use mmzzos.Base.{
  ◌≡◌, refl, sym, ap, ◌∙◌, ◌⊎◌, inl, inr, Bool, true, false, ◌&&◌, not, some, List, [], ◌∷◌, ◌==◌,
  if◌then◌else◌, Bool-cases, ==_iff, ==_refl,
}
use mathlib.Core.Bool.{false≢true}
use mmzzos.Sched.{Thread, has}
use mmzzos.Sync.{
  World, Phase, trying, asleep, entered, holding, leaving, mutex_init, semaphore_init, set_phase,
}
use mmzzos.Sync.Steps.{start}

abbrev pub is_asleep : Phase → Bool
is_asleep asleep = true
is_asleep _ = false

abbrev pub is_holding : Phase → Bool
is_holding holding = true
is_holding _ = false

abbrev pub is_trying : Phase → Bool
is_trying trying = true
is_trying _ = false

-- Between the two semaphore operations.
abbrev pub owns : Phase → Bool
owns entered = true
owns holding = true
owns leaving = true
owns _ = false

-- Each thread at most once.
abbrev pub once : List Thread → Bool
once [] = true
once (t ∷ ts) = not (has t ts) && once ts

-- The semaphore is 1 and no thread owns it, or it is 0 and one thread does.
abbrev pub Owner : World → Type 0
Owner w =
    ((w.mutex.sem.value ≡ 1) × ((u : Thread) → owns (w.phase u) ≡ false))
    ⊎ ((t : Thread) × (w.mutex.sem.value ≡ 0) × ((u : Thread) → owns (w.phase u) ≡ (u == t)))

-- If a thread waits and the semaphore is free, some thread is about to try.
abbrev pub NoLostWake : World → Type 0
NoLostWake w =
    (w.mutex.sem.wait ≡ [])
    ⊎ ((w.mutex.sem.value ≡ 0) ⊎ ((t : Thread) × (is_trying (w.phase t) ≡ true)))

pub record IsSafe (w : World) : Type 0 where
  pub owner : Owner w
  pub waiting : (u : Thread) → has u w.mutex.sem.wait ≡ is_asleep (w.phase u)
  pub distinct : once w.mutex.sem.wait ≡ true
  pub held : (u : Thread) → is_holding (w.phase u) ≡ true → w.mutex.holder ≡ some u
  pub no_lost : NoLostWake w

pub start-IsSafe : IsSafe start
unfolding mutex_init semaphore_init
start-IsSafe = record {
  owner = inl (refl, (λ u. refl));
  waiting = λ u. refl;
  distinct = refl;
  held = λ u h. absurd (false≢true h);
  no_lost = inl refl;
}

module _ (g : Phase → Bool) (f : Thread → Phase) (t : Thread) (p : Phase) (u : Thread) where
  pub set_phase_test : g (set_phase f t p u) ≡ (if u == t then g p else g (f u))
  unfolding set_phase
  set_phase_test = elim (Bool-cases (u == t)) [ inl e ↦ rw e refl | inr e ↦ rw e refl ]

  pub set_phase_same : g p ≡ g (f t) → g (set_phase f t p u) ≡ g (f u)
  unfolding set_phase
  set_phase_same h = elim (Bool-cases (u == t)) [
    | inl e ↦ rw e (h ∙ ap (λ u. g (f u)) (sym ((==_iff u t).0 e)))
    | inr e ↦ rw e refl
  ]

pub set_phase_at : (f : Thread → Phase) (t : Thread) (p : Phase) → set_phase f t p t ≡ p
unfolding set_phase
set_phase_at f t p = rw (==_refl t)

-- Two owners are one thread.
pub Owner-unique :
    (w : World) (t u : Thread) → Owner w → owns (w.phase t) ≡ true → owns (w.phase u) ≡ true → u ≡ t
Owner-unique w t u (inl (one, free)) ht hu = absurd (false≢true (sym (free t) ∙ ht))
Owner-unique w t u (inr (o, zero_, taken)) ht hu =
    (==_iff u o).0 (sym (taken u) ∙ hu) ∙ sym ((==_iff t o).0 (sym (taken t) ∙ ht))
