-- ===== src/Sync/Wakes.antt =====
-- The two semaphore operations of a mutex of kernel/thread.c keep the invariant.
use mmzzos.Base.{
  ◌-◌, ◌≡◌, refl, sym, ap, ◌∙◌, inl, inr, true, false, List, [], ◌∷◌, ◌++◌, ◌==◌, if◌then◌else◌,
  arith, subst,
}
use mmzzos.Sched.{Thread, has}
use mmzzos.Sched.Switch.{has-snoc}
use mmzzos.Sync.{
  Semaphore, World, trying, asleep, entered, set_phase, try_acquire, semaphore_dec, after_dec,
  blocks, returns,
}
use mmzzos.Sync.Safe.{
  IsSafe, Owner, is_asleep, is_holding, owns, once, set_phase_test, set_phase_same,
}

once-snoc :
    (t : Thread) (ts : List Thread) → once ts ≡ true → has t ts ≡ false → once (ts ++ t ∷ []) ≡ true
once-snoc t [] h f = refl
once-snoc t (x ∷ ts) h f = ground (arith, once-snoc t ts, has-snoc x t ts)

module _ (t : Thread) (sem : Semaphore) where
  dec_free : sem.value ≡ 1 → semaphore_dec t sem ≡ returns (record { value = 0; wait = sem.wait })
  unfolding semaphore_dec
  dec_free e =
      ap
        (λ n.
          if n == 0
          then blocks (record { value = n; wait = sem.wait ++ t ∷ [] })
          else returns (record { value = n - 1; wait = sem.wait }))
        e

  dec_taken :
      sem.value ≡ 0 → semaphore_dec t sem ≡ blocks (record sem { wait = sem.wait ++ t ∷ [] })
  unfolding semaphore_dec
  dec_taken e = simp (e)

free-IsSafe :
    (w : World) (t : Thread)
    → w.phase t ≡ trying
    → ((u : Thread) → owns (w.phase u) ≡ false)
    → IsSafe w
    → IsSafe (after_dec t w (returns (record { value = 0; wait = w.mutex.sem.wait })))
free-IsSafe w t e free v = record {
  owner = inr (t, refl, owner);
  waiting =
      λ u. v.waiting u ∙ sym (set_phase_same is_asleep w.phase t entered u (sym (ap is_asleep e)));
  distinct = v.distinct;
  held = λ u h.
      v.held u (sym (set_phase_same is_holding w.phase t entered u (sym (ap is_holding e))) ∙ h);
  no_lost = inr (inl refl);
}
  where
    owner : (u : Thread) → owns (set_phase w.phase t entered u) ≡ (u == t)
    owner u = set_phase_test owns w.phase t entered u ∙ ground (arith, free u)

taken-IsSafe :
    (w : World) (t : Thread)
    → w.phase t ≡ trying
    → w.mutex.sem.value ≡ 0
    → IsSafe w
    → IsSafe (after_dec t w (blocks (record w.mutex.sem { wait = w.mutex.sem.wait ++ t ∷ [] })))
taken-IsSafe w t e zero_ v = record {
  owner = owner v.owner;
  waiting = waiting;
  distinct = once-snoc t w.mutex.sem.wait v.distinct (v.waiting t ∙ ap is_asleep e);
  held = λ u h.
      v.held u (sym (set_phase_same is_holding w.phase t asleep u (sym (ap is_holding e))) ∙ h);
  no_lost = inr (inl zero_);
}
  where
    w' : World
    w' = after_dec t w (blocks (record w.mutex.sem { wait = w.mutex.sem.wait ++ t ∷ [] }))

    same : (u : Thread) → owns (set_phase w.phase t asleep u) ≡ owns (w.phase u)
    same u = set_phase_same owns w.phase t asleep u (sym (ap owns e))

    owner : Owner w → Owner w'
    owner (inl (one, free)) = inl (one, (λ u. same u ∙ free u))
    owner (inr (o, z, taken)) = inr (o, z, (λ u. same u ∙ taken u))

    waiting :
        (u : Thread) → has u (w.mutex.sem.wait ++ t ∷ []) ≡ is_asleep (set_phase w.phase t asleep u)
    waiting u =
        has-snoc u t w.mutex.sem.wait
        ∙ ground (arith, v.waiting u)
        ∙ sym (set_phase_test is_asleep w.phase t asleep u)

pub try-IsSafe : (w : World) (t : Thread) → w.phase t ≡ trying → IsSafe w → IsSafe (try_acquire t w)
unfolding try_acquire
try-IsSafe w t e v = go v.owner
  where
    go : Owner w → IsSafe (after_dec t w (semaphore_dec t w.mutex.sem))
    go (inl (one, free)) =
        subst (λ r. IsSafe (after_dec t w r)) (sym (dec_free t w.mutex.sem one))
          (free-IsSafe w t e free v)
    go (inr (o, zero_, taken)) =
        subst (λ r. IsSafe (after_dec t w r)) (sym (dec_taken t w.mutex.sem zero_))
          (taken-IsSafe w t e zero_ v)
