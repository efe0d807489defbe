-- ===== src/Sync/Kept.antt =====
-- Each step of the threads that use a mutex of kernel/thread.c keeps the invariant.
use mmzzos.Base.{◌≡◌, refl, sym, ap, ◌∙◌, inl, inr, true, Option, none, some, arith, ℕ_discrete}
use mathlib.Core.Bool.{false≢true}
use mmzzos.Sched.{Thread}
use mmzzos.Sync.{
  World, Phase, outside, trying, entered, holding, leaving, set_phase, set_holder, clear_holder,
}
use mmzzos.Sync.Safe.{
  IsSafe, Owner, NoLostWake, is_asleep, is_holding, is_trying, owns, set_phase_test, set_phase_same,
  set_phase_at, Owner-unique,
}

-- A change of the phase of one thread, and of the holder, that leaves the semaphore as it was.
move-IsSafe :
    (w : World) (t : Thread) (q : Phase) (holder : Option Thread)
    → owns q ≡ owns (w.phase t)
    → is_asleep q ≡ is_asleep (w.phase t)
    → (is_trying (w.phase t) ≡ true → is_trying q ≡ true)
    → ((u : Thread) → is_holding (set_phase w.phase t q u) ≡ true → holder ≡ some u)
    → IsSafe w
    → IsSafe (record { mutex = record w.mutex { holder = holder }; phase = set_phase w.phase t q })
move-IsSafe w t q holder own sleep tries held v = record {
  owner = moved v.owner;
  waiting = λ u. v.waiting u ∙ sym (set_phase_same is_asleep w.phase t q u sleep);
  distinct = v.distinct;
  held = held;
  no_lost = no_lost v.no_lost;
}
  where
    w' : World
    w' = record { mutex = record w.mutex { holder = holder }; phase = set_phase w.phase t q }

    moved : Owner w → Owner w'
    moved (inl (one, free)) = inl (one, (λ u. set_phase_same owns w.phase t q u own ∙ free u))
    moved (inr (o, zero_, taken)) =
        inr (o, zero_, (λ u. set_phase_same owns w.phase t q u own ∙ taken u))

    still : (u : Thread) → is_trying (w.phase u) ≡ true → is_trying (set_phase w.phase t q u) ≡ true
    still u h = elim (ℕ_discrete u t) [
      | yes e ↦
          ap is_trying (ap (set_phase w.phase t q) e ∙ set_phase_at w.phase t q)
          ∙ tries (ap (λ u. is_trying (w.phase u)) (sym e) ∙ h)
      | no ne ↦ set_phase_test is_trying w.phase t q u ∙ ground arith
    ]

    no_lost : NoLostWake w → NoLostWake w'
    no_lost (inl e) = inl e
    no_lost (inr (inl e)) = inr (inl e)
    no_lost (inr (inr (u, h))) = inr (inr (u, still u h))

pub call-IsSafe :
    (w : World) (t : Thread)
    → w.phase t ≡ outside
    → IsSafe w
    → IsSafe (record w { phase = set_phase w.phase t trying })
call-IsSafe w t out v =
    move-IsSafe w t trying w.mutex.holder (sym (ap owns out)) (sym (ap is_asleep out)) (λ _. refl)
      (λ u h.
        v.held u (sym (set_phase_same is_holding w.phase t trying u (sym (ap is_holding out))) ∙ h))
      v

holding-owns : (p : Phase) → is_holding p ≡ true → owns p ≡ true
holding-owns p h = ground arith

-- While `t` owns the semaphore no other thread becomes its holder.
sole_holder :
    (w : World) (t u : Thread) (q : Phase)
    → owns (w.phase t) ≡ true
    → owns q ≡ true
    → IsSafe w
    → is_holding (set_phase w.phase t q u) ≡ true
    → u ≡ t
sole_holder w t u q ht hq v h =
    Owner-unique w t u v.owner ht
      (sym (set_phase_same owns w.phase t q u (hq ∙ sym ht)) ∙ holding-owns _ h)

pub hold-IsSafe :
    (w : World) (t : Thread) → w.phase t ≡ entered → IsSafe w → IsSafe (set_holder t w)
unfolding set_holder
hold-IsSafe w t e v =
    move-IsSafe w t holding (some t) (sym (ap owns e)) (sym (ap is_asleep e))
      (λ h. absurd (false≢true (sym (ap is_trying e) ∙ h)))
      (λ u h. ap some (sym (sole_holder w t u holding (ap owns e) refl v h))) v

pub leave-IsSafe :
    (w : World) (t : Thread) → w.phase t ≡ holding → IsSafe w → IsSafe (clear_holder t w)
unfolding clear_holder
leave-IsSafe w t e v =
    move-IsSafe w t leaving none (sym (ap owns e)) (sym (ap is_asleep e))
      (λ h. absurd (false≢true (sym (ap is_trying e) ∙ h)))
      (λ u h. absurd (
        false≢true (
          ap is_holding (sym (set_phase_at w.phase t leaving))
          ∙ ap (λ u. is_holding (set_phase w.phase t leaving u))
              (sym (sole_holder w t u leaving (ap owns e) refl v h))
          ∙ h)))
      v
