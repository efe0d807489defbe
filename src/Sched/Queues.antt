-- ===== src/Sched/Queues.antt =====
-- Queues of threads whose members all have the status that the queue is for.
use mmzzos.Base.{
  ◌≡◌, sym, ap, ◌∙◌, Bool, true, false, List, [], ◌∷◌, ◌++◌, ◌==◌, arith, All, ℕ_discrete,
  Bool-cases, inl, inr, subst, ==_iff,
}
use mathlib.Core.Bool.{false≢true}
use mmzzos.Dll.Shape.{Fresh, Distinct, Fresh-append}
use mmzzos.Sched.{Thread, Status, Pcb, set_pcb, erase, has}

-- Each thread of `xs` has a status that passes, and stands there once.
pub record Queue (p : Status → Bool) (f : Thread → Pcb) (xs : List Thread) : Type 0 where
  pub status : All (λ t. p (f t).status ≡ true) xs
  pub distinct : Distinct xs

module _ (p : Status → Bool) (f : Thread → Pcb) (t : Thread) where
  -- A thread whose status does not pass is not there.
  pub Fresh-status :
      (xs : List Thread) → All (λ t. p (f t).status ≡ true) xs → p (f t).status ≡ false → Fresh t xs
  Fresh-status [] all no_pass = tt
  Fresh-status (x ∷ xs) all no_pass = (
    (λ e. false≢true (sym no_pass ∙ ap (λ t. p (f t).status) e ∙ all.0)),
    Fresh-status xs all.1 no_pass,
  )

  pub status-has :
      (xs : List Thread)
      → All (λ t. p (f t).status ≡ true) xs
      → has t xs ≡ true
      → p (f t).status ≡ true
  status-has [] all there = absurd (false≢true there)
  status-has (x ∷ xs) all there = elim (ℕ_discrete x t) [
    | yes e ↦ ap (λ t. p (f t).status) (sym e) ∙ all.0
    | no ne ↦ status-has xs all.1 (ground arith)
  ]

  All-set_pcb :
      (q : Pcb) (xs : List Thread)
      → All (λ t. p (f t).status ≡ true) xs
      → Fresh t xs
      → All (λ u. p (set_pcb f t q u).status ≡ true) xs
  unfolding set_pcb
  All-set_pcb q [] all fresh = tt
  All-set_pcb q (x ∷ xs) all fresh =
      let e : (x == t) ≡ false = ground arith in (rw e all.0, All-set_pcb q xs all.1 fresh.1)

  -- A change of a thread that is not there.
  pub Queue-set_pcb :
      (q : Pcb) (xs : List Thread) → Queue p f xs → Fresh t xs → Queue p (set_pcb f t q) xs
  Queue-set_pcb q xs v fresh = record {
    status = All-set_pcb q xs v.status fresh;
    distinct = v.distinct;
  }

  All-snoc :
      (xs : List Thread)
      → All (λ t. p (f t).status ≡ true) xs
      → p (f t).status ≡ true
      → All (λ t. p (f t).status ≡ true) (xs ++ t ∷ [])
  All-snoc [] all pass = (pass, tt)
  All-snoc (x ∷ xs) all pass = (all.0, All-snoc xs all.1 pass)

  Distinct-snoc : (xs : List Thread) → Distinct xs → Fresh t xs → Distinct (xs ++ t ∷ [])
  Distinct-snoc [] d fresh = (tt, tt)
  Distinct-snoc (x ∷ xs) d fresh =
      (Fresh-append x xs (t ∷ []) d.0 ((λ e. fresh.0 (sym e)), tt), Distinct-snoc xs d.1 fresh.1)

  -- One more thread at the end.
  pub Queue-snoc :
      (xs : List Thread)
      → Queue p f xs
      → p (f t).status ≡ true
      → Fresh t xs
      → Queue p f (xs ++ t ∷ [])
  Queue-snoc xs v pass fresh = record {
    status = All-snoc xs v.status pass;
    distinct = Distinct-snoc xs v.distinct fresh;
  }

  All-erase :
      (xs : List Thread)
      → All (λ t. p (f t).status ≡ true) xs
      → All (λ t. p (f t).status ≡ true) (erase t xs)
  unfolding erase
  All-erase [] all = tt
  All-erase (x ∷ xs) all = elim (Bool-cases (x == t)) [
    | inl e ↦ rw e all.1
    | inr e ↦ rw e (all.0, All-erase xs all.1)
  ]

  Fresh-erase : (a : Thread) (xs : List Thread) → Fresh a xs → Fresh a (erase t xs)
  unfolding erase
  Fresh-erase a [] fresh = tt
  Fresh-erase a (x ∷ xs) fresh = elim (Bool-cases (x == t)) [
    | inl e ↦ rw e fresh.1
    | inr e ↦ rw e (fresh.0, Fresh-erase a xs fresh.1)
  ]

  Distinct-erase : (xs : List Thread) → Distinct xs → Distinct (erase t xs) × Fresh t (erase t xs)
  unfolding erase
  Distinct-erase [] d = (tt, tt)
  Distinct-erase (x ∷ xs) d =
      let (d', fresh) = Distinct-erase xs d.1 in
      elim (Bool-cases (x == t)) [
        | inl e ↦ rw e (d.1, subst (λ a. Fresh a xs) ((==_iff x t).0 e) d.0)
        | inr e ↦ rw e (
          (Fresh-erase x xs d.0, d'),
          ((λ h. false≢true (sym e ∙ (==_iff x t).1 (sym h))), fresh),
        )
      ]

  -- After `ListRemove` the thread is not there.
  pub Queue-erase :
      (xs : List Thread) → Queue p f xs → Queue p f (erase t xs) × Fresh t (erase t xs)
  Queue-erase xs v =
      let (d, fresh) = Distinct-erase xs v.distinct in
      (record { status = All-erase xs v.status; distinct = d }, fresh)
