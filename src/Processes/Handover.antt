-- ===== src/Processes/Handover.antt =====
-- syscall_exit of a process and the round of syscall_wait in its parent that follows.
use mmzzos.Base.{
  ℕ, suc, ◌%◌, ◌^◌, ◌≡◌, ◌≢◌, refl, sym, ap, ◌∙◌, Bool, true, false, ◌&&◌, List, [], ◌∷◌, ◌==◌,
  arith, some, ok, subst, ℕ_discrete, ==_refl,
}
use mathlib.Core.Bool.{false≢true}
use mmzzos.Sched.{Thread, running, hanging, erase, has}
use mmzzos.Sched.Switch.{IsValid, has-snoc}
use mmzzos.Processes.{
  System, returns, status_of, is_hanging, sign_extend, put_field, syscall_exit, wait_round,
}
use mmzzos.Processes.Tables.{init_adopt_lem}
use mmzzos.Processes.Blocking.{has-erase}
use mmzzos.Processes.Exit.{
  IsLeaving, adopted, after_exit, syscall_exit-equation, status-after, behind-IsValid, due-after,
}
use mmzzos.Processes.Wait.{
  CanWait, WaitSpec, Reaped, first_where, any, is_child, is_dead_child, wait_round_lem,
}

running-hangs : running ≢ hanging
running-hangs e = ground arith

first_where-only :
    (test : Thread → Bool) (me : Thread) (xs : List Thread)
    → ((t : Thread) → test t ≡ (t == me))
    → has me xs ≡ true
    → first_where test xs ≡ some me
first_where-only test me [] only there = absurd (false≢true there)
first_where-only test me (x ∷ xs) only there = elim (ℕ_discrete x me) [
  | yes e ↦ rw (only x ∙ ap (λ t. t == me) e ∙ ==_refl me) (ap some e)
  | no ne ↦
      let other : (x == me) ≡ false = ground (arith, ne) in
      rw (only x ∙ other) (first_where-only test me xs only (ground (arith, there, other)))
]

-- The process that exits is a listed child of `fa` with another pid, and `fa` will have no other child that hangs.
pub record IsLast (s : System) (fa : Thread) : Type 0 where
  pub leaving : IsLeaving s fa
  pub can_wait : CanWait s
  pub listed : has s.kernel.current s.thread_list ≡ true
  pub child : s.pa_pid s.kernel.current ≡ s.pid fa
  pub apart : s.pid s.kernel.current ≢ s.pid fa
  pub busy : s.kernel.current ≢ s.kernel.idle
  pub alone : (t : Thread) → (adopted s t == s.pid fa && is_hanging (status_of s t)) ≡ false

module _ (s : System) (fa : Thread) (l : IsLast s fa) (status : Thread → ℕ) where
  abbrev me : Thread
  me = s.kernel.current

  -- The system behind the exit, with any statuses kept.
  abbrev left : System
  left = record (after_exit fa s) { exit_status = status }

  fa_ne_me : me ≢ fa
  fa_ne_me e = l.apart (ap s.pid e)

  dead-after : (t : Thread) → is_dead_child left (s.pid fa) t ≡ (t == me)
  dead-after t =
      let pa = init_adopt_lem (s.pid me) s.thread_list s.pa_pid t in
      let st = status-after s fa t in
      rw (pa, st)
        (elim (ℕ_discrete t fa) [
          | yes e ↦ ground (arith, e, fa_ne_me)
          | no ne ↦ elim (ℕ_discrete t me) [
            | yes e ↦ ground (arith, ne, e, ap s.pa_pid e, l.child, l.apart)
            | no ne' ↦ ground (arith, ne, ne', l.alone t)
          ]
        ])

  hanging-before :
      (t : Thread) → t ≢ me → status_of left t ≡ hanging → (t ≢ fa) × (status_of s t ≡ hanging)
  hanging-before t ne h = elim (ℕ_discrete t fa) [
    | yes e ↦ absurd (running-hangs (sym (ground (arith, status-after s fa t, e)) ∙ h))
    | no ne' ↦ (ne', sym (ground (arith, status-after s fa t, ne, ne')) ∙ h)
  ]

  CanWait-after : CanWait left
  CanWait-after = record {
    valid = behind-IsValid s fa l.leaving;
    idle = due-after s fa l.leaving;
    blocked = λ t h. elim (ℕ_discrete t me) [
      | yes e ↦ has-snoc t me (erase fa s.kernel.block_list) ∙ ground (arith, e)
      | no ne ↦
          let (ne', hangs) = hanging-before t ne h in
          has-snoc t me (erase fa s.kernel.block_list)
          ∙ ground (arith, has-erase t fa s.kernel.block_list ne', l.can_wait.blocked t hangs)
    ];
    no_idle = λ h. l.can_wait.no_idle (hanging-before s.kernel.idle (λ e. l.busy (sym e)) h).1;
  }

  waits-after :
      (fuel : ℕ)
      → (s'' : System) × (wait_round (suc fuel) left
          ≡ ok (some (returns (s.pid me) (some (sign_extend (status me))) s'')))
        × Reaped left s'' me
  waits-after fuel =
      subst (λ d. WaitSpec (suc fuel) left d (any (is_child left (s.pid fa)) s.thread_list))
        (first_where-only (is_dead_child left (s.pid fa)) me s.thread_list dead-after l.listed)
        (wait_round_lem fuel left CanWait-after)

-- On a valid kernel with no delayed thread due, in which every process that hangs is in the block queue and the idle
-- thread neither hangs nor is the one that exits: a listed process exits whose parent, found in ThreadList by a pid
-- below 2^16 that is not the pid of the process, waits in the block queue, and that parent will have no other child
-- that hangs. Then the parent runs next, and the round of syscall_wait that it goes on with returns the pid of the
-- process and the low byte of its status, with its sign, and takes it out of ThreadList; the kernel is valid again.
pub exit-wait_round :
    (fuel code : ℕ) (s : System) (fa : Thread)
    → IsLast s fa
    → (s' : System) × (s'' : System) × (syscall_exit (suc fuel) code s ≡ ok (some s'))
      × (s'.kernel.current ≡ fa)
      × (wait_round (suc fuel) s'
          ≡ ok (some (returns (s.pid s.kernel.current) (some (sign_extend (code % 2 ^ 8))) s'')))
      × IsValid s''.kernel
      × (s''.thread_list ≡ erase s.kernel.current s.thread_list)
unfolding put_field
exit-wait_round fuel code s fa l =
    let me = s.kernel.current in
    let status = put_field s.exit_status me (code % 2 ^ 8) in
    let (s'', done, r) = waits-after s fa l status fuel in
    let kept : status me ≡ code % 2 ^ 8 = rw (==_refl me) refl in
    (
      left s fa l status,
      s'',
      syscall_exit-equation fuel code s fa l.leaving,
      refl,
      done ∙ ap (λ v. ok (some (returns (s.pid me) (some (sign_extend v)) s''))) kept,
      r.valid,
      r.list,
    )
