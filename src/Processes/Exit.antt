-- ===== src/Processes/Exit.antt =====
-- syscall_exit of a process whose parent waits.
use mmzzos.Base.{
  ℕ, suc, ◌-◌, ◌%◌, ◌^◌, ◌<◌, ◌≡◌, ◌≢◌, refl, sym, ap, ◌∙◌, true, false, ◌&&◌, ◌==◌, if◌then◌else◌,
  arith, Bool-cases, inl, inr, some, ok, ◌>>=◌, subst, Option, none, ok_inj, ==_refl,
}
use mmzzos.Sched.{
  Thread, with_status, running, ready, hanging, waiting, Pcb, Kernel, set_pcb, erase, has,
  is_blocked,
}
use mmzzos.Sched.Switch.{IsValid, is_due, target-set_pcb, is_due-same}
use mmzzos.Processes.{
  System, status_of, put_field, init_adopt, find_target_pcb, with_kernel, wake_parent, exit_to,
  syscall_exit,
}
use mmzzos.Sched.Schedule.{thread_block_lem}
use mmzzos.Processes.Tables.{init_adopt_lem}
use mmzzos.Processes.Blocking.{woken, behind, unblock-IsValid, thread_block-behind}

-- The parents once the children of the current process have gone to process 1.
abbrev pub adopted : System → Thread → ℕ
adopted s t = if has t s.thread_list && s.pa_pid t == s.pid s.kernel.current then 1 else s.pa_pid t

-- A process that can exit to a parent that waits for it.
pub record IsLeaving (s : System) (fa : Thread) : Type 0 where
  pub valid : IsValid s.kernel
  pub idle : is_due s.kernel ≡ false
  pub parent : find_target_pcb (adopted s s.kernel.current) s.thread_list s.pid ≡ some fa
  pub waits : status_of s fa ≡ waiting
  pub blocked : has fa s.kernel.block_list ≡ true
  pub small : s.pa_pid s.kernel.current < 2 ^ 16

-- The queues behind the exit.
abbrev pub after_exit : Thread → System → System
after_exit fa s = record s {
  kernel = behind hanging fa (erase fa s.kernel.ready_list) (woken fa s.kernel);
  pa_pid = init_adopt (s.pid s.kernel.current) s.thread_list s.pa_pid;
}

due_woken : (k : Kernel) (fa : Thread) → is_due k ≡ false → is_due (woken fa k) ≡ false
due_woken k fa idle =
    is_due-same k (woken fa k)
      (record { heap = refl; time = refl; targets = λ t. target-set_pcb k.threads fa _ t refl })
    ∙ idle

exit_to-waiting :
    (fuel : ℕ) (s : System) (fa : Thread)
    → IsValid s.kernel
    → is_due s.kernel ≡ false
    → status_of s fa ≡ waiting
    → has fa s.kernel.block_list ≡ true
    → exit_to (suc fuel) s (some fa)
      ≡ ok (
          some (record s {
            kernel = behind hanging fa (erase fa s.kernel.ready_list) (woken fa s.kernel);
          }))
unfolding exit_to wake_parent
exit_to-waiting fuel s fa v idle waits blocked =
    let w = unblock-IsValid s.kernel fa v (ap is_blocked waits) blocked in
    let due = due_woken s.kernel fa idle in
    rw (waits, w.0)
      (ap (λ r. r >>= λ k'. ok (with_kernel s k'))
        (thread_block-behind fuel hanging fa (erase fa s.kernel.ready_list) (woken fa s.kernel) refl
          w.1.runs refl due))

pub syscall_exit-equation :
    (fuel code : ℕ) (s : System) (fa : Thread)
    → IsLeaving s fa
    → syscall_exit (suc fuel) code s
      ≡ ok (
          some (record (after_exit fa s) {
            exit_status = put_field s.exit_status s.kernel.current (code % 2 ^ 8);
          }))
unfolding syscall_exit
syscall_exit-equation fuel code s fa l =
    let me = s.kernel.current in
    let parent : find_target_pcb (init_adopt (s.pid me) s.thread_list s.pa_pid me) s.thread_list
          s.pid
        ≡ some fa =
      ap (λ p. find_target_pcb p s.thread_list s.pid)
        (init_adopt_lem (s.pid me) s.thread_list s.pa_pid me)
      ∙ l.parent in
    let small : (s.pa_pid me == 2 ^ 32 - 1) ≡ false = ground (arith, l.small) in
    let s' = record s {
      exit_status = put_field s.exit_status me (code % 2 ^ 8);
      pa_pid = init_adopt (s.pid me) s.thread_list s.pa_pid;
    } in
    rw (small, parent) (exit_to-waiting fuel s' fa l.valid l.idle l.waits l.blocked)

some_or {ℓ} : {A : Type ℓ} → A → Option A → A
some_or d none = d
some_or d (some a) = a

some_inj {ℓ} : {A : Type ℓ} (a b : A) → some a ≡ some b → a ≡ b
unfolding some_or
some_inj a b e = ap (some_or a) e

pub behind-IsValid : (s : System) (fa : Thread) → IsLeaving s fa → IsValid (after_exit fa s).kernel
behind-IsValid s fa l =
    let w = unblock-IsValid s.kernel fa l.valid (ap is_blocked l.waits) l.blocked in
    let due = due_woken s.kernel fa l.idle in
    let (k', done, next, valid) = thread_block_lem 0 hanging (woken fa s.kernel) w.1 refl due in
    let same =
      thread_block-behind 0 hanging fa (erase fa s.kernel.ready_list) (woken fa s.kernel) refl
        w.1.runs refl due in
    subst IsValid
      (some_inj k' (behind hanging fa (erase fa s.kernel.ready_list) (woken fa s.kernel))
        (ok_inj _ _ (sym done ∙ same)))
      valid

-- No delayed thread is due behind the exit either.
pub due-after :
    (s : System) (fa : Thread) → IsLeaving s fa → is_due (after_exit fa s).kernel ≡ false
due-after s fa l =
    let k = woken fa s.kernel in
    let hung = with_status k.current hanging k in
    is_due-same k (after_exit fa s).kernel (record {
      heap = refl;
      time = refl;
      targets = λ t.
          target-set_pcb hung.threads fa _ t refl ∙ target-set_pcb k.threads k.current _ t refl;
    })
    ∙ due_woken s.kernel fa l.idle

status-set_pcb :
    (f : Thread → Pcb) (t : Thread) (q : Pcb) (u : Thread)
    → (set_pcb f t q u).status ≡ (if u == t then q.status else (f u).status)
unfolding set_pcb
status-set_pcb f t q u = elim (Bool-cases (u == t)) [ inl e ↦ rw e refl | inr e ↦ rw e refl ]

-- The status of each process once the current one hangs and `fa` runs.
pub status-after :
    (s : System) (fa t : Thread)
    → status_of (after_exit fa s) t
      ≡ (if t == fa then running else if t == s.kernel.current then hanging else status_of s t)
status-after s fa t =
    let k = s.kernel in
    let awake = (woken fa k).threads in
    let hung = (with_status k.current hanging (woken fa k)).threads in
    let run = status-set_pcb hung fa (record (hung fa) { status = running }) t in
    let hang = status-set_pcb awake k.current (record (awake k.current) { status = hanging }) t in
    let wake = status-set_pcb k.threads fa (record (k.threads fa) { status = ready }) t in
    elim (Bool-cases (t == fa)) [
      | inl e ↦ run ∙ rw e refl
      | inr e ↦
          run ∙ rw e (hang ∙ ap (λ st. if t == k.current then hanging else st) (wake ∙ rw e refl))
    ]

-- A process exits whose parent, as it is once its own children have gone to process 1, waits in the block queue of a
-- valid kernel with no delayed thread due, and whose own parent's pid is below 2^16: the call ends, the kernel is
-- valid, the parent runs, the process hangs with the low byte of its status kept, no other process changes its
-- status, each listed process whose parent was the process that exits has the parent 1, and every other process keeps
-- its parent.
pub syscall_exit_lem :
    (fuel code : ℕ) (s : System) (fa : Thread)
    → IsLeaving s fa
    → (s' : System) × (syscall_exit (suc fuel) code s ≡ ok (some s'))
      × IsValid s'.kernel
      × (s'.kernel.current ≡ fa)
      × (s'.exit_status s.kernel.current ≡ code % 2 ^ 8)
      × ((t : Thread)
          → status_of s' t ≡ (
              if t == fa
              then running
              else if t == s.kernel.current
              then hanging
              else status_of s t))
      × ((t : Thread) → s'.pa_pid t ≡ adopted s t)
unfolding put_field
syscall_exit_lem fuel code s fa l = (
  record (after_exit fa s) {
    exit_status = put_field s.exit_status s.kernel.current (code % 2 ^ 8);
  },
  syscall_exit-equation fuel code s fa l,
  behind-IsValid s fa l,
  refl,
  rw (==_refl s.kernel.current) refl,
  status-after s fa,
  init_adopt_lem (s.pid s.kernel.current) s.thread_list s.pa_pid,
)

-- In such an exit a child of the process that hangs already gets the parent 1, but process 1, if it waits and is not
-- the parent of the process that exits, goes on waiting.
pub syscall_exit-orphan :
    (fuel code : ℕ) (s : System) (fa orphan first : Thread)
    → IsLeaving s fa
    → has orphan s.thread_list ≡ true
    → s.pa_pid orphan ≡ s.pid s.kernel.current
    → status_of s orphan ≡ hanging
    → s.pid first ≡ 1
    → status_of s first ≡ waiting
    → first ≢ fa
    → (s' : System) × (syscall_exit (suc fuel) code s ≡ ok (some s'))
      × (s'.pa_pid orphan ≡ s'.pid first)
      × (status_of s' orphan ≡ hanging)
      × (status_of s' first ≡ waiting)
syscall_exit-orphan fuel code s fa orphan first l listed child hangs one waits ne = (
  record (after_exit fa s) { exit_status = put_field s.exit_status me (code % 2 ^ 8) },
  syscall_exit-equation fuel code s fa l,
  init_adopt_lem (s.pid me) s.thread_list s.pa_pid orphan
      ∙ rw (listed, ap (λ p. p == s.pid me) child ∙ ==_refl (s.pid me)) (sym one),
  kept orphan (λ e. apart (sym hangs ∙ ap (status_of s) e ∙ l.waits))
        (λ e. still (sym hangs ∙ ap (status_of s) e ∙ l.valid.runs))
      ∙ hangs,
  kept first ne (λ e. running-waits (sym waits ∙ ap (status_of s) e ∙ l.valid.runs)) ∙ waits,
)
  where
    me : Thread
    me = s.kernel.current

    apart : hanging ≢ waiting
    apart e = ground arith

    still : hanging ≢ running
    still e = ground arith

    running-waits : waiting ≢ running
    running-waits e = ground arith

    kept : (t : Thread) → t ≢ fa → t ≢ me → status_of (after_exit fa s) t ≡ status_of s t
    kept t h h' = status-after s fa t ∙ ground (arith, h, h')
