-- ===== src/Processes.antt =====
-- userprog/wait_exit.c: syscall_exit and syscall_wait, and ThreadExit and PidAllocate of kernel/thread.c, on the
-- scheduler of `Sched`. Memory, page tables and open files are no part of this state, so what acts on them
-- alone stands elsewhere or is left out: the memory part of `ReleaseProcessResource` is in `Pages.Teardown`, the
-- files that it closes and the `free_page` of ThreadExit are left out. Interrupts are off in a system call.
mod Tables
mod Blocking
mod Exit
mod Wait
mod Handover
mod Tests
use mmzzos.Base.{
  ℕ, zero, suc, ◌+◌, ◌-◌, ◌%◌, ◌^◌, Bool, true, false, ◌||◌, not, Option, none, some, List, [], ◌∷◌,
  ◌==◌, ltb, if◌then◌else◌, Result, ok, panic, fault, ◌>>=◌, ◌>>◌, assert,
}
use mmzzos.Sched.{
  Thread, Status, hanging, waiting, died, Kernel, with_status, unlink, has, erase, unblock,
  schedule, thread_block,
}

-- The queues, `ThreadList`, and the fields of `struct PCB` that exit and wait use. A `pid_t` has 16 bits and
-- an exit status 8.
pub record System : Type 0 where
  pub kernel : Kernel
  pub thread_list : List Thread
  pub pid : Thread → ℕ
  pub pa_pid : Thread → ℕ
  pub exit_status : Thread → ℕ

unfoldable pub put_field : (Thread → ℕ) → Thread → ℕ → Thread → ℕ
put_field f t v u = if u == t then v else f u

abbrev pub status_of : System → Thread → Status
status_of s t = (s.kernel.threads t).status

abbrev pub is_hanging : Status → Bool
is_hanging hanging = true
is_hanging _ = false

abbrev pub is_waiting : Status → Bool
is_waiting waiting = true
is_waiting _ = false

-- `PidAllocate` with its static counter; the mutex keeps the calls apart.
unfoldable pub pid_allocate : ℕ → ℕ × ℕ
pid_allocate pid = let next = (pid + 1) % 2 ^ 16 in (next, next)

-- `InitAdopt` of the processes whose parent is `pid`, on the parents.
unfoldable pub init_adopt : ℕ → List Thread → (Thread → ℕ) → Thread → ℕ
unfolding put_field
init_adopt pid [] f = f
init_adopt pid (child ∷ rest) f =
    init_adopt pid rest (if f child == pid then put_field f child 1 else f)

-- `FindTargetPCB`
unfoldable pub find_target_pcb : ℕ → List Thread → (Thread → ℕ) → Option Thread
find_target_pcb pid [] f = none
find_target_pcb pid (t ∷ rest) f =
    let later = find_target_pcb pid rest f in if f t == pid then some t else later

-- `ThreadExit` without the call of the scheduler. `ListRemove` wants a thread that stands in a queue.
unfoldable pub thread_exit : Thread → System → Result System
thread_exit t s =
    let k = s.kernel in
    if has t k.ready_list || (has t k.block_list || has t k.delay_list)
    then ok
        (record s { kernel = unlink t (with_status t died k); thread_list = erase t s.thread_list })
    else fault

-- What one pass of syscall_wait over `ThreadList` finds for the parent.
pub data Scan : Type 0 where
  child : Thread → Scan
  alive : Scan
  childless : Scan

unfoldable pub scan_children : System → ℕ → Bool → List Thread → Scan
scan_children s parent flag [] = if flag then alive else childless
scan_children s parent flag (t ∷ rest) =
    let same = scan_children s parent flag rest in
    let seen = scan_children s parent true rest in
    if s.pa_pid t == parent then if is_hanging (status_of s t) then child t else seen else same

-- An `int8_t` read into an `int32_t`.
abbrev pub sign_extend : ℕ → ℕ
sign_extend v = if ltb v 128 then v else v + (2 ^ 32 - 2 ^ 8)

-- A round of the loop of syscall_wait: it returns a pid, -1 as 65535, and the status that it wrote, or it
-- sleeps; then the next round is what the process does first when it runs again.
pub data Waited : Type 0 where
  returns : ℕ → Option ℕ → System → Waited
  sleeps : System → Waited

abbrev pub with_kernel : System → Option Kernel → Option System
with_kernel s none = none
with_kernel s (some k) = some (record s { kernel = k })

abbrev pub asleep : Option System → Option Waited
asleep none = none
asleep (some s) = some (sleeps s)

unfoldable pub wait_on : ℕ → System → Scan → Result (Option Waited)
unfolding thread_exit
wait_on fuel s (child t) = do
  s' ← thread_exit t s
  ok (some (returns (s.pid t) (some (sign_extend (s.exit_status t))) s'))
wait_on fuel s childless = ok (some (returns (2 ^ 16 - 1) none s))
wait_on fuel s alive = do k ← thread_block fuel waiting s.kernel; ok (asleep (with_kernel s k))

unfoldable pub wait_round : ℕ → System → Result (Option Waited)
unfolding wait_on scan_children
wait_round fuel s = wait_on fuel s (scan_children s (s.pid s.kernel.current) false s.thread_list)

-- `if(fa->status==WAITING)ThreadUnBlock(fa);`
unfoldable pub wake_parent : Thread → Kernel → Result Kernel
wake_parent fa k = if is_waiting (k.threads fa).status then unblock fa k else ok k

-- syscall_exit behind the search for the parent.
unfoldable pub exit_to : ℕ → System → Option Thread → Result (Option System)
unfolding wake_parent
exit_to fuel s none = panic
exit_to fuel s (some fa) = do
  k ← wake_parent fa s.kernel
  k' ← thread_block fuel hanging k
  ok (with_kernel s k')

-- `pa_pid!=-1` compares an unsigned field with an `int`.
unfoldable pub syscall_exit : ℕ → ℕ → System → Result (Option System)
unfolding init_adopt find_target_pcb exit_to put_field
syscall_exit fuel code s =
    let me = s.kernel.current in
    let adopted = init_adopt (s.pid me) s.thread_list s.pa_pid in
    do
      assert (not (s.pa_pid me == 2 ^ 32 - 1))
      let s' = record s {
        exit_status = put_field s.exit_status me (code % 2 ^ 8);
        pa_pid = adopted;
      }
      exit_to fuel s' (find_target_pcb (adopted me) s.thread_list s.pid)
