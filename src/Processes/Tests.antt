-- ===== src/Processes/Tests.antt =====
-- Process 7 with a parent that waits, a child that hangs, and process 1 that waits too; the theorems on exit and
-- wait applied to them.
use mmzzos.Base.{
  ◌+◌, ◌-◌, ◌^◌, ◌≡◌, refl, false, [], ◌∷◌, ◌==◌, if◌then◌else◌, arith, inr, some, ok,
}
use mmzzos.MinHeap.{MinHeap}
use mmzzos.Sched.{Thread, Status, running, blocked, hanging, waiting, ready, Pcb, erase}
use mmzzos.Sched.Switch.{IsValid}
use mmzzos.Processes.{System, find_target_pcb, returns, status_of, syscall_exit, wait_round}
use mmzzos.Processes.Exit.{IsLeaving, adopted, syscall_exit_lem}
use mmzzos.Processes.Wait.{
  CanWait, WaitSpec, first_where, any, is_child, is_dead_child, wait_round_lem,
}
use mmzzos.Processes.Handover.{IsLast, exit-wait_round}

abbrev pcb : Status → Pcb
pcb s = record {
  status = s;
  priority = 31;
  ticks = 3;
  total_ticks = 7;
  target_delay_time = 0;
  stack_magic = 1190650;
}

abbrev status_in : Thread → Status
status_in t =
    if t == 0
    then blocked
    else if t == 1
    then running
    else if t == 2
    then waiting
    else if t == 3
    then waiting
    else if t == 4
    then hanging
    else ready

abbrev no_delays : MinHeap Thread
no_delays = record { max_cnt = 8; cur_cnt = 0; buf = λ i. 0 }

-- Thread 0 is the idle thread.
abbrev system : System
system = record {
  kernel = record {
    threads = λ t. pcb (status_in t);
    ready_list = 5 ∷ [];
    block_list = 0 ∷ 2 ∷ 3 ∷ 4 ∷ [];
    delay_list = [];
    delay_heap = no_delays;
    system_ticks = 90;
    current = 1;
    idle = 0;
    interrupts = false;
  };
  thread_list = 3 ∷ 0 ∷ 2 ∷ 1 ∷ 4 ∷ 5 ∷ [];
  pid = λ t. if t == 1 then 7 else if t == 2 then 5 else if t == 3 then 1 else t + 10;
  pa_pid = λ t. if t == 1 then 5 else if t == 2 then 1 else if t == 4 then 7 else 2 ^ 16 - 1;
  exit_status = λ t. 0;
}

system-IsValid : IsValid system.kernel
system-IsValid = record {
  queues = record {
    ready_queue = record { status = (refl, tt); distinct = (tt, tt) };
    block_queue = record { status = (refl, (refl, (refl, (refl, tt)))); distinct = ground arith };
    delay_queue = record { status = tt; distinct = tt };
  };
  runs = refl;
  idle_there = inr refl;
}

system-IsLeaving : IsLeaving system 2
unfolding find_target_pcb
system-IsLeaving = record {
  valid = system-IsValid;
  idle = refl;
  parent = refl;
  waits = refl;
  blocked = refl;
  small = omega arith;
}

system-CanWait : CanWait system
system-CanWait = record {
  valid = system-IsValid;
  idle = refl;
  blocked = λ t h. ground arith;
  no_idle = λ h. ground arith;
}

system-IsLast : IsLast system 2
system-IsLast = record {
  leaving = system-IsLeaving;
  can_wait = system-CanWait;
  listed = refl;
  child = refl;
  apart = omega arith;
  busy = omega arith;
  alone = λ t. ground arith;
}

syscall_exit_lem_example :
    (s' : System) × (syscall_exit 1 300 system ≡ ok (some s'))
    × IsValid s'.kernel
    × (s'.kernel.current ≡ 2)
    × (s'.exit_status 1 ≡ 44)
    × ((t : Thread)
        → status_of s' t
          ≡ (if t == 2 then running else if t == 1 then hanging else status_of system t))
    × ((t : Thread) → s'.pa_pid t ≡ adopted system t)
syscall_exit_lem_example = syscall_exit_lem 0 300 system 2 system-IsLeaving

wait_round_lem_example :
    WaitSpec 1 system
      (first_where (is_dead_child system 7) (3 ∷ 0 ∷ 2 ∷ 1 ∷ 4 ∷ 5 ∷ []))
      (any (is_child system 7) (3 ∷ 0 ∷ 2 ∷ 1 ∷ 4 ∷ 5 ∷ []))
wait_round_lem_example = wait_round_lem 0 system system-CanWait

exit-wait_round_example :
    (s' : System) × (s'' : System) × (syscall_exit 1 200 system ≡ ok (some s'))
    × (s'.kernel.current ≡ 2)
    × (wait_round 1 s' ≡ ok (some (returns 7 (some (2 ^ 32 - 56)) s'')))
    × IsValid s''.kernel
    × (s''.thread_list ≡ 3 ∷ 0 ∷ 2 ∷ 4 ∷ 5 ∷ [])
unfolding erase
exit-wait_round_example = exit-wait_round 0 200 system 2 system-IsLast
