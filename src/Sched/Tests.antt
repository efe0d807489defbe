-- ===== src/Sched/Tests.antt =====
-- Three threads of kernel/thread.c, and the theorems of the scheduler on them.
use mmzzos.Base.{refl, ◌≡◌, false, [], ◌∷◌, inr, some, ok, ◌==◌, if◌then◌else◌}
use mmzzos.MinHeap.{MinHeap}
use mmzzos.Sched.{
  Thread, Status, running, blocked, ready, Pcb, Kernel, thread_block, timer_interrupt,
}
use mmzzos.Sched.Switch.{IsValid}
use mmzzos.Sched.Schedule.{thread_block_lem, timer_interrupt-switches}

abbrev pcb : Status → Pcb
pcb s = record {
  status = s;
  priority = 31;
  ticks = 0;
  total_ticks = 7;
  target_delay_time = 0;
  stack_magic = 1190650;
}

abbrev table : Thread → Pcb
table t = if t == 0 then pcb blocked else if t == 1 then pcb running else pcb ready

abbrev no_delays : MinHeap Thread
no_delays = record { max_cnt = 8; cur_cnt = 0; buf = λ i. 0 }

-- The idle thread 0 is blocked, thread 1 runs and thread 2 is ready.
abbrev kernel : Kernel
kernel = record {
  threads = table;
  ready_list = 2 ∷ [];
  block_list = 0 ∷ [];
  delay_list = [];
  delay_heap = no_delays;
  system_ticks = 90;
  current = 1;
  idle = 0;
  interrupts = false;
}

kernel-IsValid : IsValid kernel
kernel-IsValid = record {
  queues = record {
    ready_queue = record { status = (refl, tt); distinct = (tt, tt) };
    block_queue = record { status = (refl, tt); distinct = (tt, tt) };
    delay_queue = record { status = tt; distinct = tt };
  };
  runs = refl;
  idle_there = inr refl;
}

thread_block_lem_example :
    (k' : Kernel) × (thread_block 1 blocked kernel ≡ ok (some k')) × (k'.current ≡ 2) × IsValid k'
thread_block_lem_example = thread_block_lem 0 blocked kernel kernel-IsValid refl refl

timer_interrupt-switches_example :
    (k' : Kernel) × (timer_interrupt 1 kernel ≡ ok (some k')) × (k'.current ≡ 2) × IsValid k'
timer_interrupt-switches_example =
    timer_interrupt-switches 0 kernel kernel-IsValid refl refl refl refl
