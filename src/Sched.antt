-- ===== src/Sched.antt =====
-- kernel/thread.c: the scheduler. The queues are the sequences of threads that the lists of
-- lib/kernel/list.c hold, as `Dll.Laws` has them; a thread stands in the one with the node `tagS`, so
-- at most in one. `RunningThread` is a field, and `SwitchTo` sets it.
-- The delayed threads also stand in the heap of lib/kernel/minHeap.c, ordered by their target time.
pub mod Queues
pub mod Switch
pub mod Wake
pub mod Schedule
mod Tests
use mmzzos.Base.{
  ℕ, zero, suc, ◌+◌, ◌-◌, ◌%◌, ◌^◌, Bool, true, false, ◌&&◌, ◌||◌, Option, none, some, List, [],
  ◌∷◌, ◌++◌, ◌==◌, ltb, leb, if◌then◌else◌, Result, ok, panic, fault, ◌>>=◌, ◌>>◌, assert, not,
}
use mmzzos.MinHeap
use mmzzos.MinHeap.{MinHeap}

abbrev pub Thread : Type 0
Thread = ℕ

-- `enum ThreadStatus`
pub data Status : Type 0 where
  running blocked hanging waiting delayed ready died : Status

-- The fields of `struct PCB` that the scheduler reads or writes.
pub record Pcb : Type 0 where
  pub status : Status
  pub priority : ℕ
  pub ticks : ℕ
  pub total_ticks : ℕ
  pub target_delay_time : ℕ
  pub stack_magic : ℕ

pub record Kernel : Type 0 where
  pub threads : Thread → Pcb
  pub ready_list : List Thread
  pub block_list : List Thread
  pub delay_list : List Thread
  pub delay_heap : MinHeap Thread
  pub system_ticks : ℕ
  pub current : Thread
  pub idle : Thread
  pub interrupts : Bool

unfoldable pub set_pcb : (Thread → Pcb) → Thread → Pcb → Thread → Pcb
set_pcb f t p u = if u == t then p else f u

abbrev pub with_status : Thread → Status → Kernel → Kernel
with_status t s k = record k { threads = set_pcb k.threads t (record (k.threads t) { status = s }) }

-- `ListRemove` of the node of one thread.
unfoldable pub erase : Thread → List Thread → List Thread
erase t [] = []
erase t (x ∷ xs) = if x == t then xs else x ∷ erase t xs

-- `ListRemove(list,&(pcb->tagS))` uses the node alone, so it takes the thread out of the queue that
-- the thread stands in, whatever list is named.
abbrev pub unlink : Thread → Kernel → Kernel
unlink t k = record k {
  ready_list = erase t k.ready_list;
  block_list = erase t k.block_list;
  delay_list = erase t k.delay_list;
}

unfoldable pub allocate_ticks : ℕ → ℕ
allocate_ticks priority = priority

unfoldable pub exchange_to_ready : Thread → Kernel → Kernel
exchange_to_ready t k =
    let p = k.threads t in
    record k {
      ready_list = k.ready_list ++ t ∷ [];
      threads =
          set_pcb k.threads t (record p { ticks = allocate_ticks p.priority; status = ready });
    }

abbrev pub has : Thread → List Thread → Bool
has t [] = false
has t (x ∷ xs) = (x == t) || has t xs

-- `ThreadUnBlock`. The node of a thread that stands in no queue has no neighbours to join.
unfoldable pub unblock : Thread → Kernel → Result Kernel
unblock t k =
    let k' = unlink t (with_status t ready k) in
    if has t k.ready_list || (has t k.block_list || has t k.delay_list)
    then ok (record k' { ready_list = t ∷ k'.ready_list })
    else fault

-- `DelayMinHeapCMP`
unfoldable pub delay_cmp : (Thread → Pcb) → Thread → Thread → Bool
delay_cmp f a b = ltb (f a).target_delay_time (f b).target_delay_time

-- `ProcessDelayThread`, on fuel for its loop and for the heap; `none` means that it has not ended.
unfoldable pub process_delay : ℕ → Kernel → Option Kernel
process_delay zero k = none
process_delay (suc fuel) k =
    let heap = k.delay_heap in
    let first = heap.buf 1 in
    let expired =
      not (heap.cur_cnt == 0) && leb (k.threads first).target_delay_time k.system_ticks in
    let next = λ (h : MinHeap Thread).
      let k' = record k { delay_heap = h } in
      process_delay fuel
        (exchange_to_ready first (record k' { delay_list = erase first k.delay_list })) in
    let popped = MinHeap.pop (delay_cmp k.threads) (suc fuel) heap in
    if expired then (elim popped [ ok (some (_, h)) ↦ next h | _ ↦ none ]) else some k

abbrev pub settle : Kernel → Option (MinHeap Thread) → Option Kernel
settle k none = none
settle k (some h) = some (record k { delay_heap = h })

-- What `schedule` does with the thread that leaves the processor, by its status.
unfoldable pub put_away_as : Status → ℕ → Kernel → Result (Option Kernel)
put_away_as running fuel k = ok (some (exchange_to_ready k.current k))
put_away_as blocked fuel k = ok (some (record k { block_list = k.block_list ++ k.current ∷ [] }))
put_away_as hanging fuel k = ok (some (record k { block_list = k.block_list ++ k.current ∷ [] }))
put_away_as waiting fuel k = ok (some (record k { block_list = k.block_list ++ k.current ∷ [] }))
put_away_as delayed fuel k = do
  let k' = record k { delay_list = k.delay_list ++ k.current ∷ [] }
  h ← MinHeap.insert (delay_cmp k.threads) fuel k.delay_heap k.current
  ok (settle k' h)
put_away_as ready fuel k = ok (some k)
put_away_as died fuel k = ok (some k)

abbrev pub put_away : ℕ → Kernel → Result (Option Kernel)
put_away fuel k = put_away_as (k.threads k.current).status fuel k

-- `if(ListEmpty(&ReadyList))ThreadUnBlock(idle_task);`, by the ready queue.
unfoldable pub wake_idle_as : List Thread → Kernel → Result Kernel
wake_idle_as [] k = unblock k.idle k
wake_idle_as (_ ∷ _) k = ok k

abbrev pub wake_idle : Kernel → Result Kernel
wake_idle k = wake_idle_as k.ready_list k

-- `ListFront`, `ListPopFront` and the switch, by the ready queue. `ProcessActivate` loads the page
-- table and the stack of the next thread, which the scheduler does not read.
unfoldable pub switch_to : List Thread → Kernel → Result Kernel
switch_to [] k = panic
switch_to (next ∷ rest) k =
    ok (record (with_status next running k) { ready_list = rest; current = next })

abbrev pub switch_next : Kernel → Result Kernel
switch_next k = switch_to k.ready_list k

abbrev pub finish : Option Kernel → Result (Option Kernel)
finish none = ok none
finish (some k) = do next ← switch_next k; ok (some next)

abbrev pub go_on : ℕ → Option Kernel → Result (Option Kernel)
go_on fuel none = ok none
go_on fuel (some k) = do k' ← wake_idle k; finish (process_delay fuel k')

unfoldable pub schedule : ℕ → Kernel → Result (Option Kernel)
schedule fuel k = do assert (not k.interrupts); away ← put_away fuel k; go_on fuel away

-- `status==BLOCKED||status==HANGING||status==WAITING`
abbrev pub is_blocked : Status → Bool
is_blocked blocked = true
is_blocked hanging = true
is_blocked waiting = true
is_blocked _ = false

abbrev pub is_running : Status → Bool
is_running running = true
is_running _ = false

-- Up to the switch; the flag is put back when the thread comes to run again.
unfoldable pub thread_block : ℕ → Status → Kernel → Result (Option Kernel)
thread_block fuel status k = do
  assert (is_blocked status)
  assert (is_running (k.threads k.current).status)
  schedule fuel (record (with_status k.current status k) { interrupts = false })

unfoldable pub thread_yield : ℕ → Kernel → Result (Option Kernel)
thread_yield fuel k =
    let k' = with_status k.current ready k in
    schedule fuel (record k' { interrupts = false; ready_list = k.ready_list ++ k.current ∷ [] })

-- `syscall_sleep` of lib/user/syscallFun.c, up to the switch.
unfoldable pub syscall_sleep : ℕ → ℕ → Kernel → Result (Option Kernel)
syscall_sleep fuel msecond k =
    let p = record (k.threads k.current) {
      target_delay_time = (msecond + k.system_ticks) % 2 ^ 32;
      status = delayed;
    } in
    schedule fuel (record k { threads = set_pcb k.threads k.current p })

-- `timer_interrupt` of device/timer.c.
unfoldable pub timer_interrupt : ℕ → Kernel → Result (Option Kernel)
timer_interrupt fuel k = do
  let p = k.threads k.current
  assert (p.stack_magic == 1190650)
  let p' = record p { total_ticks = (p.total_ticks + 1) % 2 ^ 32 }
  let k' = record k {
    system_ticks = (k.system_ticks + 1) % 2 ^ 32;
    threads = set_pcb k.threads k.current p';
  }
  let tick = record k' { threads = set_pcb k.threads k.current (record p' { ticks = p.ticks - 1 }) }
  if p.ticks == 0 then schedule fuel k' else ok (some tick)

-- `SleepWithoutHang` up to its first yield.
pub data Nap : Type 0 where
  returns : Nap
  yields : Result (Option Kernel) → Nap

unfoldable pub sleep_without_hang : ℕ → ℕ → Kernel → Nap
sleep_without_hang fuel msecond k =
    let end = (k.system_ticks + msecond) % 2 ^ 32 in
    if leb end k.system_ticks then yields (thread_yield fuel k) else returns
