-- ===== src/Sched/Schedule.antt =====
-- `schedule` and its callers, where no delayed thread is due.
use mmzzos.Base.{
  ℕ, suc, ◌+◌, ◌-◌, ◌%◌, ◌^◌, ◌<◌, ◌≡◌, refl, ap, ◌∙◌, true, false, List, [], ◌∷◌, ◌++◌, ◌==◌, not,
  leb, some, if◌then◌else◌, arith, ok, ◌>>=◌, assert,
}
use mmzzos.Dll.Shape.{Fresh}
use mmzzos.Sched.{
  Thread, Status, running, Pcb, Kernel, set_pcb, exchange_to_ready, process_delay, put_away,
  switch_to, switch_next, go_on, finish, schedule, thread_block, is_blocked, returns,
  sleep_without_hang, timer_interrupt,
}
use mmzzos.Sched.Queues.{Fresh-status}
use mmzzos.Sched.Switch.{
  Queues, IsValid, Leaving, Away, SameDelays, is_due, is_due-same, is_ready, is_delayed,
  put_away-running, put_away-blocked, set_pcb_self, target-set_pcb, Queues-set_pcb,
}
use mmzzos.Sched.Wake.{wake_idle_as-Away, process_delay-idle, switch_to-IsValid}

-- The first of a queue, `d` if it is empty.
abbrev pub first_of : Thread → List Thread → Thread
first_of d [] = d
first_of d (x ∷ _) = x

-- The switch behind `wake_idle`, by the ready queue before it.
switch_next_lem :
    (r : List Thread) (idle : Thread) (k : Kernel)
    → k.ready_list ≡ elim r [ [] ↦ idle ∷ [] | x ∷ xs ↦ x ∷ xs ]
    → Away k
    → (k' : Kernel) × (switch_next k ≡ ok k') × (k'.current ≡ first_of idle r) × IsValid k'
switch_next_lem [] idle k e v =
    let (k', switched, next, valid) = switch_to-IsValid idle [] k e v in
    (k', ap (λ l. switch_to l k) e ∙ switched, next, valid)
switch_next_lem (x ∷ r) idle k e v =
    let (k', switched, next, valid) = switch_to-IsValid x r k e v in
    (k', ap (λ l. switch_to l k) e ∙ switched, next, valid)

-- The part of `schedule` behind the first test, once the current thread is put away.
go_on_lem :
    (fuel : ℕ) (k : Kernel)
    → Away k
    → is_due k ≡ false
    → (k' : Kernel) × (go_on (suc fuel) (some k) ≡ ok (some k'))
      × (k'.current ≡ first_of k.idle k.ready_list)
      × IsValid k'
go_on_lem fuel k v idle =
    let (k1, woken, r, a, same) = wake_idle_as-Away k.ready_list k refl v in
    let (k2, switched, next, valid) = switch_next_lem k.ready_list k.idle k1 r a in
    (
      k2,
      ap (λ res. res >>= λ k'. finish (process_delay (suc fuel) k')) woken
          ∙ ap finish (process_delay-idle fuel k1 (is_due-same k k1 same ∙ idle))
          ∙ ap (λ res. res >>= λ next. ok (some next)) switched,
      next,
      valid,
    )

pub schedule_of :
    (fuel : ℕ) (k k1 : Kernel)
    → k.interrupts ≡ false
    → put_away fuel k ≡ ok (some k1)
    → schedule fuel k ≡ go_on fuel (some k1)
unfolding schedule
schedule_of fuel k k1 off away =
    ap (λ i. assert (not i) >>= λ _. put_away fuel k >>= go_on fuel) off
    ∙ ap (λ res. res >>= go_on fuel) away

-- The current thread of a valid kernel stands in no queue, so its table entry may change.
IsValid-Leaving :
    (k : Kernel) (p : Pcb)
    → IsValid k
    → Leaving (record k { threads = set_pcb k.threads k.current p; interrupts = false })
IsValid-Leaving k p v = record {
  queues = record {
    ready_queue = w.ready_queue;
    block_queue = w.block_queue;
    delay_queue = w.delay_queue;
  };
  no_ready = fr;
  no_block = fb;
  no_delay = fd;
  idle_there = v.idle_there;
}
  where
    q : Queues k
    q = v.queues

    fr : Fresh k.current k.ready_list
    fr =
        Fresh-status is_ready k.threads k.current k.ready_list q.ready_queue.status
          (ap is_ready v.runs)

    fb : Fresh k.current k.block_list
    fb =
        Fresh-status is_blocked k.threads k.current k.block_list q.block_queue.status
          (ap is_blocked v.runs)

    fd : Fresh k.current k.delay_list
    fd =
        Fresh-status is_delayed k.threads k.current k.delay_list q.delay_queue.status
          (ap is_delayed v.runs)

    w : Queues (record k { threads = set_pcb k.threads k.current p })
    w = Queues-set_pcb k k.current p q fr fb fd

-- The table entry of the current thread and the time after the timer counted.
abbrev pub counted : Kernel → Kernel
counted k =
    let p = k.threads k.current in
    record k {
      system_ticks = (k.system_ticks + 1) % 2 ^ 32;
      threads =
          set_pcb k.threads k.current (record p { total_ticks = (p.total_ticks + 1) % 2 ^ 32 });
    }

counted-Leaving : (k : Kernel) → IsValid k → Leaving (counted k)
counted-Leaving k v =
    let w = IsValid-Leaving k _ v in
    record {
      queues = record {
        ready_queue = w.queues.ready_queue;
        block_queue = w.queues.block_queue;
        delay_queue = w.queues.delay_queue;
      };
      no_ready = w.no_ready;
      no_block = w.no_block;
      no_delay = w.no_delay;
      idle_there = v.idle_there;
    }

-- In a valid kernel with no delayed thread due, a thread that blocks with one of the three blocked
-- statuses is followed by the first ready thread, or by the idle thread if none is ready, and the
-- kernel is valid again.
pub thread_block_lem :
    (fuel : ℕ) (status : Status) (k : Kernel)
    → IsValid k
    → is_blocked status ≡ true
    → is_due k ≡ false
    → (k' : Kernel) × (thread_block (suc fuel) status k ≡ ok (some k'))
      × (k'.current ≡ first_of k.idle k.ready_list)
      × IsValid k'
unfolding thread_block
thread_block_lem fuel status k v st idle =
    let p = record (k.threads k.current) { status = status } in
    let k0 : Kernel = record k { threads = set_pcb k.threads k.current p; interrupts = false } in
    let k1 : Kernel = record k0 { block_list = k.block_list ++ k.current ∷ [] } in
    let same : SameDelays k k0 = record {
      heap = refl;
      time = refl;
      targets = λ t. target-set_pcb k.threads k.current p t refl;
    } in
    let s : (k0.threads k.current).status ≡ status =
      ap (λ (p : Pcb). p.status) (set_pcb_self k.threads k.current p) in
    let (away, a, same') =
      put_away-blocked (suc fuel) k0 (IsValid-Leaving k p v) (ap is_blocked s ∙ st) in
    let (k', done, next, valid) =
      go_on_lem fuel k1 a (is_due-same k0 k1 same' ∙ is_due-same k k0 same ∙ idle) in
    (k', rw (st, v.runs) (schedule_of (suc fuel) k0 k1 refl away ∙ done), next, valid)

first_of-snoc : (d t : Thread) (r : List Thread) → first_of d (r ++ t ∷ []) ≡ first_of t r
first_of-snoc d t [] = refl
first_of-snoc d t (x ∷ r) = refl

-- After a timer interrupt that switches nothing.
abbrev pub ticked : Kernel → Kernel
ticked k =
    let p = k.threads k.current in
    let p' = record p { total_ticks = (p.total_ticks + 1) % 2 ^ 32; ticks = p.ticks - 1 } in
    record k {
      system_ticks = (k.system_ticks + 1) % 2 ^ 32;
      threads = set_pcb k.threads k.current p';
    }

timer_interrupt_as :
    (fuel : ℕ) (k : Kernel)
    → (k.threads k.current).stack_magic ≡ 1190650
    → timer_interrupt fuel k ≡ (
        if (k.threads k.current).ticks == 0
        then schedule fuel (counted k)
        else ok (some (ticked k)))
unfolding timer_interrupt
timer_interrupt_as fuel k magic =
    ap
      (λ m. assert (m == 1190650) >>= λ _.
        if (k.threads k.current).ticks == 0
        then schedule fuel (counted k)
        else ok (some (ticked k)))
      magic

-- In a valid kernel with interrupts off and no delayed thread due once the time is counted, the timer
-- interrupt switches from a running thread whose ticks are used up to the first ready thread, or to the
-- thread itself if none is ready, and the kernel is valid again.
pub timer_interrupt-switches :
    (fuel : ℕ) (k : Kernel)
    → IsValid k
    → k.interrupts ≡ false
    → (k.threads k.current).stack_magic ≡ 1190650
    → (k.threads k.current).ticks ≡ 0
    → is_due (counted k) ≡ false
    → (k' : Kernel) × (timer_interrupt (suc fuel) k ≡ ok (some k'))
      × (k'.current ≡ first_of k.current k.ready_list)
      × IsValid k'
unfolding exchange_to_ready
timer_interrupt-switches fuel k v off magic spent idle =
    let k0 = counted k in
    let k1 = exchange_to_ready k.current k0 in
    let p = record (k.threads k.current) {
      total_ticks = ((k.threads k.current).total_ticks + 1) % 2 ^ 32;
    } in
    let s : (k0.threads k.current).status ≡ running =
      ap (λ (p : Pcb). p.status) (set_pcb_self k.threads k.current p) ∙ v.runs in
    let (away, a, same) = put_away-running (suc fuel) k0 (counted-Leaving k v) s in
    let (k', done, next, valid) = go_on_lem fuel k1 a (is_due-same k0 k1 same ∙ idle) in
    (
      k',
      timer_interrupt_as (suc fuel) k magic
          ∙ ap (λ t. if t == 0 then schedule (suc fuel) k0 else ok (some (ticked k))) spent
          ∙ (schedule_of (suc fuel) k0 k1 off away ∙ done),
      next ∙ first_of-snoc k.idle k.current k.ready_list,
      valid,
    )

-- With a wait below the range of the clock left, `SleepWithoutHang` returns at once.
pub sleep_without_hang_lem :
    (fuel msecond : ℕ) (k : Kernel)
    → 0 < msecond
    → k.system_ticks + msecond < 2 ^ 32
    → sleep_without_hang fuel msecond k ≡ returns
unfolding sleep_without_hang
sleep_without_hang_lem fuel msecond k some_time fits =
    let e : leb ((k.system_ticks + msecond) % 2 ^ 32) k.system_ticks ≡ false = ground arith in rw e
