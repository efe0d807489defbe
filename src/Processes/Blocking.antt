-- ===== src/Processes/Blocking.antt =====
-- Waking a waiting process, and blocking behind it.
use mmzzos.Base.{
  ℕ, suc, ◌≡◌, ◌≢◌, refl, sym, ap, ◌∙◌, true, false, ◌||◌, List, [], ◌∷◌, ◌++◌, ◌==◌, arith,
  Bool-cases, inl, inr, some, ok, ◌>>=◌, ℕ_discrete,
}
use mmzzos.Dll.Shape.{Fresh}
use mmzzos.Sched.{
  Thread, Status, running, ready, Pcb, Kernel, set_pcb, erase, with_status, unlink, has, unblock,
  thread_block, is_blocked, put_away, put_away_as, wake_idle_as, go_on, finish, process_delay,
  switch_to,
}
use mmzzos.Sched.Queues.{Queue, Queue-erase, Queue-set_pcb}
use mmzzos.Sched.Switch.{
  IsValid, is_ready, is_delayed, is_due, is_due-same, SameDelays, target-set_pcb, set_pcb_self,
  put_away_as-blocked,
}
use mmzzos.Sched.Schedule.{schedule_of}
use mmzzos.Sched.Wake.{process_delay-idle}

-- `k` with the blocked thread `t` at the front of the ready queue.
abbrev pub woken : Thread → Kernel → Kernel
woken t k =
    let k' = unlink t (with_status t ready k) in record k' { ready_list = t ∷ k'.ready_list }

pub has-erase : (x t : Thread) (xs : List Thread) → x ≢ t → has x (erase t xs) ≡ has x xs
unfolding erase
has-erase x t [] ne = refl
has-erase x t (y ∷ ys) ne = elim (Bool-cases (y == t)) [
  | inl e ↦ rw e (ground (arith, ne))
  | inr e ↦ rw e (ground (arith, has-erase x t ys ne))
]

blocked-not-running : (s : Status) → is_blocked s ≡ true → s ≢ running
blocked-not-running s h e = ground arith

pub set_pcb_ne :
    (f : Thread → Pcb) (t : Thread) (p : Pcb) (u : Thread) → u ≢ t → set_pcb f t p u ≡ f u
unfolding set_pcb
set_pcb_ne f t p u ne = let e : (u == t) ≡ false = ground arith in rw e refl

pub unblock-IsValid :
    (k : Kernel) (t : Thread)
    → IsValid k
    → is_blocked (k.threads t).status ≡ true
    → has t k.block_list ≡ true
    → (unblock t k ≡ ok (woken t k)) × IsValid (woken t k)
unfolding unblock
unblock-IsValid k t v st there = (
  rw linked refl,
  record {
    queues = record {
      ready_queue = record {
        status =
            (ap (λ (p : Pcb). is_ready p.status) (set_pcb_self k.threads t now), ready_old.status);
        distinct = (old_ready.1, ready_old.distinct);
      };
      block_queue = Queue-set_pcb is_blocked k.threads t now _ old_block.0 old_block.1;
      delay_queue = Queue-set_pcb is_delayed k.threads t now _ old_delay.0 old_delay.1;
    };
    runs = ap (λ (p : Pcb). p.status) (set_pcb_ne k.threads t now k.current other) ∙ v.runs;
    idle_there = elim (ℕ_discrete k.idle t) [
      | yes e ↦ inr (ground arith)
      | no ne ↦ elim v.idle_there [
        | inl e ↦ inl e
        | inr h ↦ inr (
            ground
              (arith, h, has-erase k.idle t k.ready_list ne, has-erase k.idle t k.block_list ne))
      ]
    ];
  },
)
  where
    linked : (has t k.ready_list || (has t k.block_list || has t k.delay_list)) ≡ true
    linked = ground (arith, there)

    now : Pcb
    now = record (k.threads t) { status = ready }

    other : k.current ≢ t
    other e =
        blocked-not-running (k.threads t).status st
          (ap (λ u. (k.threads u).status) (sym e) ∙ v.runs)

    old_ready : Queue is_ready k.threads (erase t k.ready_list) × Fresh t (erase t k.ready_list)
    old_ready = Queue-erase is_ready k.threads t k.ready_list v.queues.ready_queue

    ready_old : Queue is_ready (set_pcb k.threads t now) (erase t k.ready_list)
    ready_old = Queue-set_pcb is_ready k.threads t now _ old_ready.0 old_ready.1

    old_block : Queue is_blocked k.threads (erase t k.block_list) × Fresh t (erase t k.block_list)
    old_block = Queue-erase is_blocked k.threads t k.block_list v.queues.block_queue

    old_delay : Queue is_delayed k.threads (erase t k.delay_list) × Fresh t (erase t k.delay_list)
    old_delay = Queue-erase is_delayed k.threads t k.delay_list v.queues.delay_queue

-- `k` after its current thread blocked with `status` and `next`, the first ready thread, came to run.
abbrev pub behind : Status → Thread → List Thread → Kernel → Kernel
behind status next rest k =
    let k0 = with_status k.current status k in
    let k1 = record k0 { interrupts = false; block_list = k.block_list ++ k.current ∷ [] } in
    record (with_status next running k1) { ready_list = rest; current = next }

pub thread_block-behind :
    (fuel : ℕ) (status : Status) (next : Thread) (rest : List Thread) (k : Kernel)
    → is_blocked status ≡ true
    → (k.threads k.current).status ≡ running
    → k.ready_list ≡ next ∷ rest
    → is_due k ≡ false
    → thread_block (suc fuel) status k ≡ ok (some (behind status next rest k))
unfolding thread_block wake_idle_as switch_to
thread_block-behind fuel status next rest k st runs r idle =
    let p = record (k.threads k.current) { status = status } in
    let k0 : Kernel = record k { threads = set_pcb k.threads k.current p; interrupts = false } in
    let k1 : Kernel = record k0 { block_list = k.block_list ++ k.current ∷ [] } in
    let s : (k0.threads k.current).status ≡ status =
      ap (λ (p : Pcb). p.status) (set_pcb_self k.threads k.current p) in
    let same : SameDelays k k1 = record {
      heap = refl;
      time = refl;
      targets = λ t. target-set_pcb k.threads k.current p t refl;
    } in
    let away : put_away (suc fuel) k0 ≡ ok (some k1) =
      ap (λ st. put_away_as st (suc fuel) k0) s ∙ put_away_as-blocked status (suc fuel) k0 st in
    let on : go_on (suc fuel) (some k1) ≡ ok (some (behind status next rest k)) =
      ap (λ l. wake_idle_as l k1 >>= λ k'. finish (process_delay (suc fuel) k')) r
      ∙ ap finish (process_delay-idle fuel k1 (is_due-same k k1 same ∙ idle))
      ∙ ap (λ l. switch_to l k1 >>= λ n. ok (some n)) r in
    rw (st, runs) (schedule_of (suc fuel) k0 k1 refl away ∙ on)
