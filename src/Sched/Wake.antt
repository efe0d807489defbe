-- ===== src/Sched/Wake.antt =====
-- Waking the idle thread, and the switch to the first ready thread.
use mmzzos.Base.{
  ℕ, suc, ◌≡◌, refl, ap, ◌⊎◌, inl, inr, true, false, List, [], ◌∷◌, ◌||◌, some, arith, ℕ_discrete,
  subst, ok,
}
use mmzzos.Dll.Shape.{Fresh}
use mmzzos.Sched.{
  Thread, running, ready, Pcb, Kernel, set_pcb, erase, with_status, unblock, process_delay, has,
  wake_idle_as, switch_to, is_blocked,
}
use mmzzos.Sched.Switch.{
  IsValid, Away, SameDelays, is_ready, is_delayed, is_due, set_pcb_self, target-set_pcb,
  ready-not-blocked, ready-not-delayed,
}
use mmzzos.Sched.Queues.{Queue, Fresh-status, Queue-set_pcb, Queue-erase}

-- With no thread ready the idle thread is blocked, and is made ready.
pub wake_idle_as-Away :
    (r : List Thread) (k : Kernel)
    → k.ready_list ≡ r
    → Away k
    → (k' : Kernel) × (wake_idle_as r k ≡ ok k')
      × (k'.ready_list ≡ elim r [ [] ↦ k.idle ∷ [] | x ∷ xs ↦ x ∷ xs ])
      × Away k'
      × SameDelays k k'
unfolding wake_idle_as unblock erase
wake_idle_as-Away (x ∷ r) k e v =
    (k, refl, e, v, record { heap = refl; time = refl; targets = λ t. refl })
wake_idle_as-Away [] k e v =
    let there : (has k.idle k.ready_list || (has k.idle k.block_list || has k.idle k.delay_list))
        ≡ true =
      ground (arith, v.idle_there) in
    (
      woken,
      rw there,
      rw e,
      record {
        queues = record {
          ready_queue = rw (e, erase) one_ready;
          block_queue = Queue-set_pcb is_blocked k.threads k.idle now _ old_block.0 old_block.1;
          delay_queue = Queue-set_pcb is_delayed k.threads k.idle now _ old_delay.0 old_delay.1;
        };
        idle_there = ground arith;
      },
      record {
        heap = refl;
        time = refl;
        targets = λ t. target-set_pcb k.threads k.idle now t refl;
      },
    )
  where
    now : Pcb
    now = record (k.threads k.idle) { status = ready }

    woken : Kernel
    woken = record k {
      threads = set_pcb k.threads k.idle now;
      ready_list = k.idle ∷ erase k.idle k.ready_list;
      block_list = erase k.idle k.block_list;
      delay_list = erase k.idle k.delay_list;
    }

    old_block :
        Queue is_blocked k.threads (erase k.idle k.block_list)
        × Fresh k.idle (erase k.idle k.block_list)
    old_block = Queue-erase is_blocked k.threads k.idle k.block_list v.queues.block_queue

    old_delay :
        Queue is_delayed k.threads (erase k.idle k.delay_list)
        × Fresh k.idle (erase k.idle k.delay_list)
    old_delay = Queue-erase is_delayed k.threads k.idle k.delay_list v.queues.delay_queue

    one_ready : Queue is_ready (set_pcb k.threads k.idle now) (k.idle ∷ [])
    one_ready = record {
      status = (rw (set_pcb_self k.threads k.idle now), tt);
      distinct = (tt, tt);
    }

-- Where no delayed thread is due `ProcessDelayThread` does nothing.
pub process_delay-idle :
    (fuel : ℕ) (k : Kernel) → is_due k ≡ false → process_delay (suc fuel) k ≡ some k
unfolding process_delay
process_delay-idle fuel k h = rw h

-- The switch takes the first ready thread out of its queue and makes it the current one.
pub switch_to-IsValid :
    (next : Thread) (r : List Thread) (k : Kernel)
    → k.ready_list ≡ next ∷ r
    → Away k
    → (k' : Kernel) × (switch_to (next ∷ r) k ≡ ok k') × (k'.current ≡ next) × IsValid k'
unfolding switch_to
switch_to-IsValid next r k e v = (
  record (with_status next running k) { ready_list = r; current = next },
  refl,
  refl,
  record {
    queues = record {
      ready_queue =
          Queue-set_pcb is_ready k.threads next _ r
            (record { status = q.status.1; distinct = q.distinct.1 }) q.distinct.0;
      block_queue = Queue-set_pcb is_blocked k.threads next _ k.block_list v.queues.block_queue fb;
      delay_queue = Queue-set_pcb is_delayed k.threads next _ k.delay_list v.queues.delay_queue fd;
    };
    runs = ap (λ (p : Pcb). p.status) (set_pcb_self k.threads next _);
    idle_there =
        home (subst (λ l. (has k.idle l || has k.idle k.block_list) ≡ true) e v.idle_there);
  },
)
  where
    q : Queue is_ready k.threads (next ∷ r)
    q = subst (λ l. Queue is_ready k.threads l) e v.queues.ready_queue

    fb : Fresh next k.block_list
    fb =
        Fresh-status is_blocked k.threads next k.block_list v.queues.block_queue.status
          (ready-not-blocked _ q.status.0)

    fd : Fresh next k.delay_list
    fd =
        Fresh-status is_delayed k.threads next k.delay_list v.queues.delay_queue.status
          (ready-not-delayed _ q.status.0)

    home :
        (has k.idle (next ∷ r) || has k.idle k.block_list) ≡ true
        → (next ≡ k.idle) ⊎ ((has k.idle r || has k.idle k.block_list) ≡ true)
    home h = elim (ℕ_discrete next k.idle) [ yes e ↦ inl e | no ne ↦ inr (ground arith) ]
