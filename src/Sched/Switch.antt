-- ===== src/Sched/Switch.antt =====
-- What holds of the queues between switches, and when the current thread is put away.
use mmzzos.Base.{
  ℕ, ◌≡◌, refl, sym, ap, ◌∙◌, ◌⊎◌, inl, inr, Bool, true, false, List, [], ◌∷◌, ◌++◌, ◌==◌, ◌||◌,
  ◌&&◌, not, leb, some, arith, Bool-cases, ==_iff, ==_refl, ok,
}
use mathlib.Core.Bool.{false≢true}
use mmzzos.Dll.Shape.{Fresh}
use mmzzos.Sched.{
  Thread, Status, running, blocked, hanging, waiting, delayed, ready, Pcb, Kernel, set_pcb,
  exchange_to_ready, allocate_ticks, put_away, put_away_as, has, is_blocked,
}
use mmzzos.Sched.Queues.{Queue, Queue-set_pcb, Queue-snoc}

abbrev pub is_ready : Status → Bool
is_ready ready = true
is_ready _ = false

abbrev pub is_delayed : Status → Bool
is_delayed delayed = true
is_delayed _ = false

-- Each queue holds threads of its status, each once.
pub record Queues (k : Kernel) : Type 0 where
  pub ready_queue : Queue is_ready k.threads k.ready_list
  pub block_queue : Queue is_blocked k.threads k.block_list
  pub delay_queue : Queue is_delayed k.threads k.delay_list

-- Between switches: the current thread runs, and the idle thread runs, is ready or is blocked.
pub record IsValid (k : Kernel) : Type 0 where
  pub queues : Queues k
  pub runs : (k.threads k.current).status ≡ running
  pub idle_there :
      (k.current ≡ k.idle) ⊎ ((has k.idle k.ready_list || has k.idle k.block_list) ≡ true)

-- The current thread stands in no queue, with a status that `schedule` puts it away by.
pub record Leaving (k : Kernel) : Type 0 where
  pub queues : Queues k
  pub no_ready : Fresh k.current k.ready_list
  pub no_block : Fresh k.current k.block_list
  pub no_delay : Fresh k.current k.delay_list
  pub idle_there :
      (k.current ≡ k.idle) ⊎ ((has k.idle k.ready_list || has k.idle k.block_list) ≡ true)

-- The current thread has been put away.
pub record Away (k : Kernel) : Type 0 where
  pub queues : Queues k
  pub idle_there : (has k.idle k.ready_list || has k.idle k.block_list) ≡ true

pub has-snoc : (t u : Thread) (xs : List Thread) → has t (xs ++ u ∷ []) ≡ (has t xs || (u == t))
has-snoc t u [] = ground arith
has-snoc t u (x ∷ xs) = ground (arith, has-snoc t u xs)

-- A change of the status of a thread that stands in no queue.
pub Queues-set_pcb :
    (k : Kernel) (t : Thread) (q : Pcb)
    → Queues k
    → Fresh t k.ready_list
    → Fresh t k.block_list
    → Fresh t k.delay_list
    → Queues (record k { threads = set_pcb k.threads t q })
Queues-set_pcb k t q v fr fb fd = record {
  ready_queue = Queue-set_pcb is_ready k.threads t q k.ready_list v.ready_queue fr;
  block_queue = Queue-set_pcb is_blocked k.threads t q k.block_list v.block_queue fb;
  delay_queue = Queue-set_pcb is_delayed k.threads t q k.delay_list v.delay_queue fd;
}

-- Kernels that agree on the delayed threads and on the time.
pub record SameDelays (k k' : Kernel) : Type 0 where
  pub heap : k'.delay_heap ≡ k.delay_heap
  pub time : k'.system_ticks ≡ k.system_ticks
  pub targets : (t : Thread) → (k'.threads t).target_delay_time ≡ (k.threads t).target_delay_time

-- The test of the loop of `ProcessDelayThread`.
abbrev pub is_due : Kernel → Bool
is_due k =
    not (k.delay_heap.cur_cnt == 0)
    && leb (k.threads (k.delay_heap.buf 1)).target_delay_time k.system_ticks

pub is_due-same : (k k' : Kernel) → SameDelays k k' → is_due k' ≡ is_due k
is_due-same k k' e = rw (e.heap, e.time, e.targets (k.delay_heap.buf 1))

pub target-set_pcb :
    (f : Thread → Pcb) (t : Thread) (q : Pcb) (u : Thread)
    → q.target_delay_time ≡ (f t).target_delay_time
    → (set_pcb f t q u).target_delay_time ≡ (f u).target_delay_time
unfolding set_pcb
target-set_pcb f t q u e = elim (Bool-cases (u == t)) [
  | inl h ↦ rw h (e ∙ ap (λ t. (f t).target_delay_time) (sym ((==_iff u t).0 h)))
  | inr h ↦ rw h
]

pub set_pcb_self : (f : Thread → Pcb) (t : Thread) (q : Pcb) → set_pcb f t q t ≡ q
unfolding set_pcb
set_pcb_self f t q = rw (==_refl t)

pub ready-not-blocked : (s : Status) → is_ready s ≡ true → is_blocked s ≡ false
ready-not-blocked s h = ground arith

pub ready-not-delayed : (s : Status) → is_ready s ≡ true → is_delayed s ≡ false
ready-not-delayed s h = ground arith

-- A current thread that runs goes to the end of the ready queue.
pub put_away-running :
    (fuel : ℕ) (k : Kernel)
    → Leaving k
    → (k.threads k.current).status ≡ running
    → (put_away fuel k ≡ ok (some (exchange_to_ready k.current k)))
      × Away (exchange_to_ready k.current k)
      × SameDelays k (exchange_to_ready k.current k)
unfolding put_away_as exchange_to_ready
put_away-running fuel k v s = (
  rw s,
  record {
    queues = record {
      ready_queue =
          Queue-snoc is_ready _ k.current k.ready_list w.ready_queue
            (rw (set_pcb_self k.threads k.current _)) v.no_ready;
      block_queue = w.block_queue;
      delay_queue = w.delay_queue;
    };
    idle_there = ground (arith, v.idle_there, has-snoc k.idle k.current k.ready_list);
  },
  record { heap = refl; time = refl; targets = λ t. target-set_pcb k.threads k.current _ t refl },
)
  where
    p : Pcb
    p = k.threads k.current

    w : Queues (record k {
      threads =
          set_pcb k.threads k.current
            (record p { ticks = allocate_ticks p.priority; status = ready });
    })
    w = Queues-set_pcb k k.current _ v.queues v.no_ready v.no_block v.no_delay

pub put_away_as-blocked :
    (st : Status) (fuel : ℕ) (k : Kernel)
    → is_blocked st ≡ true
    → put_away_as st fuel k ≡ ok (some (record k { block_list = k.block_list ++ k.current ∷ [] }))
unfolding put_away_as
put_away_as-blocked blocked fuel k h = refl
put_away_as-blocked hanging fuel k h = refl
put_away_as-blocked waiting fuel k h = refl
put_away_as-blocked _ fuel k h = absurd (false≢true h)

-- One that blocks goes to the end of the block queue.
pub put_away-blocked :
    (fuel : ℕ) (k : Kernel)
    → Leaving k
    → is_blocked (k.threads k.current).status ≡ true
    → let k' = record k { block_list = k.block_list ++ k.current ∷ [] } in
      (put_away fuel k ≡ ok (some k')) × Away k' × SameDelays k k'
put_away-blocked fuel k v s = (
  put_away_as-blocked (k.threads k.current).status fuel k s,
  record {
    queues = record {
      ready_queue = v.queues.ready_queue;
      block_queue =
          Queue-snoc is_blocked k.threads k.current k.block_list v.queues.block_queue s v.no_block;
      delay_queue = v.queues.delay_queue;
    };
    idle_there = ground (arith, v.idle_there, has-snoc k.idle k.current k.block_list);
  },
  record { heap = refl; time = refl; targets = λ t. refl },
)
