-- ===== src/Processes/Wait.antt =====
-- A round of syscall_wait.
use mmzzos.Base.{
  ℕ, suc, ◌-◌, ◌^◌, ◌≡◌, ◌≢◌, refl, sym, ap, ◌∙◌, Bool, true, false, ◌&&◌, ◌||◌, List, [], ◌∷◌,
  ◌==◌, if◌then◌else◌, arith, Bool-cases, inl, inr, some, ok, Option, none,
}
use mmzzos.Dll.Shape.{Fresh}
use mmzzos.Sched.{
  Thread, Status, running, hanging, waiting, died, Pcb, Kernel, with_status, erase, unlink, has,
  is_blocked,
}
use mmzzos.Sched.Queues.{Queue, Queue-erase, Queue-set_pcb}
use mmzzos.Sched.Switch.{IsValid, is_ready, is_delayed, is_due}
use mmzzos.Sched.Schedule.{thread_block_lem, first_of}
use mmzzos.Processes.{
  System, Scan, child, alive, childless, returns, sleeps, status_of, is_hanging, sign_extend,
  scan_children, thread_exit, wait_on, wait_round,
}
use mmzzos.Processes.Blocking.{has-erase, set_pcb_ne}

abbrev pub is_child : System → ℕ → Thread → Bool
is_child s parent t = s.pa_pid t == parent

abbrev pub is_dead_child : System → ℕ → Thread → Bool
is_dead_child s parent t = is_child s parent t && is_hanging (status_of s t)

abbrev pub first_where : (Thread → Bool) → List Thread → Option Thread
first_where test [] = none
first_where test (t ∷ rest) = let later = first_where test rest in if test t then some t else later

abbrev pub any : (Thread → Bool) → List Thread → Bool
any test [] = false
any test (t ∷ rest) = test t || any test rest

-- What a pass finds, by its first dead child and by whether there is a child.
abbrev pub found : Option Thread → Bool → Scan
found (some t) some_child = child t
found none some_child = if some_child then alive else childless

pub scan_children_lem :
    (s : System) (parent : ℕ) (flag : Bool) (xs : List Thread)
    → scan_children s parent flag xs
      ≡ found (first_where (is_dead_child s parent) xs) (flag || any (is_child s parent) xs)
unfolding scan_children
scan_children_lem s parent true [] = refl
scan_children_lem s parent false [] = refl
scan_children_lem s parent flag (t ∷ rest) = elim (Bool-cases (s.pa_pid t == parent)) [
  | inl e ↦ elim (Bool-cases (is_hanging (status_of s t))) [
    | inl h ↦ rw (e, h) refl
    | inr h ↦
        rw (e, h)
          (scan_children_lem s parent true rest
            ∙ ap (found (first_where (is_dead_child s parent) rest)) (ground arith))
  ]
  | inr e ↦ rw e (scan_children_lem s parent flag rest)
]

-- What is left once a process that hangs is gone.
pub record Reaped (s s' : System) (t : Thread) : Type 0 where
  pub valid : IsValid s'.kernel
  pub current : s'.kernel.current ≡ s.kernel.current
  pub list : s'.thread_list ≡ erase t s.thread_list
  pub unblocked : Fresh t s'.kernel.block_list

thread_exit_lem :
    (s : System) (t : Thread)
    → IsValid s.kernel
    → status_of s t ≡ hanging
    → has t s.kernel.block_list ≡ true
    → t ≢ s.kernel.idle
    → (s' : System) × (thread_exit t s ≡ ok s') × Reaped s s' t
unfolding thread_exit
thread_exit_lem s t v hangs there ne = (
  record s { kernel = unlink t (with_status t died k); thread_list = erase t s.thread_list },
  rw linked refl,
  record {
    valid = record {
      queues = record {
        ready_queue = Queue-set_pcb is_ready k.threads t now _ old_ready.0 old_ready.1;
        block_queue = Queue-set_pcb is_blocked k.threads t now _ old_block.0 old_block.1;
        delay_queue = Queue-set_pcb is_delayed k.threads t now _ old_delay.0 old_delay.1;
      };
      runs = ap (λ (p : Pcb). p.status) (set_pcb_ne k.threads t now k.current other) ∙ v.runs;
      idle_there = elim v.idle_there [
        | inl e ↦ inl e
        | inr h ↦ inr (
            ground (
              arith,
              h,
              has-erase k.idle t k.ready_list apart,
              has-erase k.idle t k.block_list apart,
            ))
      ];
    };
    current = refl;
    list = refl;
    unblocked = old_block.1;
  },
)
  where
    k : Kernel
    k = s.kernel

    now : Pcb
    now = record (k.threads t) { status = died }

    linked : (has t k.ready_list || (has t k.block_list || has t k.delay_list)) ≡ true
    linked = ground (arith, there)

    apart : k.idle ≢ t
    apart e = ne (sym e)

    hanging-runs : hanging ≢ running
    hanging-runs e = ground arith

    other : k.current ≢ t
    other e = hanging-runs (sym hangs ∙ ap (status_of s) (sym e) ∙ v.runs)

    old_ready : Queue is_ready k.threads (erase t k.ready_list) × Fresh t (erase t k.ready_list)
    old_ready = Queue-erase is_ready k.threads t k.ready_list v.queues.ready_queue

    old_block : Queue is_blocked k.threads (erase t k.block_list) × Fresh t (erase t k.block_list)
    old_block = Queue-erase is_blocked k.threads t k.block_list v.queues.block_queue

    old_delay : Queue is_delayed k.threads (erase t k.delay_list) × Fresh t (erase t k.delay_list)
    old_delay = Queue-erase is_delayed k.threads t k.delay_list v.queues.delay_queue

-- The outcome of a round, by the first dead child in the list and by whether there is a child.
abbrev pub WaitSpec : ℕ → System → Option Thread → Bool → Type 0
WaitSpec fuel s (some t) some_child =
    (s' : System) × (wait_round fuel s
      ≡ ok (some (returns (s.pid t) (some (sign_extend (s.exit_status t))) s')))
    × Reaped s s' t
WaitSpec fuel s none false = wait_round fuel s ≡ ok (some (returns (2 ^ 16 - 1) none s))
WaitSpec fuel s none true =
    (k : Kernel) × (wait_round fuel s ≡ ok (some (sleeps (record s { kernel = k }))))
    × (k.current ≡ first_of s.kernel.idle s.kernel.ready_list)
    × IsValid k

-- The hanging processes stand in the block queue, and the idle thread is none of them.
pub record CanWait (s : System) : Type 0 where
  pub valid : IsValid s.kernel
  pub idle : is_due s.kernel ≡ false
  pub blocked : (t : Thread) → status_of s t ≡ hanging → has t s.kernel.block_list ≡ true
  pub no_idle : status_of s s.kernel.idle ≢ hanging

-- The process found hangs.
abbrev Found : System → Option Thread → Type 0
Found s none = Unit
Found s (some t) = status_of s t ≡ hanging

hanging-status : (st : Status) → is_hanging st ≡ true → st ≡ hanging
hanging-status st h = ground arith

first_where-Found :
    (s : System) (parent : ℕ) (xs : List Thread) → Found s (first_where (is_dead_child s parent) xs)
first_where-Found s parent [] = tt
first_where-Found s parent (x ∷ xs) = elim (Bool-cases (is_dead_child s parent x)) [
  | inl e ↦ rw e (hanging-status (status_of s x) (ground (arith, e)))
  | inr e ↦ rw e (first_where-Found s parent xs)
]

wait_on_lem :
    (fuel : ℕ) (s : System) (dead : Option Thread) (some_child : Bool)
    → CanWait s
    → scan_children s (s.pid s.kernel.current) false s.thread_list ≡ found dead some_child
    → Found s dead
    → WaitSpec (suc fuel) s dead some_child
unfolding wait_round wait_on
wait_on_lem fuel s (some t) some_child c e hangs =
    let (s', done, r) =
      thread_exit_lem s t c.valid (hangs) (c.blocked t (hangs))
        (λ i. c.no_idle (ap (status_of s) (sym i) ∙ hangs)) in
    (s', rw (e, done) refl, r)
wait_on_lem fuel s none false c e hangs = rw e refl
wait_on_lem fuel s none true c e hangs =
    let (k, done, next, v) = thread_block_lem fuel waiting s.kernel c.valid refl c.idle in
    (k, rw (e, done) refl, next, v)

-- Where the hanging processes stand in the block queue of a valid kernel, no delayed thread is due and the idle
-- thread does not hang, a round of syscall_wait takes the first child in ThreadList that hangs out of that
-- list and of the block queue and returns its pid and its status; it returns -1, as 65535, and changes nothing
-- where the process has no child; and it sleeps, and the first ready thread runs, where it has children and none hangs.
pub wait_round_lem :
    (fuel : ℕ) (s : System)
    → CanWait s
    → let me = s.pid s.kernel.current in
      WaitSpec
        (suc fuel)
        s
        (first_where (is_dead_child s me) s.thread_list)
        (any (is_child s me) s.thread_list)
wait_round_lem fuel s c =
    let me = s.pid s.kernel.current in
    wait_on_lem fuel s (first_where (is_dead_child s me) s.thread_list)
      (any (is_child s me) s.thread_list) c (scan_children_lem s me false s.thread_list)
      (first_where-Found s me s.thread_list)
