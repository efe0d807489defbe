-- ===== src/IoQueue/Ring.antt =====
-- The ring as a bounded queue of bytes, oldest first.
use native.Mathlib.Nat.{mod-add-mod, mod-eq_of_lt, mod-eq-sub-mod}
use mmzzos.Base.{
  ℕ, zero, suc, ◌+◌, ◌-◌, ◌%◌, ◌≤◌, ◌<◌, ◌≡◌, refl, sym, ap, ap₂, ◌∙◌, ◌≢◌, ◌↔◌, true, false, List,
  [], ◌∷◌, ◌++◌, none, arith, length, get_or, set, length-set, get_or-set_self, get_or-set_ne,
  dec_lt, ◌⊎◌, inl, inr,
}
use mmzzos.IoQueue.{IoQueue, next_pos, is_full, is_empty, queue_len}

pub record IsValid (q : IoQueue) : Type 0 where
  pub storage : length q.buff ≡ q.len
  pub head_in : q.head < q.len
  pub tail_in : q.tail < q.len

-- One step round the ring.
next_pos-cases :
    (q : IoQueue) (x : ℕ)
    → x < q.len
    → ((x + 1 < q.len) × (next_pos q x ≡ x + 1)) ⊎ ((x + 1 ≡ q.len) × (next_pos q x ≡ 0))
unfolding next_pos
next_pos-cases q x h = elim (dec_lt (x + 1) q.len) [
  | yes lt ↦ inl (lt, mod-eq_of_lt lt)
  | no ge ↦ inr (omega arith, grind arith)
]

-- `n` bytes of the ring from index `t` on.
module _ (buff : List ℕ) (len : ℕ) where
  unfoldable pub cells : ℕ → ℕ → List ℕ
  cells t zero = []
  cells t (suc n) = get_or buff t 0 ∷ cells ((t + 1) % len) n

abbrev pub contents : IoQueue → List ℕ
contents q = cells q.buff q.len q.tail (queue_len q)

pub queue_len-lt : (q : IoQueue) → IsValid q → queue_len q < q.len
unfolding queue_len
queue_len-lt q v = ground arith

length-cells : (buff : List ℕ) (len t n : ℕ) → length (cells buff len t n) ≡ n
unfolding cells
length-cells buff len t zero = refl
length-cells buff len t (suc n) = ap suc (length-cells buff len ((t + 1) % len) n)

-- `ioQueueLen` counts the bytes held, at most `len - 1` of them; the two tests say whether none
-- and whether all of those are there.
pub queue_len_lem :
    (q : IoQueue)
    → IsValid q
    → (length (contents q) ≡ queue_len q)
      × (queue_len q < q.len)
      × ((is_empty q ≡ true) ↔ (queue_len q ≡ 0))
      × ((is_full q ≡ true) ↔ (queue_len q + 1 ≡ q.len))
unfolding queue_len is_empty is_full
queue_len_lem q v = (
  length-cells q.buff q.len q.tail (queue_len q),
  queue_len-lt q v,
  (ground arith, ground arith),
  elim (next_pos-cases q q.head v.head_in) [
    | inl (lt, e) ↦ (ground arith, ground arith)
    | inr (eq, e) ↦ (ground arith, ground arith)
  ],
)

-- Below twice the length one subtraction wraps an index.
mod-cases :
    (len a : ℕ) → a < len + len → ((a < len) × (a % len ≡ a)) ⊎ ((len ≤ a) × (a % len + len ≡ a))
mod-cases len a h = elim (dec_lt a len) [
  | yes lt ↦ inl (lt, mod-eq_of_lt lt)
  | no ge ↦
      let le : len ≤ a = omega arith in
      inr (le, omega (arith, mod-eq-sub-mod le, mod-eq_of_lt {n = a - len} {m = len} (omega arith)))
]

-- The places of the ring that are `n` and `k` steps from `t` differ.
apart : (len t k n : ℕ) → t < len → k < n → n < len → (t + k) % len ≢ (t + n) % len
apart len t k n ht hk hn =
    ground (arith, mod-cases len (t + k) (omega arith), mod-cases len (t + n) (omega arith))

step : (len t k : ℕ) → ((t + 1) % len + k) % len ≡ (t + suc k) % len
step len t k = rw mod-add-mod (ap (λ m. m % len) (omega arith))

step-lt : (len t : ℕ) → t < len → (t + 1) % len < len
step-lt len t h = omega arith

cells-append :
    (buff : List ℕ) (len t n : ℕ)
    → t < len
    → cells buff len t (n + 1) ≡ cells buff len t n ++ (get_or buff ((t + n) % len) 0 ∷ [])
unfolding cells
cells-append buff len t zero h =
    ap (λ i. get_or buff i 0 ∷ []) (sym (mod-eq_of_lt h) ∙ ap (λ m. m % len) (omega arith))
cells-append buff len t (suc n) h =
    let e : suc n + 1 ≡ suc (n + 1) = omega arith in
    rw (e, cells-append buff len ((t + 1) % len) n (step-lt len t h), step len t n)

cells-set :
    (buff : List ℕ) (len i x t n : ℕ)
    → ((k : ℕ) → k < n → (t + k) % len ≢ i)
    → t < len
    → cells (set buff i x) len t n ≡ cells buff len t n
unfolding cells
cells-set buff len i x t zero ne h = refl
cells-set buff len i x t (suc n) ne h =
    ap₂ ◌∷◌
      (get_or-set_ne buff i t x 0
        λ e. ne 0 (omega arith) (ap (λ m. m % len) (omega arith) ∙ mod-eq_of_lt h ∙ sym e))
      (cells-set buff len i x ((t + 1) % len) n
        (λ k hk e. ne (suc k) (omega arith) (sym (step len t k) ∙ e)) (step-lt len t h))

module _ (q : IoQueue) (v : IsValid q) where
  -- The place that a put writes is the one behind the last byte.
  head-eq : (q.tail + queue_len q) % q.len ≡ q.head
  unfolding queue_len
  head-eq =
      ground
        (arith, mod-cases q.len (q.tail + queue_len q) (omega (arith, queue_len-lt q v, v.tail_in)))

  -- The ring after a put that does not sleep.
  abbrev pub stored : ℕ → IoQueue
  stored x = record q { buff = set q.buff q.head x; head = next_pos q q.head; consumer = none }

  pub stored-IsValid : (x : ℕ) → IsValid (stored x)
  unfolding next_pos
  stored-IsValid x = record {
    storage = length-set q.buff q.head x ∙ v.storage;
    head_in = step-lt q.len q.head v.head_in;
    tail_in = v.tail_in;
  }

  module _ (room : is_full q ≡ false) where
    pub queue_len-stored : (x : ℕ) → queue_len (stored x) ≡ queue_len q + 1
    unfolding queue_len is_full
    queue_len-stored x = elim (next_pos-cases q q.head v.head_in) [
      | inl (lt, e) ↦ ground arith
      | inr (eq, e) ↦ ground arith
    ]

    pub contents-stored : (x : ℕ) → contents (stored x) ≡ contents q ++ (x ∷ [])
    contents-stored x = rw (
      queue_len-stored x,
      cells-append (set q.buff q.head x) q.len q.tail (queue_len q) v.tail_in,
      head-eq,
      get_or-set_self q.buff q.head x 0 (omega (arith, v.storage, v.head_in)),
      cells-set q.buff q.len q.head x q.tail (queue_len q)
          (λ k hk e.
            apart q.len q.tail k (queue_len q) v.tail_in hk (queue_len-lt q v) (e ∙ sym head-eq))
          v.tail_in,
    )

  -- The ring after a get that does not sleep.
  abbrev pub taken : IoQueue
  taken = record q { tail = next_pos q q.tail; producer = none }

  pub taken-IsValid : IsValid taken
  unfolding next_pos
  taken-IsValid = record {
    storage = v.storage;
    head_in = v.head_in;
    tail_in = step-lt q.len q.tail v.tail_in;
  }

  module _ (some_left : is_empty q ≡ false) where
    pub queue_len-taken : queue_len q ≡ suc (queue_len taken)
    unfolding queue_len is_empty
    queue_len-taken = elim (next_pos-cases q q.tail v.tail_in) [
      | inl (lt, e) ↦ ground arith
      | inr (eq, e) ↦ ground arith
    ]

    pub contents-taken : contents q ≡ get_or q.buff q.tail 0 ∷ contents taken
    unfolding cells next_pos
    contents-taken = rw queue_len-taken
