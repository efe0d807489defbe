-- ===== src/IoQueue/Rounds.antt =====
-- `ioQueuePut` and `ioQueueGet`, round by round, against the bounded queue of bytes.
use mathlib.Core.Bool.{false≢true}
use mmzzos.Base.{
  ℕ, ◌+◌, ◌<◌, ◌≡◌, refl, true, false, List, [], ◌∷◌, ◌++◌, Option, none, some, inl, inr,
  Bool-cases, Option-cases, arith, ℕ_discrete, sym, ap, ◌⊎◌, ◌∙◌, length,
}
use mmzzos.IoQueue.{
  IoQueue, Thread, Round, done, sleeps, waits, is_full, is_empty, queue_len, put_round, get_round,
}
use mmzzos.IoQueue.Ring.{
  IsValid, contents, stored-IsValid, contents-stored, taken-IsValid, contents-taken, cells,
  queue_len_lem,
}

-- A put ends with the byte behind the others and takes the waiting consumer's name away; or it
-- finds the ring full, and sleeps as its producer with the lock, or waits for the lock.
abbrev pub PutSpec : Thread → IoQueue → ℕ → Round (Unit {0}) → Type 0
PutSpec me q x (done _ wakes q') =
    IsValid q'
    × (q'.len ≡ q.len)
    × (length (contents q) + 1 < q.len)
    × (contents q' ≡ contents q ++ (x ∷ []))
    × (wakes ≡ q.consumer)
    × (q'.consumer ≡ none)
    × (q'.producer ≡ q.producer)
    × (q'.holder ≡ q.holder)
PutSpec me q x (sleeps q') =
    IsValid q'
    × (length (contents q) + 1 ≡ q.len)
    × (contents q' ≡ contents q)
    × (q.holder ≡ none)
    × (q'.holder ≡ some me)
    × (q'.producer ≡ some me)
PutSpec me q x (waits q') =
    (q' ≡ q) × (length (contents q) + 1 ≡ q.len) × ((t : Thread) × (q.holder ≡ some t))

abbrev pub GetSpec : Thread → IoQueue → Round ℕ → Type 0
GetSpec me q (done x wakes q') =
    IsValid q'
    × (q'.len ≡ q.len)
    × (contents q ≡ x ∷ contents q')
    × (wakes ≡ q.producer)
    × (q'.producer ≡ none)
    × (q'.consumer ≡ q.consumer)
    × (q'.holder ≡ q.holder)
GetSpec me q (sleeps q') =
    IsValid q'
    × (contents q ≡ [])
    × (contents q' ≡ [])
    × (q.holder ≡ none)
    × (q'.holder ≡ some me)
    × (q'.consumer ≡ some me)
GetSpec me q (waits q') = (q' ≡ q) × (contents q ≡ []) × ((t : Thread) × (q.holder ≡ some t))

module _ (me : Thread) (q : IoQueue) (v : IsValid q) where
  full-length : is_full q ≡ true → length (contents q) + 1 ≡ q.len
  full-length full =
      let (count, lt, empty, last) = queue_len_lem q v in omega (arith, count, last.0 full)

  room-length : is_full q ≡ false → length (contents q) + 1 < q.len
  room-length room =
      let (count, lt, empty, last) = queue_len_lem q v in
      elim (ℕ_discrete (queue_len q + 1) q.len) [
        | yes e ↦ absurd (false≢true (sym room ∙ last.1 e))
        | no ne ↦ omega (arith, count, lt)
      ]

  empty-contents : is_empty q ≡ true → contents q ≡ []
  unfolding cells
  empty-contents none_left =
      let (count, lt, empty, last) = queue_len_lem q v in rw (empty.0 none_left)

  -- A round of `ioQueuePut` on a valid ring ends as `PutSpec` says: with the byte behind the others, or
  -- asleep on a full ring, or waiting on a full ring for the lock.
  pub put_round_lem : (x : ℕ) → PutSpec me q x (put_round me q x)
  unfolding put_round queue_len
  put_round_lem x = elim (Bool-cases (is_full q)) [
    | inl full ↦ rw full (elim (Option-cases q.holder) [
      | inl free ↦ rw free (same, full-length full, refl, refl, refl, refl)
      | inr (t, held) ↦ rw held (refl, full-length full, (t, refl))
    ])
    | inr room ↦ rw room (
      stored-IsValid q v x,
      refl,
      room-length room,
      contents-stored q v room x,
      refl,
      refl,
      refl,
      refl,
    )
  ]
    where
      same : IsValid (record q { holder = some me; producer = some me })
      same = record { storage = v.storage; head_in = v.head_in; tail_in = v.tail_in }

  -- A round of `ioQueueGet` on a valid ring ends as `GetSpec` says: with the oldest byte taken, or
  -- asleep on an empty ring, or waiting on an empty ring for the lock.
  pub get_round_lem : GetSpec me q (get_round me q)
  unfolding get_round queue_len
  get_round_lem = elim (Bool-cases (is_empty q)) [
    | inl none_left ↦ rw none_left (elim (Option-cases q.holder) [
      | inl free ↦
          rw free (same, empty-contents none_left, empty-contents none_left, refl, refl, refl)
      | inr (t, held) ↦ rw held (refl, empty-contents none_left, (t, refl))
    ])
    | inr some_left ↦
        rw some_left (taken-IsValid q v, refl, contents-taken q v some_left, refl, refl, refl, refl)
  ]
    where
      same : IsValid (record q { holder = some me; consumer = some me })
      same = record { storage = v.storage; head_in = v.head_in; tail_in = v.tail_in }

  -- With room for one more byte a put is over in one round.
  pub put_done :
      (x : ℕ)
      → length (contents q) + 1 < q.len
      → (w : Option Thread) × (q' : IoQueue) × (put_round me q x ≡ done tt w q')
        × IsValid q'
        × (q'.len ≡ q.len)
        × (contents q' ≡ contents q ++ (x ∷ []))
  put_done x room = go (put_round me q x) refl (put_round_lem x)
    where
      go :
          (r : Round (Unit {0}))
          → put_round me q x ≡ r
          → PutSpec me q x r
          → (w : Option Thread) × (q' : IoQueue) × (put_round me q x ≡ done tt w q')
            × IsValid q'
            × (q'.len ≡ q.len)
            × (contents q' ≡ contents q ++ (x ∷ []))
      go (done _ w q') e (v', len, _, c, _, _, _, _) = (w, q', e, v', len, c)
      go (sleeps q') e (_, full, _, _, _, _) = absurd (omega arith)
      go (waits q') e (_, full, _) = absurd (omega arith)

  -- With a byte there a get is over in one round.
  pub get_done :
      (x : ℕ) (xs : List ℕ)
      → contents q ≡ x ∷ xs
      → (w : Option Thread) × (q' : IoQueue) × (get_round me q ≡ done x w q')
        × IsValid q'
        × (q'.len ≡ q.len)
        × (contents q' ≡ xs)
  get_done x xs h = go (get_round me q) refl get_round_lem
    where
      go :
          (r : Round ℕ)
          → get_round me q ≡ r
          → GetSpec me q r
          → (w : Option Thread) × (q' : IoQueue) × (get_round me q ≡ done x w q')
            × IsValid q'
            × (q'.len ≡ q.len)
            × (contents q' ≡ xs)
      go (done y w q') e (v', len, c, _, _, _, _) =
          let same : y ∷ contents q' ≡ x ∷ xs = sym c ∙ h in
          (w, q', e ∙ ap (λ z. done z w q') (cc), v', len, cc)
      go (sleeps q') e (_, none_left, _, _, _, _) = absurd (ground arith)
      go (waits q') e (_, none_left, _) = absurd (ground arith)

  -- On a full ring a put sleeps or waits for the lock, and changes no byte.
  pub put_stuck :
      (x : ℕ)
      → length (contents q) + 1 ≡ q.len
      → (q' : IoQueue) × ((put_round me q x ≡ sleeps q') ⊎ (put_round me q x ≡ waits q'))
        × (contents q' ≡ contents q)
  put_stuck x full = go (put_round me q x) refl (put_round_lem x)
    where
      go :
          (r : Round (Unit {0}))
          → put_round me q x ≡ r
          → PutSpec me q x r
          → (q' : IoQueue) × ((put_round me q x ≡ sleeps q') ⊎ (put_round me q x ≡ waits q'))
            × (contents q' ≡ contents q)
      go (done _ w q') e (v', len, lt, c, _, _, _, _) = absurd (omega arith)
      go (sleeps q') e (_, _, c, _, _, _) = (q', inl e, c)
      go (waits q') e (same, _, _) = (q', inr e, ap contents same)
