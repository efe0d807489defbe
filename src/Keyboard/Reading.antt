-- ===== src/Keyboard/Reading.antt =====
-- KeyBoardGet and KeyBoardRead of device/keyboard.c, on the bytes that the queue holds.
use mmzzos.Base.{
  ℕ, zero, suc, ◌+◌, ◌-◌, ◌*◌, ◌/◌, ◌%◌, ◌≤◌, ◌<◌, ◌≡◌, refl, sym, ap, ◌∙◌, Bool, true, false, not,
  List, [], ◌∷◌, ◌++◌, ◌==◌, if◌then◌else◌, Option, some, bit_or, length, take, All, Bool-cases,
  inl, inr, arith, ==_iff, subst,
}
use mathlib.Core.List.{append_assoc, append-nil}
use mmzzos.Base.Bytes.{passes, passes-true}
use mmzzos.IoQueue.{IoQueue, Thread, Round, done, sleeps, waits, get_round}
use mmzzos.IoQueue.Ring.{IsValid, contents}
use mmzzos.IoQueue.Rounds.{get_done, get_round_lem, GetSpec}
use mmzzos.IoQueue.Pipe.{Transfer, over, asleep}
use mmzzos.Keys.{convert_to}
use mmzzos.Keyboard.{key_get, key_read, got_high, got_low, read_on}

-- The two bytes of each key code.
abbrev pub key_bytes : List ℕ → List ℕ
key_bytes [] = []
key_bytes (key ∷ keys) = key / 256 % 256 ∷ key % 256 ∷ key_bytes keys

-- The characters of the key codes that have one.
abbrev pub key_chars : List ℕ → List ℕ
key_chars [] = []
key_chars (key ∷ keys) =
    if not (convert_to key == 255) then convert_to key ∷ key_chars keys else key_chars keys

join_row : ℕ → ℕ → Bool
join_row h l = bit_or (h * 256 % 65536) l == h * 256 + l

join_table : passes (λ h. passes (join_row h) 256) 256 ≡ true
unfolding passes join_row
join_table = refl

join_bytes : (key : ℕ) → key < 65536 → bit_or (key / 256 % 256 * 256 % 65536) (key % 256) ≡ key
unfolding join_row
join_bytes key h =
    let high = key / 256 % 256 in
    let row = passes-true (λ h. passes (join_row h) 256) 256 high (omega arith) join_table in
    let e = (==_iff _ _).0 (passes-true (join_row high) 256 (key % 256) (omega arith) row) in
    omega (arith, e)

-- With two bytes there a get is over.
pub key_get_lem :
    (me : Thread) (q : IoQueue) (key : ℕ) (rest : List ℕ)
    → IsValid q
    → key < 65536
    → contents q ≡ key / 256 % 256 ∷ key % 256 ∷ rest
    → (q' : IoQueue) × (key_get me q ≡ over key q') × IsValid q' × (contents q' ≡ rest)
unfolding key_get
key_get_lem me q key rest v small e =
    let (w1, q1, r1, v1, l1, c1) = get_done me q v _ _ e in
    let (w2, q2, r2, v2, l2, c2) = get_done me q1 v1 _ _ c1 in
    (
      q2,
      ap (got_high me) r1
          ∙ ap (got_low (key / 256 % 256 * 256 % 65536)) r2
          ∙ ap (λ k. over k q2) (join_bytes key small),
      v2,
      c2,
    )

-- On an empty ring it sleeps.
key_get-asleep :
    (me : Thread) (q : IoQueue)
    → IsValid q
    → contents q ≡ []
    → (q' : IoQueue) × (key_get me q ≡ asleep 0 q')
unfolding key_get
key_get-asleep me q v e = go (get_round me q) refl (get_round_lem me q v)
  where
    go :
        (r : Round ℕ)
        → get_round me q ≡ r
        → GetSpec me q r
        → (q' : IoQueue) × (key_get me q ≡ asleep 0 q')
    go (done x w q') h (_, _, c, _, _, _, _) = absurd (ground arith)
    go (sleeps q') h s = (q', ap (got_high me) h)
    go (waits q') h s = (q', ap (got_high me) h)

-- How a read goes on from `got`: over, with the characters asked for, if the queue has them, and
-- asleep with those that it has otherwise.
abbrev pub ReadEnds : ℕ → List ℕ → List ℕ → Option (Transfer (List ℕ)) → Type 0
ReadEnds cnt got chars r =
    (cnt ≤ length chars → (q : IoQueue) × (r ≡ some (over (got ++ take cnt chars) q)))
    × (length chars < cnt → (q : IoQueue) × (r ≡ some (asleep (got ++ chars) q)))

-- A round of the loop, with what follows it.
next_round : ℕ → Thread → ℕ → List ℕ → ℕ → IoQueue → Option (Transfer (List ℕ))
next_round fuel me cnt got ch q =
    if not (ch == 255)
    then key_read fuel me q cnt (got ++ ch ∷ [])
    else key_read fuel me q (suc cnt) got

key_read-step :
    (fuel : ℕ) (me : Thread) (q : IoQueue) (cnt : ℕ) (got : List ℕ)
    → key_read (suc fuel) me q (suc cnt) got
      ≡ read_on got (next_round fuel me cnt got) (key_get me q)
unfolding key_read next_round
key_read-step fuel me q cnt got =
    let more : (suc cnt == 0) ≡ false = ground arith in
    let less : suc cnt - 1 ≡ cnt = omega arith in rw (more, less) refl

key_read-zero :
    (fuel : ℕ) (me : Thread) (q : IoQueue) (got : List ℕ)
    → key_read (suc fuel) me q 0 got ≡ some (over got q)
unfolding key_read
key_read-zero fuel me q got = refl

next-dropped :
    (fuel : ℕ) (me : Thread) (cnt : ℕ) (got : List ℕ) (key : ℕ) (q : IoQueue)
    → (convert_to key == 255) ≡ true
    → next_round fuel me cnt got (convert_to key) q ≡ key_read fuel me q (suc cnt) got
unfolding next_round
next-dropped fuel me cnt got key q e = rw e refl

next-kept :
    (fuel : ℕ) (me : Thread) (cnt : ℕ) (got : List ℕ) (key : ℕ) (q : IoQueue)
    → (convert_to key == 255) ≡ false
    → next_round fuel me cnt got (convert_to key) q
      ≡ key_read fuel me q cnt (got ++ convert_to key ∷ [])
unfolding next_round
next-kept fuel me cnt got key q e = rw e refl

-- What a read does with the first key code.
key_read-key :
    (fuel : ℕ) (me : Thread) (q q' : IoQueue) (cnt key : ℕ) (got : List ℕ)
    → key_get me q ≡ over key q'
    → key_read (suc fuel) me q (suc cnt) got ≡ next_round fuel me cnt got (convert_to key) q'
key_read-key fuel me q q' cnt key got e =
    key_read-step fuel me q cnt got ∙ ap (read_on got (next_round fuel me cnt got)) e

ReadEnds-dropped :
    (key cnt : ℕ) (keys got : List ℕ) (r : Option (Transfer (List ℕ)))
    → (convert_to key == 255) ≡ true
    → ReadEnds cnt got (key_chars keys) r
    → ReadEnds cnt got (key_chars (key ∷ keys)) r
ReadEnds-dropped key cnt keys got r e h = rw e h

ReadEnds-kept :
    (key cnt : ℕ) (keys got : List ℕ) (r : Option (Transfer (List ℕ)))
    → (convert_to key == 255) ≡ false
    → ReadEnds cnt (got ++ convert_to key ∷ []) (key_chars keys) r
    → ReadEnds (suc cnt) got (key_chars (key ∷ keys)) r
ReadEnds-kept key cnt keys got r e h = rw e (
  (λ le.
      let (q, g) = h.0 (omega arith) in (q, g ∙ ap (λ l. some (over l q)) (append_assoc got _ _))),
  (λ lt.
      let (q, g) = h.1 (omega arith) in
      (q, g ∙ ap (λ l. some (asleep l q)) (append_assoc got _ _))),
)

key_read_from :
    (keys : List ℕ) (fuel : ℕ) (me : Thread) (q : IoQueue) (cnt : ℕ) (got : List ℕ)
    → IsValid q
    → All (λ key. key < 65536) keys
    → contents q ≡ key_bytes keys
    → length keys < fuel
    → ReadEnds cnt got (key_chars keys) (key_read fuel me q cnt got)
key_read_from keys zero me q cnt got v all e lt = absurd (omega arith)
key_read_from keys (suc fuel) me q zero got v all e lt = (
  (λ h. (q, key_read-zero fuel me q got ∙ ap (λ g. some (over g q)) (sym (append-nil got)))),
  (λ h. absurd (omega arith)),
)
key_read_from [] (suc fuel) me q (suc cnt) got v all e lt =
    let (q', asleep_) = key_get-asleep me q v e in
    (
      (λ h. absurd (omega arith)),
      (λ h. (
        q',
        key_read-step fuel me q cnt got
            ∙ ap (read_on got (next_round fuel me cnt got)) asleep_
            ∙ ap (λ g. some (asleep g q')) (sym (append-nil got)),
      )),
    )
key_read_from (key ∷ keys) (suc fuel) me q (suc cnt) got v all e lt =
    let (q', taken, v', c) = key_get_lem me q key (key_bytes keys) v all.0 e in
    let first = key_read-key fuel me q q' cnt key got taken in
    elim (Bool-cases (convert_to key == 255)) [
      | inl none_ ↦
          let rest = key_read_from keys fuel me q' (suc cnt) got v' all.1 c (omega arith) in
          subst (ReadEnds (suc cnt) got _) (sym (first ∙ next-dropped fuel me cnt got key q' none_))
            (ReadEnds-dropped key (suc cnt) keys got _ none_ rest)
      | inr some_ ↦
          let rest =
            key_read_from keys fuel me q' cnt (got ++ convert_to key ∷ []) v' all.1 c
              (omega arith) in
          subst (ReadEnds (suc cnt) got _) (sym (first ∙ next-kept fuel me cnt got key q' some_))
            (ReadEnds-kept key cnt keys got _ some_ rest)
    ]

-- On a valid queue of key codes `KeyBoardRead` of `cnt` characters ends: over with the first `cnt`
-- characters of those codes that have one, and asleep with all of them if they are fewer.
pub key_read_lem :
    (keys : List ℕ) (fuel : ℕ) (me : Thread) (q : IoQueue) (cnt : ℕ)
    → IsValid q
    → All (λ key. key < 65536) keys
    → contents q ≡ key_bytes keys
    → length keys < fuel
    → ReadEnds cnt [] (key_chars keys) (key_read fuel me q cnt [])
key_read_lem keys fuel me q cnt v all e lt = key_read_from keys fuel me q cnt [] v all e lt
