-- ===== src/Dirs/Reading.antt =====
-- syscall_readdir of lib/user/syscallFun.c, on the directories of `Dirs`: what it reads one call after another.
use mmzzos.Base.{
  ℕ, zero, suc, ◌+◌, ◌-◌, ◌<◌, ◌≤◌, ◌≡◌, refl, sym, ap, ◌∙◌, true, false, ◌==◌, Option, none, some,
  List, [], ◌∷◌, ◌++◌, if◌then◌else◌, Bool-cases, inl, inr, arith, leb, length, length-append,
  get_elem?, get_elem?-out, Result, ok, fault, ◌>>=◌, dec_lt, ℕ_discrete,
}
use mathlib.Core.Option.{none-ne-some}
use mmzzos.Dirs.{Entry, Block, Dir, is_used, whole_slots, block_count}
use mmzzos.Dirs.Entries.{used_slots, used_blocks, entries}

-- The loop over the slots of a block, with `n` left: the entry of number `target`, and the entries counted.
unfoldable pub read_slots : ℕ → ℕ → Block → ℕ → ℕ → Option Entry × ℕ
read_slots zero s block target cur = (none, cur)
read_slots (suc n) s block target cur =
    let same = read_slots n (s + 1) block target cur in
    let counted = read_slots n (s + 1) block target (cur + 1) in
    if is_used (block s) then if cur == target then (some (block s), cur) else counted else same

-- How the loop over the blocks goes on.
abbrev pub or_next : (ℕ → Result (Option Entry)) → Option Entry × ℕ → Result (Option Entry)
or_next next (some e, cur) = ok (some e)
or_next next (none, cur) = next cur

-- The loop over the blocks, which has no end of its own: behind the last block it leaves the table.
unfoldable pub read_blocks : ℕ → ℕ → Dir → ℕ → ℕ → Result (Option Entry)
read_blocks zero i d target cur = fault
read_blocks (suc n) i d target cur =
    let later = read_blocks n (i + 1) d target in
    let read = or_next later (read_slots whole_slots 0 (d.disk (d.table i)) target cur) in
    if leb cur target then if d.table i == 0 then later cur else read else ok none

abbrev pub moved_on : ℕ → Option Entry → ℕ
moved_on dir_pos none = dir_pos
moved_on dir_pos (some e) = dir_pos + 1

-- `syscall_readdir`, where memory for the table is given, at the position `dir_pos`: the entry, and the new position.
unfoldable pub readdir : Dir → ℕ → Result (Option Entry × ℕ)
readdir d dir_pos =
    if leb d.size dir_pos
    then ok (none, dir_pos)
    else (read_blocks block_count 0 d dir_pos 0 >>= λ found. ok (found, moved_on dir_pos found))

-- The loop over the slots looks for the entry of number `target` of the list.
ReadSlots : ℕ → ℕ → List Entry → Option Entry × ℕ → Type 0
ReadSlots target cur xs (some e, cur') = get_elem? xs (target - cur) ≡ some e
ReadSlots target cur xs (none, cur') = (cur' ≡ cur + length xs) × (cur' ≤ target)

counted_on :
    (e : Entry) (xs : List Entry) (target cur : ℕ) (r : Option Entry × ℕ)
    → cur < target
    → ReadSlots target (cur + 1) xs r
    → ReadSlots target cur (e ∷ xs) r
unfolding ReadSlots
counted_on e xs target cur (some found, cur') lt h =
    let next : target - cur ≡ suc (target - (cur + 1)) = omega arith in rw next h
counted_on e xs target cur (none, cur') lt h = (omega (arith, h.0), h.1)

read_slots_lem :
    (n s : ℕ) (block : Block) (target cur : ℕ)
    → cur ≤ target
    → ReadSlots target cur (used_slots n s block) (read_slots n s block target cur)
unfolding read_slots used_slots ReadSlots
read_slots_lem zero s block target cur le = (omega arith, le)
read_slots_lem (suc n) s block target cur le = elim (Bool-cases (is_used (block s))) [
  | inr u ↦ rw u (read_slots_lem n (s + 1) block target cur le)
  | inl u ↦ elim (ℕ_discrete cur target) [
    | yes at ↦
        let here : (cur == target) ≡ true = ground arith in
        let first : target - cur ≡ 0 = omega arith in rw (u, here, first) refl
    | no ne ↦
        let more : (cur == target) ≡ false = ground arith in
        rw (u, more)
          (counted_on (block s) (used_slots n (s + 1) block) target cur
            (read_slots n (s + 1) block target (cur + 1)) (omega arith)
            (read_slots_lem n (s + 1) block target (cur + 1) (omega arith)))
  ]
]

get_elem?_front :
    (xs ys : List Entry) (k : ℕ) (e : Entry)
    → get_elem? xs k ≡ some e
    → get_elem? (xs ++ ys) k ≡ some e
get_elem?_front [] ys k e h = absurd (none-ne-some e h)
get_elem?_front (x ∷ xs) ys zero e h = h
get_elem?_front (x ∷ xs) ys (suc k) e h = get_elem?_front xs ys k e h

get_elem?_back :
    (xs ys : List Entry) (k j : ℕ) → k ≡ length xs + j → get_elem? (xs ++ ys) k ≡ get_elem? ys j
get_elem?_back [] ys k j h = ap (get_elem? ys) (omega arith)
get_elem?_back (x ∷ xs) ys zero j h = absurd (omega arith)
get_elem?_back (x ∷ xs) ys (suc k) j h = get_elem?_back xs ys k j (omega arith)

-- What the loop over the blocks gives where there are enough entries.
abbrev Reads : List Entry → ℕ → Result (Option Entry) → Type 0
Reads xs k r = (e : Entry) × (r ≡ ok (some e)) × (get_elem? xs k ≡ some e)

Reads-or_next :
    (xs ys : List Entry) (target cur : ℕ) (next : ℕ → Result (Option Entry)) (r : Option Entry × ℕ)
    → cur ≤ target
    → target - cur < length (xs ++ ys)
    → ReadSlots target cur xs r
    → ((cur' : ℕ)
        → cur' ≤ target
        → target - cur' < length ys
        → Reads ys (target - cur') (next cur'))
    → Reads (xs ++ ys) (target - cur) (or_next next r)
unfolding ReadSlots
Reads-or_next xs ys target cur next (some e, cur') le lt h later =
    (e, refl, get_elem?_front xs ys (target - cur) e h)
Reads-or_next xs ys target cur next (none, cur') le lt (at, below) later =
    let (e, read, there) = later cur' below (omega (arith, length-append xs ys)) in
    (e, read, get_elem?_back xs ys (target - cur) (target - cur') (omega arith) ∙ there)

read_blocks_lem :
    (n i : ℕ) (d : Dir) (target cur : ℕ)
    → cur ≤ target
    → target - cur < length (used_blocks n i d)
    → Reads (used_blocks n i d) (target - cur) (read_blocks n i d target cur)
unfolding read_blocks used_blocks
read_blocks_lem zero i d target cur le lt = absurd (omega arith)
read_blocks_lem (suc n) i d target cur le lt =
    let go : leb cur target ≡ true = ground arith in
    elim (Bool-cases (d.table i == 0)) [
      | inl e ↦ rw (go, e) (read_blocks_lem n (i + 1) d target cur le (rw e at lt))
      | inr e ↦
          rw (go, e)
            (Reads-or_next (used_slots whole_slots 0 (d.disk (d.table i))) (used_blocks n (i + 1) d)
              target cur (read_blocks n (i + 1) d target) _ le (rw e at lt)
              (read_slots_lem whole_slots 0 (d.disk (d.table i)) target cur le)
              (λ cur' le' lt'. read_blocks_lem n (i + 1) d target cur' le' lt'))
    ]

-- Where the size is the number of the used entries, `syscall_readdir` at a position below it returns the entry of that
-- number in the list of the used entries and moves the position on by one, and at the size it returns 0 and stays, so
-- that the calls from position 0 on read each entry once, in the order of the list.
pub readdir_lem :
    (d : Dir) (pos : ℕ)
    → d.size ≡ length (entries d)
    → (o : Option Entry) × (readdir d pos ≡ ok (o, if leb d.size pos then pos else pos + 1))
      × (o ≡ get_elem? (entries d) pos)
unfolding readdir
readdir_lem d pos counted = elim (dec_lt pos d.size) [
  | no done ↦
      let stop : leb d.size pos ≡ true = ground arith in
      rw stop (none, refl, sym (get_elem?-out (entries d) pos (omega (arith, counted))))
  | yes more ↦
      let go : leb d.size pos ≡ false = ground arith in
      let (e, read, there) =
        read_blocks_lem block_count 0 d pos 0 (omega arith) (omega (arith, counted)) in
      let same : pos - 0 ≡ pos = omega arith in
      rw (go, read) (some e, refl, sym there ∙ ap (get_elem? (entries d)) same)
]
