-- ===== src/Bitmap/Search.antt =====
-- `BitMapAllocate` finds the first window of clear bits that is long enough, or there is none.
use mmzzos.Base.{
  ℕ, zero, suc, ◌+◌, ◌-◌, ◌*◌, ◌/◌, ◌%◌, ◌≤◌, ◌<◌, ◌≡◌, refl, sym, ap, ◌∙◌, Bool, true, false, List,
  [], ◌∷◌, arith, leb, if◌then◌else◌, Bool-cases, leb→le, dec_le, dec_lt, subst, Option, none, some,
  length, ok, Ensures, inl, inr,
}
use mathlib.Core.Bool.{false≢true}
use mmzzos.Base.Bytes.{bit}
use mmzzos.Bitmap.{BitMap, Scan, found, more, scan_byte, scan, allocate, IsValid, bit_of, bit_at}

-- The `cnt` bits from `t` on are clear.
abbrev pub Free : (ℕ → Bool) → ℕ → ℕ → Type 0
Free p t cnt = (k : ℕ) → t ≤ k → k < t + cnt → p k ≡ false

-- What a caller is told about the first `n` bits of the map `p`: the place of the first window, or
-- that there is none.
abbrev pub First : (ℕ → Bool) → ℕ → ℕ → Option ℕ → Type 0
First p n cnt none = (t : ℕ) → t + cnt ≤ n → ¬ Free p t cnt
First p n cnt (some t) = (t + cnt ≤ n) × Free p t cnt × ((s : ℕ) → s < t → ¬ Free p s cnt)

-- The same walk over the bits of an abstract map, `n` of them left.
search_from : (ℕ → Bool) → ℕ → ℕ → ℕ → ℕ → Option ℕ
search_from p cnt zero l r = none
search_from p cnt (suc n) l r =
    let l' = if p r then r + 1 else l in
    let rest = search_from p cnt n l' (r + 1) in if leb cnt (r + 1 - l') then some l' else rest

-- The loop invariant before bit `r`.
record Window (p : ℕ → Bool) (cnt l r : ℕ) : Type 0 where
  ordered : l ≤ r
  clear : (k : ℕ) → l ≤ k → k < r → p k ≡ false
  short : r < l + cnt
  fresh : (t : ℕ) → t + cnt ≤ r → ¬ Free p t cnt
  edge : (k : ℕ) → suc k ≡ l → p k ≡ true

at_end : (p : ℕ → Bool) {r k : ℕ} {b : Bool} → p r ≡ b → k ≡ r → p k ≡ b
at_end p {b} h e = subst (λ i. p i ≡ b) (sym e) h

module _ (p : ℕ → Bool) (cnt : ℕ) (pos : 0 < cnt) where
  -- A set bit at `r` starts a new window behind it.
  Window-hit : {l r : ℕ} → p r ≡ true → Window p cnt l r → Window p cnt (r + 1) (r + 1)
  Window-hit {l} {r} hit w = record {
    ordered = omega arith;
    clear = λ k h h'. absurd (omega arith);
    short = omega arith;
    fresh = λ t ht free. elim (dec_le (t + cnt) r) [
      | yes le ↦ w.fresh t le free
      | no gt ↦ false≢true (sym (free r (omega arith) (omega arith)) ∙ hit)
    ];
    edge = λ k e. at_end p hit (omega arith);
  }

  -- A clear bit at `r` makes the window longer.
  Window-miss :
      {l r : ℕ} → p r ≡ false → r + 1 < l + cnt → Window p cnt l r → Window p cnt l (r + 1)
  Window-miss {l} {r} miss short w = record {
    ordered = omega (arith, w.ordered);
    clear = λ k h h'. elim (dec_lt k r) [
      | yes lt ↦ w.clear k h lt
      | no ge ↦ at_end p miss (omega arith)
    ];
    short = short;
    fresh = λ t ht free. elim (dec_le (t + cnt) r) [
      | yes le ↦ w.fresh t le free
      | no gt ↦ false≢true (
          sym (free (l - 1) (omega arith) (omega (arith, w.ordered)))
          ∙ w.edge (l - 1) (omega arith))
    ];
    edge = w.edge;
  }

  -- A window that has become long enough is the first one.
  First-Window :
      {l r e : ℕ}
      → p r ≡ false
      → cnt ≤ r + 1 - l
      → r + 1 ≤ e
      → Window p cnt l r
      → First p e cnt (some l)
  First-Window {l} {r} miss long bound w = (
    omega (arith, w.ordered),
    λ k h h'. elim (dec_lt k r) [
      | yes lt ↦ w.clear k h lt
      | no ge ↦ at_end p miss (omega (arith, w.short))
    ],
    λ s hs. w.fresh s (omega (arith, w.short)),
  )

  search_from-First :
      (n l r e : ℕ) → r + n ≡ e → Window p cnt l r → First p e cnt (search_from p cnt n l r)
  unfolding search_from
  search_from-First zero l r e h w = λ t ht. w.fresh t (omega arith)
  search_from-First (suc n) l r e h w = elim (Bool-cases (p r)) [
    | inl hit ↦
        let wait : leb cnt (r + 1 - (r + 1)) ≡ false = ground arith in
        rw (hit, wait) (search_from-First n (r + 1) (r + 1) e (omega arith) (Window-hit hit w))
    | inr miss ↦ rw miss (elim (Bool-cases (leb cnt (r + 1 - l))) [
      | inl long ↦ rw long (First-Window miss (leb→le _ _ long) (omega arith) w)
      | inr wait ↦ rw wait (
          search_from-First n l (r + 1) e (omega arith)
            (Window-miss miss (ground (arith, w.ordered)) w))
    ])
  ]

-- Where the outer loop goes on after a byte.
resume : (ℕ → Bool) → ℕ → ℕ → Scan → Option ℕ
resume p cnt m (found t) = some t
resume p cnt m (more l r) = search_from p cnt m l r

-- The inner loop walks the bits of one byte.
scan_byte-search :
    (p : ℕ → Bool) (cnt b m n j l r : ℕ)
    → ((k : ℕ) → k < n → p (r + k) ≡ bit b (j + k))
    → search_from p cnt (n + m) l r ≡ resume p cnt m (scan_byte n b cnt j l r)
unfolding scan_byte search_from resume
scan_byte-search p cnt b m zero j l r same = ap (λ t. search_from p cnt t l r) (omega arith)
scan_byte-search p cnt b m (suc n) j l r same =
    rw (unfolded, here)
      (split (leb cnt (r + 1 - next)) (scan_byte-search p cnt b m n (j + 1) next (r + 1) later))
  where
    unfolded : suc n + m ≡ suc (n + m)
    unfolded = omega arith

    here : p r ≡ bit b j
    here = ap p (omega arith) ∙ same 0 (omega arith) ∙ ap (bit b) (omega arith)

    next : ℕ
    next = if bit b j then r + 1 else l

    later : (k : ℕ) → k < n → p (r + 1 + k) ≡ bit b (j + 1 + k)
    later k h = ap p (omega arith) ∙ same (k + 1) (omega arith) ∙ ap (bit b) (omega arith)

    split :
        (t : Bool)
        → search_from p cnt (n + m) next (r + 1)
          ≡ resume p cnt m (scan_byte n b cnt (j + 1) next (r + 1))
        → (if t then some next else search_from p cnt (n + m) next (r + 1))
          ≡ resume p cnt m (if t then found next else scan_byte n b cnt (j + 1) next (r + 1))
    split true ih = refl
    split false ih = ih

scan_byte-more : (n b cnt j l r l' r' : ℕ) → scan_byte n b cnt j l r ≡ more l' r' → r' ≡ r + n
unfolding scan_byte
scan_byte-more zero b cnt j l r l' r' h = ground arith
scan_byte-more (suc n) b cnt j l r l' r' h =
    ground (arith, scan_byte-more n b cnt (j + 1) (if bit b j then r + 1 else l) (r + 1) l' r')

bit_of-head : (b : ℕ) (bs : List ℕ) (k : ℕ) → k < 8 → bit_of (b ∷ bs) k ≡ bit b k
bit_of-head b bs k h =
    let q : k / 8 ≡ 0 = omega arith in let m : k % 8 ≡ k = omega arith in rw (q, m)

bit_of-tail : (b : ℕ) (bs : List ℕ) (k : ℕ) → bit_of (b ∷ bs) (8 + k) ≡ bit_of bs k
bit_of-tail b bs k =
    let q : (8 + k) / 8 ≡ suc (k / 8) = omega arith in
    let m : (8 + k) % 8 ≡ k % 8 = omega arith in rw (q, m)

-- The outer loop walks the bits of all bytes, and reads no byte behind them.
scan_search :
    (p : ℕ → Bool) (cnt n : ℕ) (bs : List ℕ) (l r : ℕ)
    → length bs ≡ n
    → ((k : ℕ) → p (r + k) ≡ bit_of bs k)
    → scan n bs cnt l r ≡ ok (search_from p cnt (8 * n) l r)
unfolding scan search_from resume
scan_search p cnt zero bs l r len same = refl
scan_search p cnt (suc n) [] l r len same = absurd (omega arith)
scan_search p cnt (suc n) (b ∷ bs) l r len same =
    let bytes : 8 * suc n ≡ 8 + 8 * n = omega arith in
    rw (bytes, scan_byte-search p cnt b (8 * n) 8 0 l r first)
      (go (scan_byte 8 b cnt 0 l r) refl
        λ l' r' e. scan_search p cnt n bs l' r' (omega arith) (rest l' r' e))
  where
    first : (k : ℕ) → k < 8 → p (r + k) ≡ bit b (0 + k)
    first k h = same k ∙ bit_of-head b bs k h ∙ ap (bit b) (omega arith)

    rest : (l' r' : ℕ) → scan_byte 8 b cnt 0 l r ≡ more l' r' → (k : ℕ) → p (r' + k) ≡ bit_of bs k
    rest l' r' e k =
        ap p (omega (arith, scan_byte-more 8 b cnt 0 l r l' r' e))
        ∙ same (8 + k)
        ∙ bit_of-tail b bs k

    go :
        (s : Scan)
        → scan_byte 8 b cnt 0 l r ≡ s
        → ((l' r' : ℕ)
            → scan_byte 8 b cnt 0 l r ≡ more l' r'
            → scan n bs cnt l' r' ≡ ok (search_from p cnt (8 * n) l' r'))
        → (elim s [ found t ↦ ok (some t) | more l' r' ↦ scan n bs cnt l' r' ])
          ≡ ok (resume p cnt (8 * n) s)
    go (found t) e ih = refl
    go (more l' r') e ih = ih l' r' e

-- On a valid map `BitMapAllocate` reads no byte outside it, and for `cnt` at least 1 it returns the
-- first place with `cnt` clear bits in a row inside the map, or -1 where there is no such place.
pub allocate-First :
    (bp : BitMap) (cnt : ℕ)
    → IsValid bp
    → 0 < cnt
    → Ensures (First (bit_at bp) (8 * bp.len) cnt) (allocate bp cnt)
unfolding allocate
allocate-First bp cnt v pos =
    rw
      (scan_search (bit_at bp) cnt bp.len bp.bits 0 0 v.storage (λ k. ap (bit_at bp) (omega arith)))
      (search_from-First (bit_at bp) cnt pos (8 * bp.len) 0 0 (8 * bp.len) (omega arith) (record {
        ordered = omega arith;
        clear = λ k h h'. absurd (omega arith);
        short = omega arith;
        fresh = λ t ht. absurd (omega arith);
        edge = λ k e. absurd (omega arith);
      }))
