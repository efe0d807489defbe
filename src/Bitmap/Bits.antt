-- ===== src/Bitmap/Bits.antt =====
-- `BitMapSet`, `BitMapReset`, `BitMapTest` and `BitMapInit` on the abstract map.
use mmzzos.Base.{
  ℕ, zero, suc, ◌*◌, ◌<◌, ◌≡◌, refl, ap, ◌∙◌, Bool, true, false, List, [], ◌∷◌, arith, ◌==◌, leb,
  if◌then◌else◌, Bool-cases, ==_iff, length, get_or, get_elem?, set, length-set,
  get_elem?-eq-get_or, get_elem?-out, get_or-set_self, get_or-set_ne, All, All-get_or, All-set,
  none, some, ok, panic, fault, Result, ◌>>=◌, Ensures, inl, inr,
}
use mmzzos.Base.Bytes.{
  bit, set_bit, clear_bit, bit-set_bit, bit-clear_bit, set_bit-lt, clear_bit-lt, bit-zero,
}
use mmzzos.Bitmap.{
  BitMap, zero_fill, init, byte_index, bit_index, reset_bit, mark_bit, test_bit, IsValid, bit_of,
  bit_at,
}

-- A new byte `v` at the place of bit `i` changes the map there alone.
module _ (bs : List ℕ) (i v : ℕ) (inside : byte_index i < length bs) where
  bit_of-set :
      (k : ℕ)
      → bit_of (set bs (byte_index i) v) k
        ≡ (if byte_index i == byte_index k then bit v (bit_index k) else bit_of bs k)
  bit_of-set k = elim (Bool-cases (byte_index i == byte_index k)) [
    | inl e ↦
        let e' : byte_index i ≡ byte_index k = (==_iff _ _).0 e in
        rw (e, ← e', get_or-set_self bs (byte_index i) v 0 inside)
    | inr e ↦ rw (e, get_or-set_ne bs (byte_index i) (byte_index k) v 0 (λ h. ground arith))
  ]

-- What a write of one bit leaves: the same map but for the bit `idx`, which is `b`.
pub record Wrote (bp : BitMap) (idx : ℕ) (b : Bool) (bp' : BitMap) : Type 0 where
  pub valid : IsValid bp'
  pub len : bp'.len ≡ bp.len
  pub bit : (k : ℕ) → bit_at bp' k ≡ (if idx == k then b else bit_at bp k)

module _ (bp : BitMap) (idx : ℕ) (valid : IsValid bp) (inside : idx < 8 * bp.len) where
  byte : ℕ
  byte = get_or bp.bits (byte_index idx) 0

  present : get_elem? bp.bits (byte_index idx) ≡ some byte
  unfolding byte
  present = get_elem?-eq-get_or bp.bits (byte_index idx) 0 (omega (arith, valid.storage))

  passes : leb (byte_index idx) bp.len ≡ true
  passes = ground arith

  small : byte < 256
  unfolding byte
  small =
      All-get_or (λ b. b < 256) bp.bits (byte_index idx) 0 valid.bytes
        (omega (arith, valid.storage))

  -- A byte that differs from the old one at most at the bit `idx` makes the map `Wrote`.
  write_byte :
      (v : ℕ) (b : Bool)
      → v < 256
      → ((k : ℕ) → k < 8 → bit v k ≡ (if bit_index idx == k then b else bit byte k))
      → Wrote bp idx b (record bp { bits = set bp.bits (byte_index idx) v })
  unfolding byte
  write_byte v b hv row = record {
    valid = record {
      storage = length-set bp.bits (byte_index idx) v ∙ valid.storage;
      bytes = All-set (λ b. b < 256) bp.bits (byte_index idx) v valid.bytes hv;
    };
    len = refl;
    bit = λ k.
        bit_of-set bp.bits idx v (omega (arith, valid.storage)) k
        ∙ split k (row (bit_index k) (omega arith));
  }
    where
      same_byte :
          (k : ℕ)
          → byte_index idx ≡ byte_index k
          → bit v (bit_index k)
            ≡ (if bit_index idx == bit_index k then b else bit byte (bit_index k))
          → bit v (bit_index k) ≡ (if idx == k then b else bit_at bp k)
      same_byte k e h = ground (arith, ap (λ i. bit (get_or bp.bits i 0) (bit_index k)) e)

      split :
          (k : ℕ)
          → bit v (bit_index k)
            ≡ (if bit_index idx == bit_index k then b else bit byte (bit_index k))
          → (if byte_index idx == byte_index k then bit v (bit_index k) else bit_at bp k)
            ≡ (if idx == k then b else bit_at bp k)
      split k h = elim (Bool-cases (byte_index idx == byte_index k)) [
        | inl e ↦ rw e (same_byte k ((==_iff _ _).0 e) h)
        | inr e ↦ ground arith
      ]

  -- `BitMapSet` inside the map sets the bit and no other, and passes its `ASSERT`.
  pub mark_bit_lem : Ensures (Wrote bp idx true) (mark_bit bp idx)
  unfolding mark_bit
  mark_bit_lem =
      rw (passes, present)
        (write_byte (set_bit byte (bit_index idx)) true (set_bit-lt _ _)
          λ k hk. bit-set_bit byte (bit_index idx) k small (omega arith) hk)

  -- `BitMapReset` inside the map clears the bit and no other, and passes its `ASSERT`.
  pub reset_bit_lem : Ensures (Wrote bp idx false) (reset_bit bp idx)
  unfolding reset_bit
  reset_bit_lem =
      rw (passes, present)
        (write_byte (clear_bit byte (bit_index idx)) false (clear_bit-lt _ _)
          λ k hk. bit-clear_bit byte (bit_index idx) k small (omega arith) hk)

  -- `BitMapTest` inside the map reads the bit.
  pub test_bit_lem : test_bit bp idx ≡ ok (bit_at bp idx)
  unfolding test_bit byte
  test_bit_lem = rw (passes, present) refl

-- The `ASSERT` of the three routines lets the first byte behind the map pass: they then touch
-- storage that is not the map's.
pub past_end :
    (bp : BitMap) (idx : ℕ)
    → IsValid bp
    → byte_index idx ≡ bp.len
    → (mark_bit bp idx ≡ fault) × (reset_bit bp idx ≡ fault) × (test_bit bp idx ≡ fault)
unfolding mark_bit reset_bit test_bit
past_end bp idx v e =
    let passes : leb (byte_index idx) bp.len ≡ true = ground arith in
    let out : get_elem? bp.bits (byte_index idx) ≡ none =
      get_elem?-out bp.bits (byte_index idx) (omega (arith, v.storage)) in
    (rw (passes, out), rw (passes, out), rw (passes, out))

zero_fill_lem :
    (n : ℕ) (bs : List ℕ)
    → length bs ≡ n
    → Ensures
        (λ zs. (length zs ≡ n) × All (λ b. b < 256) zs × ((i : ℕ) → get_or zs i 0 ≡ 0))
        (zero_fill n bs)
unfolding zero_fill
zero_fill_lem zero [] h = (refl, tt, λ i. refl)
zero_fill_lem zero (b ∷ bs) h = absurd (omega arith)
zero_fill_lem (suc n) [] h = absurd (omega arith)
zero_fill_lem (suc n) (b ∷ bs) h = cons (zero_fill n bs) (zero_fill_lem n bs (omega arith))
  where
    first : (zs : List ℕ) → ((i : ℕ) → get_or zs i 0 ≡ 0) → (i : ℕ) → get_or (0 ∷ zs) i 0 ≡ 0
    first zs h zero = refl
    first zs h (suc i) = h i

    cons :
        (r : Result (List ℕ))
        → Ensures (λ zs. (length zs ≡ n) × All (λ b. b < 256) zs × ((i : ℕ) → get_or zs i 0 ≡ 0)) r
        → Ensures
            (λ zs. (length zs ≡ suc n) × All (λ b. b < 256) zs × ((i : ℕ) → get_or zs i 0 ≡ 0))
            (do rest ← r; ok (0 ∷ rest))
    cons (ok zs) (len, small, clear) = (omega arith, (omega arith, small), first zs clear)
    cons panic h = h
    cons fault h = h

-- `BitMapInit` leaves a valid map of the same length with every bit clear.
pub init_lem :
    (bp : BitMap)
    → length bp.bits ≡ bp.len
    → Ensures (λ bp'. IsValid bp' × (bp'.len ≡ bp.len) × ((k : ℕ) → bit_at bp' k ≡ false)) (init bp)
unfolding init
init_lem bp h = wrap (zero_fill bp.len bp.bits) (zero_fill_lem bp.len bp.bits h)
  where
    wrap :
        (r : Result (List ℕ))
        → Ensures
            (λ zs. (length zs ≡ bp.len) × All (λ b. b < 256) zs × ((i : ℕ) → get_or zs i 0 ≡ 0))
            r
        → Ensures
            (λ (bp' : BitMap). IsValid bp' × (bp'.len ≡ bp.len) × ((k : ℕ) → bit_at bp' k ≡ false))
            (do bs ← r; ok (record bp { bits = bs }))
    wrap (ok zs) (len, small, clear) = (
      record { storage = len; bytes = small },
      refl,
      λ k. rw (clear (byte_index k)) (bit-zero (bit_index k)),
    )
    wrap panic h = h
    wrap fault h = h
