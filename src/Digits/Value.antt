-- ===== src/Digits/Value.antt =====
-- The digits that itoa of lib/stdio.c writes, read back.
use mmzzos.Base.{
  ℕ, zero, suc, ◌+◌, ◌-◌, ◌*◌, ◌/◌, ◌%◌, ◌^◌, ◌≤◌, ◌<◌, ◌≡◌, refl, sym, ap, ◌∙◌, Bool, true, false,
  some, List, [], ◌∷◌, ◌++◌, ◌==◌, leb, if◌then◌else◌, arith, Bool-cases, inl, inr, All, ==_iff,
  subst, ◌||◌, ◌&&◌,
}
use native.Mathlib.Nat.{mod-lt, mod-add-div', div-mul-le_self, mul-le-mul_left, pow-suc}
use mmzzos.Digits.{digit, behind, itoa}

-- The value of a digit from '0' to '9' or from 'a' on.
unfoldable pub digit_value : ℕ → ℕ
digit_value c = if leb c 57 then c - 48 else c - 87

-- The number that a sequence of digits stands for, behind digits of the value `high`.
unfoldable pub number : ℕ → ℕ → List ℕ → ℕ
number base high [] = high
number base high (c ∷ cs) = number base (high * base + digit_value c) cs

pub number-snoc :
    (base high c : ℕ) (cs : List ℕ)
    → number base high (cs ++ c ∷ []) ≡ number base high cs * base + digit_value c
unfolding number
number-snoc base high c [] = refl
number-snoc base high c (x ∷ cs) = number-snoc base (high * base + digit_value x) c cs

digit_value-digit : (wb : ℕ) → digit_value (digit wb) ≡ wb
unfolding digit digit_value
digit_value-digit wb = ground arith

-- The characters '0' to '9' and the letters from 'a' for a base of at most 36.
abbrev pub is_digit : ℕ → Bool
is_digit c = (leb 48 c && leb c 57) || (leb 97 c && leb c 122)

half : (value base : ℕ) → 2 ≤ base → value / base * 2 ≤ value
half value base h =
    let le = div-mul-le_self value base in let two = mul-le-mul_left (value / base) h in omega arith

-- The value of the first digit.
abbrev pub first : List ℕ → ℕ
first [] = 0
first (c ∷ _) = digit_value c

first-snoc : (cs : List ℕ) (c : ℕ) → 0 < first cs → first (cs ++ c ∷ []) ≡ first cs
first-snoc [] c h = absurd (omega arith)
first-snoc (x ∷ cs) c h = refl

-- `cs` are the digits of `value`: they stand for it, each is one, and the first is not 0 unless
-- `value` is.
pub record Digits (base value : ℕ) (cs : List ℕ) : Type 0 where
  pub value_of : number base 0 cs ≡ value
  pub all_digits : All (λ c. is_digit c ≡ true) cs
  pub no_leading : 0 < value → 0 < first cs

digit-is_digit : (wb : ℕ) → wb < 36 → is_digit (digit wb) ≡ true
unfolding digit
digit-is_digit wb h = ground arith

All-snoc :
    (cs : List ℕ) (c : ℕ)
    → All (λ c. is_digit c ≡ true) cs
    → is_digit c ≡ true
    → All (λ c. is_digit c ≡ true) (cs ++ c ∷ [])
All-snoc [] c all h = (h, tt)
All-snoc (x ∷ cs) c all h = (all.0, All-snoc cs c all.1 h)

Digits-zero : (base : ℕ) → Digits base 0 (48 ∷ [])
unfolding number digit_value
Digits-zero base = record { value_of = omega arith; all_digits = (refl, tt); no_leading = λ h. h }

Digits-one :
    (base value : ℕ)
    → value / base ≡ 0
    → value % base < 36
    → 0 < value
    → Digits base value (digit (value % base) ∷ [])
unfolding number
Digits-one base value q r h =
    let all = mod-add-div' value base in
    let single : value % base ≡ value = omega (arith, all, ap (λ n. n * base) q) in
    record {
      value_of = omega (arith, digit_value-digit (value % base), single);
      all_digits = (digit-is_digit (value % base) r, tt);
      no_leading = λ _. omega (arith, digit_value-digit (value % base), single);
    }

Digits-snoc :
    (base value : ℕ) (cs : List ℕ)
    → Digits base (value / base) cs
    → value % base < 36
    → 0 < value / base
    → Digits base value (cs ++ digit (value % base) ∷ [])
Digits-snoc base value cs d r h =
    let all = mod-add-div' value base in
    record {
      value_of =
          number-snoc base 0 (digit (value % base)) cs
          ∙ ap (λ n. n * base + digit_value (digit (value % base))) d.value_of
          ∙ omega (arith, digit_value-digit (value % base), all);
      all_digits = All-snoc cs _ d.all_digits (digit-is_digit (value % base) r);
      no_leading =
          λ _. omega (arith, first-snoc cs (digit (value % base)) (d.no_leading h), d.no_leading h);
    }

-- `itoa` of a number below `2 ^ fuel`, in a base from 2 to 36, ends within `fuel` calls, and writes
-- the digits of the number; for a 32-bit number 32 calls are enough.
pub itoa_lem :
    (fuel value base : ℕ)
    → 0 < fuel
    → value < 2 ^ fuel
    → 2 ≤ base
    → base ≤ 36
    → (cs : List ℕ) × (itoa fuel value base ≡ some cs) × Digits base value cs
unfolding itoa
itoa_lem zero value base some_fuel below two top = absurd (omega arith)
itoa_lem (suc fuel) value base some_fuel below two top = elim (Bool-cases (value == 0)) [
  | inl e ↦ (
    48 ∷ [],
    rw e refl,
    subst (λ v. Digits base v (48 ∷ [])) (sym ((==_iff value 0).0 e)) (Digits-zero base),
  )
  | inr e ↦ elim (Bool-cases (value / base == 0)) [
    | inl q ↦ (
      digit (value % base) ∷ [],
      rw (e, q) refl,
      Digits-one base value ((==_iff (value / base) 0).0 q) rest (ground arith),
    )
    | inr q ↦
        let (cs, ends, d) = itoa_lem fuel (value / base) base (more q) less two top in
        (
          cs ++ digit (value % base) ∷ [],
          rw (e, q) (ap (λ h. behind h (digit (value % base))) ends),
          Digits-snoc base value cs d rest (ground arith),
        )
  ]
]
  where
    rest : value % base < 36
    rest = let small = mod-lt value {m = base} (omega arith) in omega arith

    power : 2 ^ suc fuel ≡ 2 ^ fuel * 2
    power = pow-suc 2 fuel

    less : value / base < 2 ^ fuel
    less = let h = half value base two in omega (arith, power)

    more : (value / base == 0) ≡ false → 0 < fuel
    more q = enough fuel less
      where
        enough : (f : ℕ) → value / base < 2 ^ f → 0 < f
        enough zero h = absurd (ground arith)
        enough (suc f) h = omega arith
