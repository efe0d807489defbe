-- ===== src/Strings/Text.antt =====
-- The characters of a string in memory, and strlen and strip of lib/string.c on them.
use mmzzos.Base.{
  ℕ, zero, suc, ◌+◌, ◌%◌, ◌^◌, ◌<◌, ◌≡◌, refl, sym, ap, ◌∙◌, false, some, List, [], ◌∷◌, length,
  ◌==◌, if◌then◌else◌, arith, Bool-cases, inl, inr, subst,
}
use mmzzos.Mem.{Memory, forward}
use mmzzos.Mem.Setting.{forward_lem}
use mmzzos.Strings.{strlen, strlen_from, strip}

-- The characters from `at` on, up to the first 0.
abbrev pub Chars : Memory → ℕ → List ℕ → Type 0
Chars m at [] = m at ≡ 0
Chars m at (c ∷ cs) = (m at ≡ c) × (0 < c) × Chars m (at + 1) cs

-- The string at `at` has the characters `cs`, none of them 0, and ends before the last address.
pub record IsText (m : Memory) (at : ℕ) (cs : List ℕ) : Type 0 where
  pub inside : at + length cs + 1 < 2 ^ 32
  pub chars : Chars m at cs

pub IsText-rest :
    (m : Memory) (at c : ℕ) (cs : List ℕ) → IsText m at (c ∷ cs) → IsText m (forward 1 at) cs
IsText-rest m at c cs t =
    let one = forward_lem 1 at (omega (arith, t.inside)) in
    record {
      inside = omega (arith, one, t.inside);
      chars = subst (λ a. Chars m a cs) (sym one) t.chars.2;
    }

strlen_from_lem :
    (cs : List ℕ) (fuel : ℕ) (m : Memory) (at len : ℕ)
    → length cs < fuel
    → len + length cs < 2 ^ 32
    → IsText m at cs
    → strlen_from fuel m at len ≡ some (len + length cs)
unfolding strlen_from
strlen_from_lem cs zero m at len lt fits t = absurd (omega arith)
strlen_from_lem [] (suc fuel) m at len lt fits t = rw t.chars (ap some (omega arith))
strlen_from_lem (c ∷ cs) (suc fuel) m at len lt fits t =
    let go =
      strlen_from_lem cs fuel m (forward 1 at) ((len + 1) % 2 ^ 32) (omega arith) (omega arith)
        (IsText-rest m at c cs t) in
    let there : (m at == 0) ≡ false = ground (arith, t.chars.0, t.chars.1) in
    rw there (go ∙ ap some (omega arith))

-- `strlen` of a string ends and is the number of its characters.
pub strlen_lem :
    (cs : List ℕ) (fuel : ℕ) (m : Memory) (at : ℕ)
    → length cs < fuel
    → IsText m at cs
    → strlen fuel m at ≡ some (length cs)
unfolding strlen
strlen_lem cs fuel m at lt t =
    strlen_from_lem cs fuel m at 0 lt (omega (arith, t.inside)) t ∙ ap some (omega arith)

-- The string behind its leading blanks.
abbrev pub stripped : List ℕ → List ℕ
stripped [] = []
stripped (c ∷ cs) = if c == 32 then stripped cs else c ∷ cs

-- `strip` ends at the address of the string without its leading blanks.
pub strip_lem :
    (cs : List ℕ) (fuel : ℕ) (m : Memory) (at : ℕ)
    → length cs < fuel
    → IsText m at cs
    → (a : ℕ) × (strip fuel m at ≡ some a) × IsText m a (stripped cs)
unfolding strip
strip_lem cs zero m at lt t = absurd (omega arith)
strip_lem [] (suc fuel) m at lt t = (at, rw t.chars refl, t)
strip_lem (c ∷ cs) (suc fuel) m at lt t =
    let there : (m at == 0) ≡ false = ground (arith, t.chars.0, t.chars.1) in
    elim (Bool-cases (c == 32)) [
      | inl e ↦
          let (a, ends, text) =
            strip_lem cs fuel m (forward 1 at) (omega arith) (IsText-rest m at c cs t) in
          (a, rw (there, t.chars.0, e) ends, rw e text)
      | inr e ↦ (at, rw (there, t.chars.0, e) refl, rw e t)
    ]
