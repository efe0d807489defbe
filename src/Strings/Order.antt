-- ===== src/Strings/Order.antt =====
-- strcmp and strchr of lib/string.c on strings in memory.
use mmzzos.Base.{
  ℕ, zero, suc, ◌+◌, ◌<◌, ◌≡◌, ◌↔◌, refl, sym, ap, ◌∙◌, Bool, true, false, Option, none, some, List,
  [], ◌∷◌, All, length, ◌==◌, if◌then◌else◌, arith, Bool-cases, inl, inr,
}
use mmzzos.Mem.{Memory, forward, Sign, less, equal, greater}
use mmzzos.Mem.Setting.{forward_lem}
use mmzzos.Strings.{strcmp, char_less, strchr}
use mmzzos.Strings.Text.{IsText, IsText-rest}

-- The dictionary order of two texts of signed characters.
abbrev pub order : List ℕ → List ℕ → Sign
order [] [] = equal
order [] (_ ∷ _) = less
order (_ ∷ _) [] = greater
order (c ∷ cs) (d ∷ ds) =
    if char_less c d then less else if char_less d c then greater else order cs ds

is_equal : Sign → Bool
is_equal equal = true
is_equal _ = false

strcmp_order :
    (cs ds : List ℕ) (fuel : ℕ) (m : Memory) (s0 s1 : ℕ)
    → length cs < fuel
    → IsText m s0 cs
    → IsText m s1 ds
    → strcmp fuel m s0 s1 ≡ some (order cs ds)
unfolding strcmp
strcmp_order cs ds zero m s0 s1 lt t u = absurd (omega arith)
strcmp_order [] [] (suc fuel) m s0 s1 lt t u = rw (t.chars, u.chars) refl
strcmp_order [] (d ∷ ds) (suc fuel) m s0 s1 lt t u =
    let there : (m s1 == 0) ≡ false = ground (arith, u.chars.0, u.chars.1) in
    rw (t.chars, there) refl
strcmp_order (c ∷ cs) [] (suc fuel) m s0 s1 lt t u =
    let there : (m s0 == 0) ≡ false = ground (arith, t.chars.0, t.chars.1) in
    rw (there, u.chars) refl
strcmp_order (c ∷ cs) (d ∷ ds) (suc fuel) m s0 s1 lt t u =
    let h0 : (m s0 == 0) ≡ false = ground (arith, t.chars.0, t.chars.1) in
    let h1 : (m s1 == 0) ≡ false = ground (arith, u.chars.0, u.chars.1) in
    let rest =
      strcmp_order cs ds fuel m (forward 1 s0) (forward 1 s1) (omega arith)
        (IsText-rest m s0 c cs t) (IsText-rest m s1 d ds u) in
    rw (h0, h1, t.chars.0, u.chars.0, rest)
      (elim (Bool-cases (char_less c d)) [
        | inl e ↦ rw e refl
        | inr e ↦ elim (Bool-cases (char_less d c)) [
          | inl f ↦ rw (e, f) refl
          | inr f ↦ rw (e, f) refl
        ]
      ])

char-equal : (a b : ℕ) → a < 256 → b < 256 → char_less a b ≡ false → char_less b a ≡ false → a ≡ b
unfolding char_less
char-equal a b ha hb h h' = ground arith

char_less_self : (a : ℕ) → char_less a a ≡ false
unfolding char_less
char_less_self a = ground arith

order-equal :
    (cs ds : List ℕ)
    → All (λ c. c < 256) cs
    → All (λ c. c < 256) ds
    → is_equal (order cs ds) ≡ true
    → cs ≡ ds
unfolding is_equal
order-equal [] [] hc hd h = refl
order-equal [] (_ ∷ _) hc hd h = absurd (ground arith)
order-equal (_ ∷ _) [] hc hd h = absurd (ground arith)
order-equal (c ∷ cs) (d ∷ ds) hc hd h =
    let differ : char_less c d ≡ false = ground arith in
    let differ' : char_less d c ≡ false = ground arith in
    let e = char-equal c d hc.0 hd.0 differ differ' in
    let es = order-equal cs ds hc.1 hd.1 (ground arith) in ap (λ c. c ∷ cs) e ∙ ap (λ cs. d ∷ cs) es

order-same : (cs : List ℕ) → order cs cs ≡ equal
order-same [] = refl
order-same (c ∷ cs) = rw (char_less_self c) (order-same cs)

-- `strcmp` of two strings ends with their dictionary order by signed characters, and it is 0 exactly
-- where they have the same characters.
pub strcmp_lem :
    (cs ds : List ℕ) (fuel : ℕ) (m : Memory) (s0 s1 : ℕ)
    → length cs < fuel
    → IsText m s0 cs
    → IsText m s1 ds
    → All (λ c. c < 256) cs
    → All (λ c. c < 256) ds
    → (strcmp fuel m s0 s1 ≡ some (order cs ds)) × ((strcmp fuel m s0 s1 ≡ some equal) ↔ (cs ≡ ds))
unfolding is_equal
strcmp_lem cs ds fuel m s0 s1 lt t u hc hd =
    let run = strcmp_order cs ds fuel m s0 s1 lt t u in
    (
      run,
      (
        (λ h. order-equal cs ds hc hd (ap is_some_equal (sym run ∙ h))),
        (λ e. run ∙ ap (λ ds. some (order cs ds)) (sym e) ∙ ap some (order-same cs)),
      ),
    )
  where
    is_some_equal : Option Sign → Bool
    is_some_equal none = false
    is_some_equal (some r) = is_equal r

-- The address of the first `ch` in a text at `at`, `NULL` if there is none.
abbrev pub place : ℕ → List ℕ → ℕ → ℕ
place at [] ch = 0
place at (c ∷ cs) ch = if c == ch then at else place (at + 1) cs ch

-- `strchr` of a string ends at the first place of the character, and is `NULL` if it has no place.
pub strchr_lem :
    (cs : List ℕ) (fuel : ℕ) (m : Memory) (at ch : ℕ)
    → length cs < fuel
    → IsText m at cs
    → strchr fuel m at ch ≡ some (place at cs ch)
unfolding strchr
strchr_lem cs zero m at ch lt t = absurd (omega arith)
strchr_lem [] (suc fuel) m at ch lt t = rw t.chars refl
strchr_lem (c ∷ cs) (suc fuel) m at ch lt t =
    let there : (m at == 0) ≡ false = ground (arith, t.chars.0, t.chars.1) in
    let one = forward_lem 1 at (omega (arith, t.inside)) in
    let rest = strchr_lem cs fuel m (forward 1 at) ch (omega arith) (IsText-rest m at c cs t) in
    elim (Bool-cases (c == ch)) [
      | inl e ↦ rw (there, t.chars.0, e) refl
      | inr e ↦ rw (there, t.chars.0, e) (rest ∙ ap (λ a. some (place a cs ch)) one)
    ]
