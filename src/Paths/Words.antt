-- ===== src/Paths/Words.antt =====
-- The names that are looked for are the words between the slashes.
use mmzzos.Base.{
  ℕ, zero, suc, ◌≤◌, ◌<◌, ◌≡◌, ◌≢◌, ◌⊎◌, refl, sym, ap, ap₂, ◌∙◌, subst, Bool, true, false, not,
  ◌==◌, Option, some, List, [], ◌∷◌, if◌then◌else◌, length, Bool-cases, inl, inr, arith,
}
use mathlib.Core.Bool.{false≢true}
use mathlib.Core.Option.{none-ne-some, some-injective}
use mmzzos.Paths.{
  slash, skip_slashes, take_name, parse_path, go_on_with, names_of, before_stripped, strip_slashes,
  all_path_chars, preprocessing_path,
}

-- Whether a name ends here.
abbrev pub at_end : List ℕ → Bool
at_end [] = true
at_end (c ∷ cs) = c == slash

abbrev grow : ℕ → Bool → List (List ℕ) → List (List ℕ)
grow c true ws = (c ∷ []) ∷ ws
grow c false [] = (c ∷ []) ∷ []
grow c false (w ∷ ws) = (c ∷ w) ∷ ws

-- The words of a path: the longest runs of characters other than the slash.
unfoldable pub words : List ℕ → List (List ℕ)
words [] = []
words (c ∷ cs) = let later = words cs in if c == slash then later else grow c (at_end cs) later

-- The last character is not a slash, and there is one.
unfoldable pub ends_in_name : List ℕ → Bool
ends_in_name [] = false
ends_in_name (c ∷ []) = not (c == slash)
ends_in_name (c ∷ d ∷ cs) = ends_in_name (d ∷ cs)

skip_slashes-slash :
    (c : ℕ) (cs : List ℕ) → (c == slash) ≡ true → skip_slashes (c ∷ cs) ≡ skip_slashes cs
unfolding skip_slashes
skip_slashes-slash c cs e = rw e refl

skip_slashes-name : (c : ℕ) (cs : List ℕ) → (c == slash) ≡ false → skip_slashes (c ∷ cs) ≡ c ∷ cs
unfolding skip_slashes
skip_slashes-name c cs e = rw e refl

take_name-slash : (c : ℕ) (cs : List ℕ) → (c == slash) ≡ true → take_name (c ∷ cs) ≡ ([], c ∷ cs)
unfolding take_name
take_name-slash c cs e = rw e refl

take_name-name :
    (c : ℕ) (cs : List ℕ)
    → (c == slash) ≡ false
    → take_name (c ∷ cs) ≡ (c ∷ (take_name cs).0, (take_name cs).1)
unfolding take_name
take_name-name c cs e = rw e refl

take_name-end : take_name [] ≡ ([], [])
unfolding take_name
take_name-end = refl

pub words-end : words [] ≡ []
unfolding words
words-end = refl

words-slash : (c : ℕ) (cs : List ℕ) → (c == slash) ≡ true → words (c ∷ cs) ≡ words cs
unfolding words
words-slash c cs e = rw e refl

words-name :
    (c : ℕ) (cs : List ℕ) → (c == slash) ≡ false → words (c ∷ cs) ≡ grow c (at_end cs) (words cs)
unfolding words
words-name c cs e = rw e refl

ends_in_name-not_slash : (c : ℕ) → ends_in_name (c ∷ []) ≡ true → (c == slash) ≡ false
unfolding ends_in_name
ends_in_name-not_slash c e = ground arith

pub ends_in_name-nonempty : ends_in_name [] ≢ true
unfolding ends_in_name
ends_in_name-nonempty e = false≢true e

ends_in_name-tail :
    (c d : ℕ) (cs : List ℕ) → ends_in_name (c ∷ d ∷ cs) ≡ true → ends_in_name (d ∷ cs) ≡ true
unfolding ends_in_name
ends_in_name-tail c d cs e = e

pub skip_slashes_lem :
    (path : List ℕ)
    → ends_in_name path ≡ true
    → (words (skip_slashes path) ≡ words path)
      × (ends_in_name (skip_slashes path) ≡ true)
      × (at_end (skip_slashes path) ≡ false)
      × (length (skip_slashes path) ≤ length path)
skip_slashes_lem [] e = absurd (ends_in_name-nonempty e)
skip_slashes_lem (c ∷ []) e =
    let name = ends_in_name-not_slash c e in
    rw (skip_slashes-name c [] name) (refl, e, name, omega arith)
skip_slashes_lem (c ∷ d ∷ cs) e = elim (Bool-cases (c == slash)) [
  | inl s ↦
      let (w, n, a, l) = skip_slashes_lem (d ∷ cs) (ends_in_name-tail c d cs e) in
      rw (skip_slashes-slash c (d ∷ cs) s, words-slash c (d ∷ cs) s) (w, n, a, omega (arith, l))
  | inr s ↦ rw (skip_slashes-name c (d ∷ cs) s) (refl, e, s, omega arith)
]

-- A path that begins with a name: its first word, and the path behind it.
pub record FirstName (path name rest : List ℕ) : Type 0 where
  pub first : words path ≡ name ∷ words rest
  pub shorter : length rest < length path
  pub stops : at_end rest ≡ true
  pub ends : rest ≢ [] → ends_in_name rest ≡ true

FirstName-next :
    (c : ℕ) (path name rest : List ℕ)
    → (c == slash) ≡ false
    → at_end path ≡ false
    → FirstName path name rest
    → FirstName (c ∷ path) (c ∷ name) rest
FirstName-next c path name rest e inside f = record {
  first = words-name c path e ∙ rw (inside, f.first) refl;
  shorter = omega (arith, f.shorter);
  stops = f.stops;
  ends = f.ends;
}

pub take_name_lem :
    (path : List ℕ)
    → at_end path ≡ false
    → ends_in_name path ≡ true
    → FirstName path (take_name path).0 (take_name path).1
take_name_lem [] a e = absurd (ends_in_name-nonempty e)
take_name_lem (c ∷ []) a e =
    rw (take_name-name c [] a, take_name-end)
      (record {
        first = words-name c [] a;
        shorter = omega arith;
        stops = refl;
        ends = λ ne. absurd (ne refl);
      })
take_name_lem (c ∷ d ∷ cs) a e = elim (Bool-cases (d == slash)) [
  | inl s ↦
      rw (take_name-name c (d ∷ cs) a, take_name-slash d cs s)
        (record {
          first = words-name c (d ∷ cs) a ∙ rw s refl;
          shorter = omega arith;
          stops = s;
          ends = λ ne. ends_in_name-tail c d cs e;
        })
  | inr s ↦
      rw (take_name-name c (d ∷ cs) a)
        (FirstName-next c (d ∷ cs) _ _ a s (take_name_lem (d ∷ cs) s (ends_in_name-tail c d cs e)))
]

pub parse_path-slash :
    (c : ℕ) (cs : List ℕ)
    → (c == slash) ≡ true
    → parse_path (c ∷ cs) ≡ some (take_name (skip_slashes (c ∷ cs)))
unfolding parse_path
parse_path-slash c cs e = rw e refl

-- The loop behind one call of `ParsePath`.
go_on_with-FirstName :
    (go_on : List ℕ → Option (List (List ℕ))) (path : List ℕ) (p : List ℕ × List ℕ)
    → FirstName path p.0 p.1
    → ((c : ℕ) (rest : List ℕ) → p.1 ≡ c ∷ rest → go_on (c ∷ rest) ≡ some (words (c ∷ rest)))
    → go_on_with go_on (some p) ≡ some (words path)
go_on_with-FirstName go_on path (name, []) f later =
    ap some (ap (λ ws. name ∷ ws) (sym words-end) ∙ sym f.first)
go_on_with-FirstName go_on path (name, c ∷ rest) f later =
    rw (later c rest refl) (ap some (sym f.first))

pub cons-nonempty : (c : ℕ) (cs : List ℕ) → c ∷ cs ≢ []
cons-nonempty c cs e = false≢true (ap (λ (l : List ℕ). elim l [ [] ↦ true | x ∷ xs ↦ false ]) e)

-- Of a path that begins with a slash and ends in a character that is none, with fuel for each character and one round
-- more, the loop of `SearchFile` takes the words between the slashes, in their order.
pub names_of_lem :
    (fuel : ℕ) (c : ℕ) (cs : List ℕ)
    → length (c ∷ cs) < fuel
    → (c == slash) ≡ true
    → ends_in_name (c ∷ cs) ≡ true
    → names_of fuel (c ∷ cs) ≡ some (words (c ∷ cs))
unfolding names_of
names_of_lem zero c cs lt e name = absurd (omega arith)
names_of_lem (suc fuel) c cs lt e name =
    let (w, n, a, l) = skip_slashes_lem (c ∷ cs) name in
    let f = take_name_lem (skip_slashes (c ∷ cs)) a n in
    rw (parse_path-slash c cs e) (
      go_on_with-FirstName (names_of fuel) (skip_slashes (c ∷ cs)) _ f (λ d rest at.
        names_of_lem fuel d rest (omega (arith, f.shorter, l, ap length (sym at)))
          (ap at_end (sym at) ∙ f.stops)
          (ap ends_in_name (sym at)
            ∙ f.ends (λ none_left. cons-nonempty d rest (sym at ∙ none_left))))
      ∙ ap some w)

-- What dropping the slashes at the end keeps.
record Stripped (path out : List ℕ) : Type 0 where
  same_words : words out ≡ words path
  same_start : at_end out ≡ at_end path
  ends : out ≢ [] → ends_in_name out ≡ true

words-before : (c : ℕ) (cs out : List ℕ) → Stripped cs out → words (c ∷ out) ≡ words (c ∷ cs)
words-before c cs out s = elim (Bool-cases (c == slash)) [
  | inl e ↦ words-slash c out e ∙ s.same_words ∙ sym (words-slash c cs e)
  | inr e ↦ words-name c out e ∙ ap₂ (grow c) s.same_start s.same_words ∙ sym (words-name c cs e)
]

Stripped-before :
    (c : ℕ) (cs out : List ℕ) → Stripped cs out → Stripped (c ∷ cs) (before_stripped c out)
unfolding ends_in_name
Stripped-before c cs [] s = elim (Bool-cases (c == slash)) [
  | inl e ↦ rw e (record {
    same_words = s.same_words ∙ sym (words-slash c cs e);
    same_start = sym e;
    ends = λ ne. absurd (ne refl);
  })
  | inr e ↦
      rw e (record {
        same_words = words-before c cs [] s;
        same_start = refl;
        ends = λ ne. ground arith;
      })
]
Stripped-before c cs (d ∷ ds) s = record {
  same_words = words-before c cs (d ∷ ds) s;
  same_start = refl;
  ends = λ ne. s.ends (cons-nonempty d ds);
}

strip_slashes_lem : (path : List ℕ) → Stripped path (strip_slashes path)
unfolding strip_slashes
strip_slashes_lem [] = record {
  same_words = refl;
  same_start = refl;
  ends = λ ne. absurd (ne refl);
}
strip_slashes_lem (c ∷ cs) = Stripped-before c cs (strip_slashes cs) (strip_slashes_lem cs)

preprocessed :
    (path q : List ℕ)
    → preprocessing_path path ≡ some q
    → (at_end path ≡ true) × (strip_slashes path ≡ q)
unfolding preprocessing_path
preprocessed [] q e = absurd (none-ne-some q e)
preprocessed (c ∷ cs) q e = elim (Bool-cases (c == slash)) [
  | inr s ↦ absurd (none-ne-some q (rw s at e))
  | inl s ↦ elim (Bool-cases (all_path_chars (strip_slashes (c ∷ cs)))) [
    | inl a ↦ (s, some-injective (strip_slashes (c ∷ cs)) q (rw (s, a) at e))
    | inr a ↦ absurd (none-ne-some q (rw (s, a) at e))
  ]
]

-- What `PreprocessingPath` accepts is the root, for which its buffer is empty, or a path from which, with fuel for
-- each character and one round more, the loop of `SearchFile` takes the words of the path that was given.
pub preprocessing_path_lem :
    (path q : List ℕ)
    → preprocessing_path path ≡ some q
    → (q ≡ []) ⊎ (names_of (suc (length q)) q ≡ some (words path))
preprocessing_path_lem path q e =
    let (start, stripped) = preprocessed path q e in
    names path q start (subst (Stripped path) stripped (strip_slashes_lem path))
  where
    names :
        (path q : List ℕ)
        → at_end path ≡ true
        → Stripped path q
        → (q ≡ []) ⊎ (names_of (suc (length q)) q ≡ some (words path))
    names path [] start s = inl refl
    names path (c ∷ cs) start s = inr (
        names_of_lem (suc (length (c ∷ cs))) c cs (omega arith) (s.same_start ∙ start)
          (s.ends (cons-nonempty c cs))
        ∙ ap some s.same_words)
