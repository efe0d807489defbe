-- ===== src/Shell/Words.antt =====
-- The words of a text between separators, and the loop of shell/shell.c that steps over one in memory.
use mmzzos.Base.{
  ℕ, zero, suc, ◌+◌, ◌^◌, ◌≤◌, ◌<◌, ◌≡◌, refl, ap, ◌∙◌, Bool, true, false, some, List, [], ◌∷◌,
  length, All, ◌==◌, if◌then◌else◌, arith, Bool-cases, inl, inr, ◌⊎◌,
}
use mmzzos.Mem.{Memory}
use mmzzos.Mem.Setting.{forward_lem}
use mmzzos.Strings.Text.{Chars}
use mmzzos.Shell.{skip_word}
use mmzzos.Shell.Texts.{Spans}

-- The text up to the first separator.
abbrev pub until : ℕ → List ℕ → List ℕ
until flag [] = []
until flag (c ∷ cs) = if c == flag then [] else c ∷ until flag cs

-- The words, of which the first is left out when the text begins `inside` it.
abbrev pub words : Bool → ℕ → List ℕ → List (List ℕ)
words inside flag [] = []
words inside flag (c ∷ cs) =
    let later = words false flag cs in
    let rest = words true flag cs in
    if c == flag then later else if inside then rest else (c ∷ until flag cs) ∷ rest

-- Where a word of `size` characters ends, at `e`, with the words `left` behind it: at the end of the text, or
-- at a separator with a shorter text behind it.
pub record AtEnd (m : Memory) (e : ℕ) (left : List (List ℕ)) : Type 0 where
  pub nul : m e ≡ 0
  pub none_left : left ≡ []

pub record AtFlag (m : Memory) (flag e size total : ℕ) (left : List (List ℕ)) : Type 0 where
  pub rest : List ℕ
  pub stop : m e ≡ flag
  pub later : Chars m (e + 1) rest
  pub shorter : size + 1 + length rest ≡ total
  pub same : left ≡ words false flag rest

pub record IsSkipped (m : Memory) (flag at total : ℕ) (word : List ℕ) (left : List (List ℕ))
    : Type 0 where
  pub e : ℕ
  pub far : e ≡ at + length word
  pub short : length word ≤ total
  pub ends : (fuel : ℕ) → total < fuel → skip_word fuel m flag at ≡ some e
  pub there : Spans m at word
  pub pos : All (λ c. 0 < c) word
  pub stopped : AtEnd m e left ⊎ AtFlag m flag e (length word) total left

skip_word-stop :
    (fuel : ℕ) (m : Memory) (flag at : ℕ)
    → 0 < fuel
    → (m at ≡ flag) ⊎ (m at ≡ 0)
    → skip_word fuel m flag at ≡ some at
unfolding skip_word
skip_word-stop zero m flag at h stop = absurd (omega arith)
skip_word-stop (suc fuel) m flag at h stop = ground arith

skip_word-next :
    (fuel : ℕ) (m : Memory) (flag at : ℕ)
    → at + 1 < 2 ^ 32
    → (m at == flag) ≡ false
    → (m at == 0) ≡ false
    → skip_word (suc fuel) m flag at ≡ skip_word fuel m flag (at + 1)
unfolding skip_word
skip_word-next fuel m flag at fits h h0 = rw (h, h0, forward_lem 1 at fits) refl

pub IsSkipped-next :
    (m : Memory) (flag at total c : ℕ) (word : List ℕ) (left : List (List ℕ))
    → at + 1 < 2 ^ 32
    → m at ≡ c
    → 0 < c
    → (c == flag) ≡ false
    → IsSkipped m flag (at + 1) total word left
    → IsSkipped m flag at (suc total) (c ∷ word) left
IsSkipped-next m flag at total c word left fits e pos ne s = record {
  e = s.e;
  far = omega (arith, s.far);
  short = omega (arith, s.short);
  ends = λ fuel h. later fuel h s.ends;
  there = (e, s.there);
  pos = (pos, s.pos);
  stopped = elim s.stopped [
    | inl f ↦ inl f
    | inr f ↦ inr (record {
      rest = f.rest;
      stop = f.stop;
      later = f.later;
      shorter = omega (arith, f.shorter);
      same = f.same;
    })
  ];
}
  where
    later :
        (fuel : ℕ)
        → suc total < fuel
        → ((f : ℕ) → total < f → skip_word f m flag (at + 1) ≡ some s.e)
        → skip_word fuel m flag at ≡ some s.e
    later zero h g = absurd (omega arith)
    later (suc fuel) h g =
        skip_word-next fuel m flag at fits (ap (λ x. x == flag) e ∙ ne) (ground arith)
        ∙ g fuel (omega arith)

pub skip_word_lem :
    (cs : List ℕ) (m : Memory) (flag at : ℕ)
    → at + length cs + 1 < 2 ^ 32
    → Chars m at cs
    → IsSkipped m flag at (length cs) (until flag cs) (words true flag cs)
skip_word_lem [] m flag at fits t = record {
  e = at;
  far = omega arith;
  short = omega arith;
  ends = λ fuel h. skip_word-stop fuel m flag at h (inr t);
  there = tt;
  pos = tt;
  stopped = inl (record { nul = t; none_left = refl });
}
skip_word_lem (c ∷ cs) m flag at fits t = elim (Bool-cases (c == flag)) [
  | inl e ↦ rw e (record {
    e = at;
    far = omega arith;
    short = omega arith;
    ends = λ fuel h. skip_word-stop fuel m flag at (omega arith) (inl (ground (arith, t.0)));
    there = tt;
    pos = tt;
    stopped = inr (record {
      rest = cs;
      stop = ground (arith, t.0);
      later = t.2;
      shorter = omega arith;
      same = refl;
    });
  })
  | inr e ↦ rw e (
      IsSkipped-next m flag at (length cs) c (until flag cs) (words true flag cs) (omega arith) t.0
        t.1 e (skip_word_lem cs m flag (at + 1) (omega arith) t.2))
]
