-- ===== src/Shell/Runs.antt =====
-- What a run of CmdParse of shell/shell.c leaves, and the steps that lengthen one.
use mmzzos.Base.{
  ℕ, zero, suc, ◌+◌, ◌^◌, ◌≤◌, ◌<◌, ◌≡◌, refl, sym, ap, ◌∙◌, true, false, Option, none, some, List,
  [], ◌∷◌, length, take, All, set, get_or, get_or-set_self, get_or-set_ne, ◌==◌, leb, if◌then◌else◌,
  arith, subst, min,
}
use mmzzos.Mem.{Memory, store_byte}
use mmzzos.Mem.Setting.{forward_lem}
use mmzzos.Strings.Text.{Chars}
use mmzzos.Shell.{skip_word, after_word, parse_from, Parsed, cmd_max_argument_cnt}
use mmzzos.Shell.Texts.{Spans, Spans-keep, Chars-span}

-- The pointers of `argv` from number `i` on point at the words.
abbrev pub Held : Memory → List ℕ → ℕ → List (List ℕ) → Type 0
Held m argv i [] = Unit
Held m argv i (w ∷ ws) = Chars m (get_or argv i 0) w × Held m argv (i + 1) ws

-- The result for so many arguments: -1 when they are too many.
abbrev pub counted : ℕ → Option ℕ
counted n = if leb n cmd_max_argument_cnt then some n else none

-- A run that found the words `ws` at `at`, with place for `room` more arguments behind the first `cnt`.
pub record Parses (m : Memory) (argv : List ℕ) (cnt room at : ℕ) (ws : List (List ℕ))
    (run : Option Parsed) : Type 0 where
  pub p : Parsed
  pub ends : run ≡ some p
  pub total : p.count ≡ counted (cnt + length ws)
  pub held : Held p.memory p.argv cnt (take room ws)
  pub before : (x : ℕ) → x < at → p.memory x ≡ m x
  pub earlier : (i : ℕ) → i < cnt → get_or p.argv i 0 ≡ get_or argv i 0
  pub later : (i : ℕ) → cnt + min room (length ws) ≤ i → get_or p.argv i 0 ≡ get_or argv i 0

none-Held : (room : ℕ) (m : Memory) (argv : List ℕ) (cnt : ℕ) → Held m argv cnt (take room [])
none-Held zero m argv cnt = tt
none-Held (suc room) m argv cnt = tt

pub Parses-none :
    (m : Memory) (argv : List ℕ) (cnt room at : ℕ) (run : Option Parsed)
    → cnt + room ≡ 32
    → run ≡ some (record { memory = m; argv = argv; count = some cnt })
    → Parses m argv cnt room at [] run
Parses-none m argv cnt room at run full e = record {
  p = record { memory = m; argv = argv; count = some cnt };
  ends = e;
  total = ground arith;
  held = none-Held room m argv cnt;
  before = λ x h. refl;
  earlier = λ i h. refl;
  later = λ i h. refl;
}

pub parse_from-end :
    (fuel : ℕ) (m : Memory) (flag : ℕ) (argv : List ℕ) (cnt at : ℕ)
    → 0 < fuel
    → m at ≡ 0
    → parse_from fuel m flag argv cnt at
      ≡ some (record { memory = m; argv = argv; count = some cnt })
unfolding parse_from
parse_from-end zero m flag argv cnt at h e = absurd (omega arith)
parse_from-end (suc fuel) m flag argv cnt at h e = rw e refl

-- One word more, which ends at `e`, before what a run on the rest found.
pub Parses-word :
    (m m' : Memory) (argv : List ℕ) (cnt room at e : ℕ) (word : List ℕ) (ws : List (List ℕ))
    (run : Option Parsed)
    → cnt < length argv
    → e ≡ at + length word
    → m' e ≡ 0
    → ((x : ℕ) → x < e → m' x ≡ m x)
    → Spans m at word
    → All (λ c. 0 < c) word
    → Parses m' (set argv cnt at) (cnt + 1) room (e + 1) ws run
    → Parses m argv cnt (suc room) at (word ∷ ws) run
Parses-word m m' argv cnt room at e word ws run small far nul same there pos r = record {
  p = r.p;
  ends = r.ends;
  total = r.total ∙ ap counted (omega arith);
  held = (
    subst (λ a. Chars r.p.memory a word) (sym first)
        (Chars-span word r.p.memory at pos
          (Spans-keep word m r.p.memory at (λ x h. kept x (omega arith)) there)
          (ap r.p.memory (sym far) ∙ r.before e (omega arith) ∙ nul)),
    r.held,
  );
  before = λ x h. kept x (omega arith);
  earlier = λ i h. r.earlier i (omega arith) ∙ get_or-set_ne argv cnt i at 0 (omega arith);
  later = λ i h. r.later i (omega arith) ∙ get_or-set_ne argv cnt i at 0 (omega arith);
}
  where
    kept : (x : ℕ) → x < e → r.p.memory x ≡ m x
    kept x h = r.before x (omega arith) ∙ same x h

    first : get_or r.p.argv cnt 0 ≡ at
    first = r.earlier cnt (omega arith) ∙ get_or-set_self argv cnt at 0 small

pub Parses-weaken :
    (m : Memory) (argv : List ℕ) (cnt room at : ℕ) (ws : List (List ℕ)) (run : Option Parsed)
    → Parses m argv cnt room (at + 1) ws run
    → Parses m argv cnt room at ws run
Parses-weaken m argv cnt room at ws run r = record {
  p = r.p;
  ends = r.ends;
  total = r.total;
  held = r.held;
  before = λ x h. r.before x (omega arith);
  earlier = r.earlier;
  later = r.later;
}

pub Parses-over :
    (m : Memory) (argv : List ℕ) (cnt at : ℕ) (word : List ℕ) (ws : List (List ℕ))
    (run : Option Parsed)
    → cnt ≡ 32
    → run ≡ some (record { memory = m; argv = argv; count = none })
    → Parses m argv cnt 0 at (word ∷ ws) run
Parses-over m argv cnt at word ws run full e = record {
  p = record { memory = m; argv = argv; count = none };
  ends = e;
  total = ground arith;
  held = tt;
  before = λ x h. refl;
  earlier = λ i h. refl;
  later = λ i h. refl;
}

module _ (fuel : ℕ) (m : Memory) (flag : ℕ) (argv : List ℕ) (cnt at : ℕ)
    (nonzero : (m at == 0) ≡ false) where
  pub parse_from-flag :
      at + 1 < 2 ^ 32
      → (m at == flag) ≡ true
      → parse_from (suc fuel) m flag argv cnt at ≡ parse_from fuel m flag argv cnt (at + 1)
  unfolding parse_from
  parse_from-flag fits e = rw (nonzero, e, forward_lem 1 at fits) refl

  pub parse_from-full :
      (m at == flag) ≡ false
      → cnt ≡ 32
      → parse_from (suc fuel) m flag argv cnt at
        ≡ some (record { memory = m; argv = argv; count = none })
  unfolding parse_from
  parse_from-full e full = rw (nonzero, e, full) refl

  module _ (e : ℕ) (plain : (m at == flag) ≡ false) (small : (cnt == 32) ≡ false)
      (ends : skip_word fuel m flag at ≡ some e) where
    pub parse_from-last :
        (m e == 0) ≡ true
        → parse_from (suc fuel) m flag argv cnt at
          ≡ parse_from fuel m flag (set argv cnt at) (cnt + 1) e
    unfolding parse_from after_word
    parse_from-last nul = rw (nonzero, plain, small, ends, nul) refl

    pub parse_from-cut :
        e + 1 < 2 ^ 32
        → (m e == 0) ≡ false
        → parse_from (suc fuel) m flag argv cnt at
          ≡ parse_from fuel (store_byte m e 0) flag (set argv cnt at) (cnt + 1) (e + 1)
    unfolding parse_from after_word
    parse_from-cut fits nul = rw (nonzero, plain, small, ends, nul, forward_lem 1 e fits) refl
