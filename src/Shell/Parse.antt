-- ===== src/Shell/Parse.antt =====
-- CmdParse of shell/shell.c on a string.
use mmzzos.Base.{
  ℕ, zero, suc, ◌+◌, ◌^◌, ◌≤◌, ◌<◌, ◌≡◌, refl, sym, ap, ◌∙◌, true, false, some, List, [], ◌∷◌,
  length, take, set, get_or, get_or-set_self, get_or-set_ne, length-set, ◌==◌, leb, if◌then◌else◌,
  arith, Bool-cases, inl, inr, subst, min, ◌&&◌, ltb, dec_lt, ℕ_discrete,
}
use mmzzos.Mem.{Memory, store_byte}
use mmzzos.Strings.Text.{Chars, IsText}
use mmzzos.Shell.{parse_from, cmd_parse, clear_arguments, Parsed}
use mmzzos.Shell.Texts.{Chars-above, store_byte_self, store_byte-below, store_byte-above}
use mmzzos.Shell.Runs.{
  Held, counted, Parses, Parses-none, Parses-word, Parses-weaken, Parses-over, parse_from-end,
  parse_from-flag, parse_from-full, parse_from-last, parse_from-cut,
}
use mmzzos.Shell.Words.{words, until, IsSkipped, IsSkipped-next, skip_word_lem}

-- What a run on so much fuel is to do.
abbrev IsRight : ℕ → ℕ → Type 0
IsRight fuel flag =
    (cs : List ℕ) (m : Memory) (argv : List ℕ) (cnt room at : ℕ)
    → length cs + 1 < fuel
    → at + length cs + 1 < 2 ^ 32
    → Chars m at cs
    → cnt + room ≡ 32
    → length argv ≡ 33
    → Parses m argv cnt room at (words false flag cs) (parse_from fuel m flag argv cnt at)

-- The case of a word that begins at `at`.
parse_from-word :
    (fuel total : ℕ) (word : List ℕ) (left : List (List ℕ)) (m : Memory) (flag : ℕ) (argv : List ℕ)
    (cnt room at : ℕ)
    → 0 < flag
    → IsRight fuel flag
    → total < fuel
    → at + total + 1 < 2 ^ 32
    → cnt + room ≡ 32
    → length argv ≡ 33
    → (m at == 0) ≡ false
    → (m at == flag) ≡ false
    → IsSkipped m flag at total word left
    → Parses m argv cnt room at (word ∷ left) (parse_from (suc fuel) m flag argv cnt at)
parse_from-word fuel total word left m flag argv cnt zero at sep ih lt fits full size nonzero plain
      s =
    Parses-over m argv cnt at word left _ (omega arith)
      (parse_from-full fuel m flag argv cnt at nonzero plain (omega arith))
parse_from-word fuel total word left m flag argv cnt (suc room) at sep ih lt fits full size nonzero
      plain s =
    elim s.stopped [
      | inl f ↦
          Parses-word m m argv cnt room at s.e word left _ (omega arith) s.far f.nul (λ x h. refl)
            s.there s.pos
            (subst
              (λ l.
                Parses m (set argv cnt at) (cnt + 1) room (s.e + 1) l
                  (parse_from (suc fuel) m flag argv cnt at))
              (sym f.none_left)
              (Parses-none m (set argv cnt at) (cnt + 1) room (s.e + 1) _ (omega arith) (
                parse_from-last fuel m flag argv cnt at nonzero s.e plain small (s.ends fuel lt)
                  (ground (arith, f.nul))
                ∙ parse_from-end fuel m flag (set argv cnt at) (cnt + 1) s.e (omega arith) f.nul)))
      | inr f ↦
          let m' = store_byte m s.e 0 in
          let run : Parses m' (set argv cnt at) (cnt + 1) room (s.e + 1) (words false flag f.rest)
              _ =
            ih f.rest m' (set argv cnt at) (cnt + 1) room (s.e + 1) (omega (arith, f.shorter))
              (omega (arith, f.shorter, s.far))
              (Chars-above f.rest m m' (s.e + 1) (λ x h. store_byte-above m s.e 0 x (omega arith))
                f.later)
              (omega arith) (length-set argv cnt at ∙ size) in
          subst
            (λ l.
              Parses m argv cnt (suc room) at (word ∷ l) (parse_from (suc fuel) m flag argv cnt at))
            (sym f.same)
            (Parses-word m m' argv cnt room at s.e word (words false flag f.rest) _ (omega arith)
              s.far (store_byte_self m s.e 0) (λ x h. store_byte-below m s.e 0 x h) s.there s.pos
              (subst
                (Parses m' (set argv cnt at) (cnt + 1) room (s.e + 1) (words false flag f.rest))
                (sym (
                  parse_from-cut fuel m flag argv cnt at nonzero s.e plain small (s.ends fuel lt)
                    (omega (arith, s.far, f.shorter)) (ground (arith, f.stop))))
                run))
    ]
  where
    small : (cnt == 32) ≡ false
    small = ground arith

parse_from_lem : (fuel flag : ℕ) → 0 < flag → IsRight fuel flag
parse_from_lem zero flag sep cs m argv cnt room at lt fits t full size = absurd (omega arith)
parse_from_lem (suc fuel) flag sep [] m argv cnt room at lt fits t full size =
    Parses-none m argv cnt room at _ full
      (parse_from-end (suc fuel) m flag argv cnt at (omega arith) t)
parse_from_lem (suc fuel) flag sep (c ∷ cs) m argv cnt room at lt fits t full size =
    elim (Bool-cases (c == flag)) [
      | inl e ↦ rw e (
          Parses-weaken m argv cnt room at (words false flag cs) _ (
            subst (Parses m argv cnt room (at + 1) (words false flag cs))
              (sym (
                parse_from-flag fuel m flag argv cnt at nonzero (omega arith)
                  (ground (arith, t.0))))
              (parse_from_lem fuel flag sep cs m argv cnt room (at + 1) (omega arith) (omega arith)
                t.2 full size)))
      | inr e ↦ rw e (
          parse_from-word fuel (suc (length cs)) (c ∷ until flag cs) (words true flag cs) m flag
            argv cnt room at sep (parse_from_lem fuel flag sep) (omega arith) (omega arith) full
            size nonzero (ap (λ x. x == flag) t.0 ∙ e)
            (IsSkipped-next m flag at (length cs) c (until flag cs) (words true flag cs)
              (omega arith) t.0 t.1 e (skip_word_lem cs m flag (at + 1) (omega arith) t.2)))
    ]
  where
    nonzero : (m at == 0) ≡ false
    nonzero = ground (arith, t.0, t.1)

length-clear_arguments :
    (left i : ℕ) (argv : List ℕ) → length (clear_arguments left i argv) ≡ length argv
unfolding clear_arguments
length-clear_arguments zero i argv = refl
length-clear_arguments (suc left) i argv =
    length-clear_arguments left (i + 1) (set argv i 0) ∙ length-set argv i 0

get_or-clear_arguments :
    (left i : ℕ) (argv : List ℕ) (j : ℕ)
    → i + left ≤ length argv
    → get_or (clear_arguments left i argv) j 0
      ≡ (if leb i j && ltb j (i + left) then 0 else get_or argv j 0)
unfolding clear_arguments
get_or-clear_arguments zero i argv j fits = ground arith
get_or-clear_arguments (suc left) i argv j fits =
    let go =
      get_or-clear_arguments left (i + 1) (set argv i 0) j (omega (arith, length-set argv i 0)) in
    elim (ℕ_discrete i j) [
      | yes e ↦
          go
          ∙ ground (
            arith,
            get_or-set_self argv i 0 0 (omega arith),
            ap (λ k. get_or (set argv i 0) k 0) e,
          )
      | no ne ↦ go ∙ ground (arith, get_or-set_ne argv i j 0 0 ne)
    ]

-- CmdParse of a string in the buffer, with a separator other than 0 and the last entry of the 33 in `cmd_argv` 0,
-- ends. It returns the number of the words between separators, or -1 when there are more than 32; the first entries
-- of `cmd_argv` point, in the changed buffer, at strings that are the first 32 words, and a null pointer follows.
pub cmd_parse_lem :
    (cs : List ℕ) (fuel : ℕ) (m : Memory) (cmd_buf flag : ℕ) (argv : List ℕ)
    → length cs + 1 < fuel
    → 0 < flag
    → IsText m cmd_buf cs
    → length argv ≡ 33
    → get_or argv 32 0 ≡ 0
    → (p : Parsed) × (cmd_parse fuel m cmd_buf flag argv ≡ some p)
      × (p.count ≡ counted (length (words false flag cs)))
      × Held p.memory p.argv 0 (take 32 (words false flag cs))
      × (get_or p.argv (min 32 (length (words false flag cs))) 0 ≡ 0)
unfolding cmd_parse
cmd_parse_lem cs fuel m cmd_buf flag argv lt sep text size last = (
  r.p,
  r.ends,
  r.total ∙ ap counted (omega arith),
  r.held,
  r.later n (omega arith) ∙ get_or-clear_arguments 32 0 argv n (omega arith) ∙ end,
)
  where
    n : ℕ
    n = min 32 (length (words false flag cs))

    r :
        Parses m
          (clear_arguments 32 0 argv)
          0
          32
          cmd_buf
          (words false flag cs)
          (parse_from fuel m flag (clear_arguments 32 0 argv) 0 cmd_buf)
    r =
        parse_from_lem fuel flag sep cs m (clear_arguments 32 0 argv) 0 32 cmd_buf lt text.inside
          text.chars refl (length-clear_arguments 32 0 argv ∙ size)

    end : (if leb 0 n && ltb n (0 + 32) then 0 else get_or argv n 0) ≡ 0
    end = elim (dec_lt n 32) [
      | yes h ↦ ground arith
      | no h ↦ ground (arith, last, ap (λ k. get_or argv k 0) {x = n} {y = 32} (omega arith))
    ]
