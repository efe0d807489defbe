-- ===== src/Shell/Tests.antt =====
-- A command in memory and a line that is typed, and the theorems on CmdParse and readline applied to them.
use mmzzos.Base.{
  ℕ, ◌≡◌, refl, List, [], ◌∷◌, some, length, take, replicate, get_or, min, ◌==◌, if◌then◌else◌,
  arith, false,
}
use mmzzos.Mem.{Memory}
use mmzzos.Strings.Text.{IsText}
use mmzzos.Shell.{Parsed, cmd_parse, readline}
use mmzzos.Shell.Words.{words}
use mmzzos.Shell.Runs.{Held, counted}
use mmzzos.Shell.Parse.{cmd_parse_lem}
use mmzzos.Shell.Lines.{Same, edited}
use mmzzos.Shell.Editing.{readline_lem}

-- "a b" at 20
abbrev memory : Memory
memory x = if x == 20 then 97 else if x == 21 then 32 else if x == 22 then 98 else 0

abbrev text : List ℕ
text = 97 ∷ 32 ∷ 98 ∷ []

text-IsText : IsText memory 20 text
text-IsText = record {
  inside = omega arith;
  chars = (refl, omega arith, (refl, omega arith, (refl, omega arith, refl)));
}

cmd_parse_lem_example :
    (p : Parsed) × (cmd_parse 9 memory 20 32 (replicate 33 0) ≡ some p)
    × (p.count ≡ counted (length (words false 32 text)))
    × Held p.memory p.argv 0 (take 32 (words false 32 text))
    × (get_or p.argv (min 32 (length (words false 32 text))) 0 ≡ 0)
cmd_parse_lem_example =
    cmd_parse_lem text 9 memory 20 32 (replicate 33 0) (omega arith) (omega arith) text-IsText refl
      refl

-- An `a` that a back space takes away, a `b` and a line feed.
abbrev keys : List ℕ
keys = 97 ∷ 8 ∷ 98 ∷ 10 ∷ 99 ∷ []

readline_lem_example : Same memory 100 256 (edited 256 [] keys) (readline memory 100 256 keys)
readline_lem_example =
    readline_lem memory 100 256 keys (omega arith)
      (omega arith, (omega arith, (omega arith, (omega arith, (omega arith, tt)))))
