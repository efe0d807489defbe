-- ===== src/Paths/Resolve.antt =====
-- `SearchFile` goes down the directories by the words of the path.
use mmzzos.Base.{
  ℕ, zero, suc, ◌<◌, ◌≡◌, refl, sym, ap, ◌∙◌, Bool, true, false, ◌==◌, Option, none, some, List, [],
  ◌∷◌, if◌then◌else◌, length, Bool-cases, inl, inr, arith, Result, ok, panic, fault,
}
use mathlib.Core.Bool.{false≢true}
use mmzzos.Paths.{slash, skip_slashes}
use mmzzos.Paths.Words.{
  words, at_end, ends_in_name, skip_slashes_lem, FirstName, take_name_lem, parse_path-slash,
  words-end, cons-nonempty,
}
use mmzzos.Paths.Walk.{
  Searched, Last, root, opened, index_of, ended, ft_dir, ft_file, absent, found_file, found_dir,
  search_step, search_parsed, search_loop, is_root_path, search_file,
}

abbrev no_names : List (List ℕ) → Bool
no_names [] = true
no_names (w ∷ ws) = false

-- A path that ends in a name has a word.
words-nonempty :
    (c : ℕ) (cs : List ℕ) → ends_in_name (c ∷ cs) ≡ true → no_names (words (c ∷ cs)) ≡ false
words-nonempty c cs e =
    let (w, n, a, l) = skip_slashes_lem (c ∷ cs) e in
    let f = take_name_lem (skip_slashes (c ∷ cs)) a n in ap no_names (sym w ∙ f.first)

module _ (look : ℕ → List ℕ → Option (ℕ × ℕ)) (dir_open : Bool) where
  -- The search by a list of names: each name but the last is that of a directory, in which the next is looked for.
  unfoldable pub resolve_step :
      (Last → Result Searched) → Last → List ℕ → Bool → Option (ℕ × ℕ) → Result Searched
  resolve_step deeper last name final none = ok (absent look dir_open last name final)
  resolve_step deeper last name final (some (i, filetype)) =
      if filetype == ft_dir
      then if final then ok (found_dir look dir_open last name i) else deeper (opened i)
      else if filetype == ft_file
      then ok (found_file look dir_open last name i final)
      else panic

  unfoldable pub resolve : List (List ℕ) → Last → Result Searched
  resolve [] last = fault
  resolve (name ∷ names) last =
      resolve_step (resolve names) last name (no_names names) (look (index_of last) name)

  search_step-resolve_step :
      (go_on : Last → List ℕ → Result Searched)
      → (last : Last) (name rest : List ℕ) (names : List (List ℕ)) (o : Option (ℕ × ℕ))
      → ended rest ≡ no_names names
      → ((i : ℕ) → ended rest ≡ false → go_on (opened i) rest ≡ resolve names (opened i))
      → search_step look dir_open go_on last name rest o
        ≡ resolve_step (resolve names) last name (no_names names) o
  unfolding search_step resolve_step
  search_step-resolve_step go_on last name rest names none e deeper =
      ap (λ final. ok (absent look dir_open last name final)) e
  search_step-resolve_step go_on last name rest names (some (i, filetype)) e deeper =
      elim (Bool-cases (filetype == ft_dir)) [
        | inl d ↦ elim (Bool-cases (ended rest)) [
          | inl all ↦ rw (d, sym e, all) refl
          | inr more ↦ rw (d, sym e, more) (deeper i more)
        ]
        | inr d ↦ rw (d, e) refl
      ]

  -- A round of the loop, for a path that `ParsePath` has cut.
  search_parsed-resolve :
      (go_on : Last → List ℕ → Result Searched)
      → (last : Last) (path : List ℕ) (p : List ℕ × List ℕ) → FirstName path p.0 p.1
      → ((i c : ℕ) (rest : List ℕ)
          → p.1 ≡ c ∷ rest
          → go_on (opened i) (c ∷ rest) ≡ resolve (words (c ∷ rest)) (opened i))
      → search_parsed look dir_open go_on last (some p) ≡ resolve (words path) last
  unfolding resolve
  search_parsed-resolve go_on last path (name, []) f deeper =
      rw (f.first, words-end)
        (search_step-resolve_step go_on last name [] [] (look (index_of last) name) refl
          (λ i more. absurd (false≢true (sym more))))
  search_parsed-resolve go_on last path (name, c ∷ rest) f deeper = rw f.first (
      search_step-resolve_step go_on last name (c ∷ rest) (words (c ∷ rest))
        (look (index_of last) name) (sym (words-nonempty c rest (f.ends (cons-nonempty c rest))))
        (λ i more. deeper i c rest refl))

  search_loop_lem :
      (fuel : ℕ) (last : Last) (c : ℕ) (cs : List ℕ)
      → length (c ∷ cs) < fuel
      → (c == slash) ≡ true
      → ends_in_name (c ∷ cs) ≡ true
      → search_loop look dir_open fuel last (c ∷ cs) ≡ resolve (words (c ∷ cs)) last
  unfolding search_loop
  search_loop_lem zero last c cs lt e name = absurd (omega arith)
  search_loop_lem (suc fuel) last c cs lt e name =
      let (w, n, a, l) = skip_slashes_lem (c ∷ cs) name in
      let f = take_name_lem (skip_slashes (c ∷ cs)) a n in
      rw (parse_path-slash c cs e) (
        search_parsed-resolve (search_loop look dir_open fuel) last (skip_slashes (c ∷ cs)) _ f
          (λ i d rest at.
            search_loop_lem fuel (opened i) d rest (omega (arith, f.shorter, l, ap length (sym at)))
              (ap at_end (sym at) ∙ f.stops)
              (ap ends_in_name (sym at)
                ∙ f.ends (λ none_left. cons-nonempty d rest (sym at ∙ none_left))))
        ∙ ap (λ ws. resolve ws last) w)

  -- Of a path that begins with a slash, ends in a character that is none, and is not the root, with fuel for each
  -- character and one round more, `SearchFile` gives what the search by the words of the path from the root gives.
  pub search_file_lem :
      (fuel c : ℕ) (cs : List ℕ)
      → length (c ∷ cs) < fuel
      → (c == slash) ≡ true
      → ends_in_name (c ∷ cs) ≡ true
      → is_root_path (c ∷ cs) ≡ false
      → search_file look dir_open fuel (c ∷ cs) ≡ resolve (words (c ∷ cs)) root
  unfolding search_file
  search_file_lem fuel c cs lt e name other =
      rw (e, other) (search_loop_lem fuel root c cs lt e name)
