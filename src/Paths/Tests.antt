-- ===== src/Paths/Tests.antt =====
-- The path /a//bc and a path with a slash at its end.
use mmzzos.Dirs.{same_name}
use mmzzos.Paths.Walk.{root, search_file}
use mmzzos.Paths.Resolve.{resolve, resolve_step, search_file_lem}
use mmzzos.Base.{
  ok, true, ◌==◌, ◌&&◌, if◌then◌else◌, ℕ, suc, ◌≡◌, ◌⊎◌, refl, Option, none, some, List, [], ◌∷◌,
  length, arith,
}
use mmzzos.Paths.{names_of, strip_slashes, all_path_chars, preprocessing_path}
use mmzzos.Paths.Words.{words, ends_in_name, preprocessing_path_lem}

abbrev to_name : List ℕ
to_name = b'/' ∷ b'a' ∷ b'/' ∷ b'/' ∷ b'b' ∷ b'c' ∷ []

abbrev with_end : List ℕ
with_end = b'/' ∷ b'a' ∷ b'/' ∷ []

two_words : words to_name ≡ (b'a' ∷ []) ∷ (b'b' ∷ b'c' ∷ []) ∷ []
unfolding words
two_words = refl

abbrev stripped : List ℕ
stripped = b'/' ∷ b'a' ∷ []

accepted : preprocessing_path with_end ≡ some stripped
unfolding preprocessing_path strip_slashes all_path_chars
accepted = refl

preprocessing_path_lem_example :
    (stripped ≡ []) ⊎ (names_of (suc (length stripped)) stripped ≡ some (words with_end))
preprocessing_path_lem_example = preprocessing_path_lem with_end stripped accepted

-- The directory 0 has the directory a, and that has the file bc.
abbrev tree : ℕ → List ℕ → Option (ℕ × ℕ)
tree d name =
    if (d == 0) && same_name name (b'a' ∷ [])
    then some (7, 2)
    else if (d == 7) && same_name name (b'b' ∷ b'c' ∷ [])
    then some (9, 1)
    else none

search_file_lem_example : search_file tree true 7 to_name ≡ resolve tree true (words to_name) root
unfolding ends_in_name same_name
search_file_lem_example =
    search_file_lem tree true 7 b'/' (b'a' ∷ b'/' ∷ b'/' ∷ b'b' ∷ b'c' ∷ []) (omega arith) refl refl
      refl

found :
    resolve tree true (words to_name) root
    ≡ ok (record {
      filetype = 1;
      index = 9;
      parent = some 7;
      name = b'b' ∷ b'c' ∷ [];
      left_open = some 9;
    })
unfolding resolve resolve_step words same_name
found = refl
