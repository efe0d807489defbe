-- ===== src/Paths.antt =====
-- fs/fs.c: the names in a path. A path is its characters before the final 0. The buffer for a name is taken as large
-- enough; the callers have 17 bytes for it.
mod Walk
mod Words
mod Resolve
mod Tests
use mmzzos.Base.{
  ℕ, zero, suc, ◌+◌, ◌-◌, Bool, true, false, ◌&&◌, ◌||◌, not, ◌==◌, Option, none, some, List, [],
  ◌∷◌, ◌++◌, ltb, leb, if◌then◌else◌,
}

abbrev pub slash : ℕ
slash = b'/'

-- `while(*path&&*path=='/')++path;`
unfoldable pub skip_slashes : List ℕ → List ℕ
skip_slashes [] = []
skip_slashes (c ∷ cs) = let later = skip_slashes cs in if c == slash then later else c ∷ cs

-- The second loop of `ParsePath`: the name, and the rest of the path.
unfoldable pub take_name : List ℕ → List ℕ × List ℕ
take_name [] = ([], [])
take_name (c ∷ cs) =
    let later = take_name cs in if c == slash then ([], c ∷ cs) else (c ∷ later.0, later.1)

-- `ParsePath`; the null pointer is `none`.
unfoldable pub parse_path : List ℕ → Option (List ℕ × List ℕ)
unfolding skip_slashes take_name
parse_path [] = none
parse_path (c ∷ cs) = if c == slash then some (take_name (skip_slashes (c ∷ cs))) else none

abbrev pub and_names : List ℕ → Option (List (List ℕ)) → Option (List (List ℕ))
and_names name none = none
and_names name (some names) = some (name ∷ names)

abbrev pub go_on_with :
    (List ℕ → Option (List (List ℕ))) → Option (List ℕ × List ℕ) → Option (List (List ℕ))
go_on_with go_on none = none
go_on_with go_on (some (name, [])) = some (name ∷ [])
go_on_with go_on (some (name, c ∷ rest)) = and_names name (go_on (c ∷ rest))

-- The names that the loop of `SearchFile` looks for one after another while each one before is a directory; `none` is
-- that the fuel is used up or a null pointer is read.
unfoldable pub names_of : ℕ → List ℕ → Option (List (List ℕ))
unfolding parse_path
names_of zero path = none
names_of (suc fuel) path = go_on_with (names_of fuel) (parse_path path)

abbrev pub before_stripped : ℕ → List ℕ → List ℕ
before_stripped c [] = if c == slash then [] else c ∷ []
before_stripped c (d ∷ ds) = c ∷ d ∷ ds

-- The loop of `PreprocessingPath` that drops the slashes at the end.
unfoldable pub strip_slashes : List ℕ → List ℕ
strip_slashes [] = []
strip_slashes (c ∷ cs) = before_stripped c (strip_slashes cs)

-- The characters that `PreprocessingPath` lets pass, with `isalpha` and `isdigit` of ASCII.
abbrev pub is_path_char : ℕ → Bool
is_path_char c =
    (c == slash)
    || ((c == b'.')
        || ((c == b'_')
            || ((leb b'a' c && leb c b'z')
                || ((leb b'A' c && leb c b'Z') || (leb b'0' c && leb c b'9')))))

unfoldable pub all_path_chars : List ℕ → Bool
all_path_chars [] = true
all_path_chars (c ∷ cs) = is_path_char c && all_path_chars cs

-- `PreprocessingPath`: the path in `buf`, where it returns 1.
unfoldable pub preprocessing_path : List ℕ → Option (List ℕ)
preprocessing_path [] = none
preprocessing_path (c ∷ cs) =
    let path = strip_slashes (c ∷ cs) in
    if c == slash then if all_path_chars path then some path else none else none
