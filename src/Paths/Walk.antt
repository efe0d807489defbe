-- ===== src/Paths/Walk.antt =====
-- fs/fs.c: `SearchFile`, over a section parameter for `SearchDirEntry`: what a directory, named by the index of its
-- inode, has under a name, the index and the file type, 1 for a file and 2 for a directory. The directory that the
-- call leaves open is a part of its result; the root is always open. With `dirOpen` off the source returns the
-- pointer to a closed directory, which here is that none is open.
use mmzzos.Base.{
  ℕ, zero, suc, Bool, true, false, ◌&&◌, ◌||◌, not, ◌==◌, Option, none, some, List, [], ◌∷◌,
  if◌then◌else◌, Result, ok, panic, fault,
}
use mmzzos.Dirs.{same_name}
use mmzzos.Paths.{slash, parse_path}

abbrev pub ft_unknown : ℕ
ft_unknown = 0

abbrev pub ft_file : ℕ
ft_file = 1

abbrev pub ft_dir : ℕ
ft_dir = 2

-- The file type and the index of `entry`, the parent, where -1 is `none`, the name in `buf`, and the directory that
-- stays open.
pub record Searched : Type 0 where
  pub filetype : ℕ
  pub index : ℕ
  pub parent : Option ℕ
  pub name : List ℕ
  pub left_open : Option ℕ

-- The directory behind `last`: the root, or one that was opened.
pub data Last : Type 0 where
  root : Last
  opened : ℕ → Last

abbrev pub root_index : ℕ
root_index = 0

abbrev pub index_of : Last → ℕ
index_of root = root_index
index_of (opened i) = i

-- What stays open of `last` when the search ends, with and without `DirClose`.
abbrev pub stays : Bool → Last → Option ℕ
stays dir_open root = none
stays dir_open (opened i) = if dir_open then some i else none

abbrev pub ended : List ℕ → Bool
ended [] = true
ended (c ∷ cs) = false

abbrev pub is_root_path : List ℕ → Bool
is_root_path path =
    same_name path (slash ∷ [])
    || (same_name path (slash ∷ b'.' ∷ b'.' ∷ []) || same_name path (slash ∷ b'.' ∷ []))

module _ (look : ℕ → List ℕ → Option (ℕ × ℕ)) (dir_open : Bool) where
  -- The three ways in which a round ends the search. `entry` keeps the index of the last directory found; where none
  -- was found its index is what the caller had there, and stands for 0.
  abbrev pub absent : Last → List ℕ → Bool → Searched
  absent last name at_end = record {
    filetype = ft_unknown;
    index = index_of last;
    parent = if at_end then some (index_of last) else none;
    name = name;
    left_open = stays dir_open last;
  }

  abbrev pub found_file : Last → List ℕ → ℕ → Bool → Searched
  found_file last name i at_end = record {
    filetype = if at_end then ft_file else ft_unknown;
    index = i;
    parent = if at_end then some (index_of last) else none;
    name = name;
    left_open = if at_end && dir_open then some i else none;
  }

  abbrev pub found_dir : Last → List ℕ → ℕ → Searched
  found_dir last name i = record {
    filetype = ft_dir;
    index = i;
    parent = some (index_of last);
    name = name;
    left_open = if dir_open then some i else none;
  }

  -- A round behind `ParsePath`, with the name, the rest of the path, and what was found.
  unfoldable pub search_step :
      (Last → List ℕ → Result Searched) → Last → List ℕ → List ℕ → Option (ℕ × ℕ) → Result Searched
  search_step go_on last name rest none = ok (absent last name (ended rest))
  search_step go_on last name rest (some (i, filetype)) =
      let deeper = go_on (opened i) rest in
      if filetype == ft_dir
      then if ended rest then ok (found_dir last name i) else deeper
      else if filetype == ft_file
      then ok (found_file last name i (ended rest))
      else panic

  abbrev pub search_parsed :
      (Last → List ℕ → Result Searched) → Last → Option (List ℕ × List ℕ) → Result Searched
  search_parsed go_on last none = fault
  search_parsed go_on last (some (name, rest)) =
      search_step go_on last name rest (look (index_of last) name)

  -- The loop; with no fuel left, or a null pointer for the path, it is a `fault`.
  unfoldable pub search_loop : ℕ → Last → List ℕ → Result Searched
  search_loop zero last path = fault
  search_loop (suc fuel) last path = search_parsed (search_loop fuel) last (parse_path path)

  -- `SearchFile`
  unfoldable pub search_file : ℕ → List ℕ → Result Searched
  search_file fuel [] =
      ok (record { filetype = ft_unknown; index = 0; parent = none; name = []; left_open = none })
  search_file fuel (c ∷ cs) =
      let searched = search_loop fuel root (c ∷ cs) in
      if not (c == slash)
      then ok
          (record { filetype = ft_unknown; index = 0; parent = none; name = []; left_open = none })
      else if is_root_path (c ∷ cs)
      then ok (record {
        filetype = ft_dir;
        index = root_index;
        parent = some root_index;
        name = [];
        left_open = if dir_open then some root_index else none;
      })
      else searched
