-- ===== src/Dirs/Tests.antt =====
-- A directory with one block, which has one entry or is full.
use mmzzos.Base.{
  Option, ok, leb, get_elem?, ℕ, ◌+◌, ◌%◌, ◌^◌, ◌≤◌, ◌≡◌, ◌≢◌, refl, ◌==◌, none, some, [], ◌∷◌,
  if◌then◌else◌, arith,
}
use mmzzos.Dirs.{Entry, Dir, Fresh, Meta, unused, search_dir_entry, create_dir_entry}
use mmzzos.Bitmap.{BitMap}
use mmzzos.Storage.Blocks.{Partition}
use mmzzos.Dirs.Entries.{entries, used_blocks, used_slots, find_name, search_dir_entry_lem}
use mmzzos.Dirs.Reading.{readdir, readdir_lem}
use mmzzos.Dirs.Deleting.{HasOwnBlocks}
use mmzzos.Dirs.Filling.{Inserted}
use mmzzos.Dirs.Creating.{Kept, create_dir_entry_lem, create_dir_entry-lost}

abbrev readme : Entry
readme = record { filename = b'r' ∷ b'e' ∷ []; index = 5; filetype = 1 }

abbrev notes : Entry
notes = record { filename = b'n' ∷ b'o' ∷ []; index = 6; filetype = 1 }

abbrev one_block : ℕ → ℕ
one_block j = if j == 0 then 50 else 0

abbrev small : Dir
small = record {
  disk = λ lba s. if s == 0 then readme else unused;
  table = one_block;
  size = 1;
  buf = λ s. readme;
}

abbrev full : Dir
full = record { disk = λ lba s. readme; table = one_block; size = 170; buf = λ s. unused }

-- The directory has the inode number 3, and the table of inodes begins at the sector 7.
abbrev no_map : BitMap
no_map = record { len = 1; bits = 0 ∷ [] }

abbrev meta : Meta
meta = record {
  part = record {
    disk = λ p. 0;
    sector_bitmap = no_map;
    inode_bitmap = no_map;
    sector_bitmap_lba = 2;
    inode_bitmap_lba = 3;
    data_lba = 505;
  };
  inode = record { table = 7; index = 3; bytes = λ i. 0 };
  tail = 0 ∷ 0 ∷ 0 ∷ [];
}

abbrev no_fresh : Fresh
no_fresh = record { first = none; second = none }

own : HasOwnBlocks one_block
own i j hi hj ne there same = ground arith

search_dir_entry_lem_example :
    search_dir_entry small (b'n' ∷ []) ≡ find_name (b'n' ∷ []) (entries small)
search_dir_entry_lem_example = search_dir_entry_lem small (b'n' ∷ [])

there : (j : ℕ) → j ≤ 0 → one_block j ≢ 0
there j le = ground arith

create_dir_entry_lem_example :
    (d' : Dir) × (part' : Partition) × (create_dir_entry no_fresh notes meta small
      ≡ ok (some (d', part')))
    × Inserted notes (entries small) (entries d')
    × (d'.size ≡ (1 + 1) % 2 ^ 32)
    × Kept meta d' part'
create_dir_entry_lem_example =
    create_dir_entry_lem no_fresh notes 0 1 meta small (omega arith) own refl refl (omega arith)
      there (omega arith) refl

create_dir_entry-lost_example :
    (d' : Dir) × (part' : Partition) × (create_dir_entry no_fresh notes meta full
      ≡ ok (some (d', part')))
    × (entries d' ≡ entries full)
    × (d'.size ≡ (170 + 1) % 2 ^ 32)
create_dir_entry-lost_example =
    create_dir_entry-lost no_fresh notes meta full (omega arith) own (omega arith) (λ s lt. refl)
      refl

readdir_lem_example :
    (o : Option Entry) × (readdir small 0 ≡ ok (o, if leb 1 0 then 0 else 0 + 1))
    × (o ≡ get_elem? (entries small) 0)
unfolding used_blocks used_slots
readdir_lem_example = readdir_lem small 0 refl
