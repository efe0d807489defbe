-- ===== src/Dirs.antt =====
-- fs/dir.c and fs/fs.c: the entries of a directory. A block of a directory is its entries by their slot; the disk is
-- the blocks by their first sector, and `table` the first sector of each block of the directory, 0 where there is
-- none, in `i_sectors` and the table of addresses together. A name is the characters before its final 0. What
-- BlockBitmapAllocate returns is an argument, and the memory that syscall_malloc refuses is left out. Blocks that begin
-- at different sectors have no sector in common, as BlockBitmapAllocate gives them out, nor one with the maps and the
-- table of inodes, which `CreateDirEntry` writes too: the disk of the partition of `Storage` stands for these.
mod Entries
mod Deleting
mod Filling
mod Creating
mod Reading
mod Tests
use mmzzos.Base.{
  ℕ, zero, suc, ◌+◌, ◌-◌, ◌*◌, ◌%◌, ◌^◌, Bool, true, false, ◌&&◌, ◌||◌, not, ◌==◌, Option, none,
  some, List, [], ◌∷◌, ◌++◌, ltb, leb, if◌then◌else◌, set, Result, ok, ◌>>=◌,
}
use mmzzos.Storage.{inode_write}
use mmzzos.Storage.Blocks.{Partition, bitmap_for_block, bit_map_update}
use mmzzos.Storage.Access.{Opened, inode_image}
use mmzzos.Base.Stores.{update}

-- `struct DirEntry`; a file type of 0 is FT_UNKOWN.
pub record Entry : Type 0 where
  pub filename : List ℕ
  pub index : ℕ
  pub filetype : ℕ

abbrev pub Block : Type 0
Block = ℕ → Entry

abbrev pub unused : Entry
unused = record { filename = []; index = 0; filetype = 0 }

abbrev pub is_used : Entry → Bool
is_used e = not (e.filetype == 0)

-- `BLOCK_SIZE/sizeof(struct DirEntry)`, and the number of slots that begin in a block.
abbrev pub whole_slots : ℕ
whole_slots = 170

abbrev pub begun_slots : ℕ
begun_slots = 171

abbrev pub block_count : ℕ
block_count = 1036

-- The directory, its size in the inode, and `dir_buf` with the slot behind its whole ones.
pub record Dir : Type 0 where
  pub disk : ℕ → Block
  pub table : ℕ → ℕ
  pub size : ℕ
  pub buf : Block

-- `ide_read` of a block into `dir_buf`, which ends in slot 170: the file type that is there is not the block's.
abbrev pub load : Dir → ℕ → Block
load d lba s = if ltb s whole_slots then d.disk lba s else d.buf s

-- `!strcmp(a,b)`
unfoldable pub same_name : List ℕ → List ℕ → Bool
same_name [] [] = true
same_name [] (y ∷ ys) = false
same_name (x ∷ xs) [] = false
same_name (x ∷ xs) (y ∷ ys) = (x == y) && same_name xs ys

abbrev pub is_named : List ℕ → Entry → Bool
is_named name e = is_used e && same_name e.filename name

abbrev pub or_else {ℓ} : {A : Type ℓ} → Option A → Option A → Option A
or_else none later = later
or_else (some a) later = some a

-- The loop of `SearchDirEntry` over the slots of a block, with `n` left.
unfoldable pub search_slots : ℕ → ℕ → Block → List ℕ → Option Entry
search_slots zero s block name = none
search_slots (suc n) s block name =
    let later = search_slots n (s + 1) block name in
    if is_named name (block s) then some (block s) else later

unfoldable pub search_blocks : ℕ → ℕ → Dir → List ℕ → Option Entry
unfolding search_slots
search_blocks zero i d name = none
search_blocks (suc n) i d name =
    let later = search_blocks n (i + 1) d name in
    if d.table i == 0
    then later
    else or_else (search_slots whole_slots 0 (d.disk (d.table i)) name) later

-- `SearchDirEntry`
unfoldable pub search_dir_entry : Dir → List ℕ → Option Entry
unfolding search_blocks
search_dir_entry d name = search_blocks block_count 0 d name

-- The loops of `DeleteDirectoryDirEntry`: the block with the entry cleared, and the directory.
unfoldable pub delete_slots : ℕ → ℕ → Block → List ℕ → Option Block
delete_slots zero s block name = none
delete_slots (suc n) s block name =
    let later = delete_slots n (s + 1) block name in
    if is_named name (block s) then some (update block s unused) else later

abbrev pub with_block : Dir → ℕ → Option Block → Option Dir → Option Dir
with_block d lba none later = later
with_block d lba (some block) later =
    some (record d { disk = update d.disk lba block; size = (d.size + (2 ^ 32 - 1)) % 2 ^ 32 })

unfoldable pub delete_blocks : ℕ → ℕ → Dir → List ℕ → Option Dir
unfolding delete_slots
delete_blocks zero i d name = none
delete_blocks (suc n) i d name =
    let later = delete_blocks n (i + 1) d name in
    if d.table i == 0
    then later
    else with_block d (d.table i) (delete_slots whole_slots 0 (d.disk (d.table i)) name) later

-- `DeleteDirectoryDirEntry`: the directory where an entry was deleted. Without a table of addresses the loop ends at
-- 12, where all further blocks are 0.
unfoldable pub delete_dir_entry : Dir → List ℕ → Option Dir
unfolding delete_blocks
delete_dir_entry d name = delete_blocks block_count 0 d name

-- The inner loop of `CreateDirEntry`: the first slot that is not used, of `n` from `s` on.
unfoldable pub unused_slot : ℕ → ℕ → Block → Option ℕ
unused_slot zero s block = none
unused_slot (suc n) s block =
    let later = unused_slot n (s + 1) block in if is_used (block s) then later else some s

-- What the two calls of BlockBitmapAllocate return, as sectors; -1 is `none`.
pub record Fresh : Type 0 where
  pub first : Option ℕ
  pub second : Option ℕ

-- `idx0` and `idx1` where no block is allocated.
abbrev pub no_new : Fresh
no_new = record { first = none; second = none }

-- A new block number `i`, with `idx0` and `idx1`. Below block 12 the buffer is written with the entry in its first slot.
unfoldable pub new_block : Fresh → Entry → ℕ → Dir → Option (Dir × Fresh)
new_block fresh e i d =
    let add : ℕ → Block → Fresh → Option (Dir × Fresh) = λ lba block idx. some (
      record d {
        disk = update d.disk lba block;
        table = update d.table i lba;
        size = (d.size + 1) % 2 ^ 32;
        buf = block;
      },
      idx,
    ) in
    let cleared = λ (s : ℕ). if s == 0 then e else if ltb s whole_slots then unused else d.buf s in
    elim fresh.first [
      | none ↦ none
      | some lba ↦
          if ltb i 12
          then add lba (update d.buf 0 e) (record no_new { first = some lba })
          else if i == 12
          then (elim fresh.second [ none ↦ none | some lba' ↦ add lba' cleared fresh ])
          else add lba cleared (record no_new { first = some lba })
    ]

abbrev pub put_entry : Entry → Dir → ℕ → Option ℕ → Option (Dir × Fresh) → Option (Dir × Fresh)
put_entry e d lba none later = later
put_entry e d lba (some s) later =
    let block = update (load d lba) s e in
    some (
      record d { disk = update d.disk lba block; size = (d.size + 1) % 2 ^ 32; buf = block },
      no_new,
    )

-- The outer loop of `CreateDirEntry`, with `n` blocks left; `none` is that it returns 0.
unfoldable pub create_blocks : Fresh → Entry → ℕ → ℕ → Dir → Option (Dir × Fresh)
unfolding unused_slot new_block
create_blocks fresh e zero i d = none
create_blocks fresh e (suc n) i d =
    let loaded = load d (d.table i) in
    let later = create_blocks fresh e n (i + 1) (record d { buf = loaded }) in
    if d.table i == 0
    then new_block fresh e i d
    else put_entry e d (d.table i) (unused_slot begun_slots 0 loaded) later

-- The partition behind its data: its maps, the inode of the directory in the table of inodes, and the words of
-- `i_sectors` from number 12 on.
pub record Meta : Type 0 where
  pub part : Partition
  pub inode : Opened
  pub tail : List ℕ

-- `i_sectors` behind the loop.
abbrev pub words_from : ℕ → ℕ → (ℕ → ℕ) → List ℕ
words_from zero i table = []
words_from (suc n) i table = table i ∷ words_from n (i + 1) table

abbrev pub tail_behind : Option ℕ → Option ℕ → List ℕ → List ℕ
tail_behind (some lba) (some lba') tail = set tail 0 lba
tail_behind (some lba) none tail = tail
tail_behind none second tail = tail

abbrev pub sectors_behind : Fresh → Meta → Dir → List ℕ
sectors_behind idx m d = words_from 12 0 d.table ++ tail_behind idx.first idx.second m.tail

-- `BitMapUpdate` where a block was allocated.
unfoldable pub update_map : Option ℕ → Partition → Result Partition
update_map none part = ok part
update_map (some lba) part = bit_map_update (lba - part.data_lba) bitmap_for_block part

-- `CreateDirEntry` behind its loop: what it leaves of the directory and of the partition.
unfoldable pub finish_create : Meta → Option (Dir × Fresh) → Result (Option (Dir × Partition))
finish_create m none = ok none
finish_create m (some (d, idx)) = do
  part1 ← update_map idx.first m.part
  part2 ← update_map idx.second part1
  disk ←
      inode_write part2.disk m.inode.table m.inode.index
        (inode_image m.inode.bytes d.size (sectors_behind idx m d))
  ok (some (d, record part2 { disk = disk }))

-- `CreateDirEntry`
unfoldable pub create_dir_entry : Fresh → Entry → Meta → Dir → Result (Option (Dir × Partition))
create_dir_entry fresh e m d = finish_create m (create_blocks fresh e block_count 0 d)
