-- ===== src/Dirs/Creating.antt =====
-- `CreateDirEntry` in the blocks that a directory has.
use mmzzos.Base.{
  ℕ, zero, suc, ◌+◌, ◌%◌, ◌^◌, ◌<◌, ◌≤◌, ◌≡◌, ◌≢◌, refl, sym, ap, subst, ◌∙◌, true, false, ◌==◌,
  some, ◌++◌, arith, ℕ_discrete, ltb, ok, ==_refl,
}
use mmzzos.Files.{max_files}
use mmzzos.Storage.{inode_bytes, inode_read}
use mmzzos.Storage.Blocks.{Partition}
use mmzzos.Storage.Access.{inode_image}
use mmzzos.Storage.Table.{Outside, inode_write-inode_read}
use mmzzos.Base.Stores.{update, update_self, update_ne}
use mmzzos.Dirs.{
  Entry, Dir, Fresh, is_used, load, whole_slots, begun_slots, block_count, unused_slot,
  create_blocks, create_dir_entry, no_new, Meta, words_from, finish_create, update_map,
}
use mmzzos.Dirs.Entries.{used_slots, used_blocks, entries}
use mmzzos.Dirs.Deleting.{HasOwnBlocks, used_slots-same, used_blocks-agree}
use mmzzos.Dirs.Filling.{Inserted, create_blocks_lem, unused_slot-first}

-- What `CreateDirEntry` leaves where its loop has put the entry into a block that was there.
pub record Kept (m : Meta) (d' : Dir) (part' : Partition) : Type 0 where
  pub saved :
      (i : ℕ)
      → i < inode_bytes
      → inode_read part'.disk m.inode.table m.inode.index i
        ≡ inode_image m.inode.bytes d'.size (words_from 12 0 d'.table ++ m.tail) i
  pub outside : (p : ℕ) → Outside m.inode.table m.inode.index p → part'.disk p ≡ m.part.disk p
  pub same_map : part'.sector_bitmap ≡ m.part.sector_bitmap

finish_create-Kept :
    (m : Meta) (d' : Dir)
    → m.inode.index < max_files
    → (part' : Partition) × (finish_create m (some (d', no_new)) ≡ ok (some (d', part')))
      × Kept m d' part'
unfolding finish_create update_map
finish_create-Kept m d' small =
    let image = inode_image m.inode.bytes d'.size (words_from 12 0 d'.table ++ m.tail) in
    let (disk', e, read, outside) =
      inode_write-inode_read m.part.disk m.inode.table m.inode.index m.inode.index image small
        small in
    rw e (
      record m.part { disk = disk' },
      refl,
      record {
        saved = λ i lt. read i lt ∙ rw (==_refl m.inode.index) refl;
        outside = outside;
        same_map = refl;
      },
    )

-- A directory with an inode of an index below 4096, whose blocks that are there begin at different sectors, of which
-- the blocks up to number `m` are all there and block `m` has an unused slot, and where the memory behind the whole
-- slots of the buffer does not look like an unused entry: `CreateDirEntry` puts the entry, which is in use, into the
-- list of the used entries and counts the size up by one, the inode on the disk has the new size and the sectors, and
-- no other byte of the maps and of the table of inodes changes.
pub create_dir_entry_lem :
    (fresh : Fresh) (e : Entry) (m k : ℕ) (meta : Meta) (d : Dir)
    → meta.inode.index < max_files
    → HasOwnBlocks d.table
    → is_used e ≡ true
    → is_used (d.buf whole_slots) ≡ true
    → m < block_count
    → ((j : ℕ) → j ≤ m → d.table j ≢ 0)
    → k < whole_slots
    → is_used (d.disk (d.table m) k) ≡ false
    → (d' : Dir) × (part' : Partition) × (create_dir_entry fresh e meta d ≡ ok (some (d', part')))
      × Inserted e (entries d) (entries d')
      × (d'.size ≡ (d.size + 1) % 2 ^ 32)
      × Kept meta d' part'
unfolding create_dir_entry
create_dir_entry_lem fresh e m k meta d small own u half lt there kt free =
    let (d', made, h) =
      create_blocks_lem fresh e block_count 0 m k d (omega arith) own u half (omega arith) lt there
        kt free in
    let (part', done, kept) = finish_create-Kept meta d' small in
    (d', part', ap (finish_create meta) made ∙ done, h.inserted, h.counted, kept)

-- A directory of different blocks with an inode of an index below 4096, the first of which is there and full, and where the memory behind the whole slots
-- of the buffer looks like an unused entry: `CreateDirEntry` returns 1 and counts the size up by one, but the list of
-- the used entries stays, so the new entry is not in the directory.
pub create_dir_entry-lost :
    (fresh : Fresh) (e : Entry) (meta : Meta) (d : Dir)
    → meta.inode.index < max_files
    → HasOwnBlocks d.table
    → d.table 0 ≢ 0
    → ((s : ℕ) → s < whole_slots → is_used (d.disk (d.table 0) s) ≡ true)
    → is_used (d.buf whole_slots) ≡ false
    → (d' : Dir) × (part' : Partition) × (create_dir_entry fresh e meta d ≡ ok (some (d', part')))
      × (entries d' ≡ entries d)
      × (d'.size ≡ (d.size + 1) % 2 ^ 32)
unfolding create_dir_entry create_blocks
create_dir_entry-lost fresh e meta d small own there full half =
    let (d', made, same, counted) = lost block_count (omega arith) (omega arith) in
    let (part', done, kept) = finish_create-Kept meta d' small in
    (d', part', ap (finish_create meta) made ∙ done, same, counted)
  where
    slot : unused_slot begun_slots 0 (load d (d.table 0)) ≡ some whole_slots
    slot =
        unused_slot-first begun_slots 0 whole_slots (load d (d.table 0)) (omega arith)
          (λ s lo hi.
            let whole : ltb s whole_slots ≡ true = ground arith in rw whole (full s (omega arith)))
          half

    written : Dir
    written =
        let block = update (load d (d.table 0)) whole_slots e in
        record d {
          disk = update d.disk (d.table 0) block;
          size = (d.size + 1) % 2 ^ 32;
          buf = block;
        }

    first_block :
        used_slots whole_slots 0 (written.disk (d.table 0))
        ≡ used_slots whole_slots 0 (d.disk (d.table 0))
    first_block =
        ap (used_slots whole_slots 0)
          (update_self d.disk (d.table 0) (update (load d (d.table 0)) whole_slots e))
        ∙ used_slots-same whole_slots 0 _ _ (λ s lo hi.
          let whole : ltb s whole_slots ≡ true = ground arith in
          update_ne (load d (d.table 0)) whole_slots s e (omega arith) ∙ rw whole refl)

    same_entries : (n : ℕ) → n ≤ block_count → used_blocks n 0 written ≡ used_blocks n 0 d
    same_entries n le = used_blocks-agree n 0 d written refl (λ j lo hi nz. elim (ℕ_discrete j 0) [
      | yes at ↦
          subst
            (λ i.
              used_slots whole_slots 0 (written.disk (d.table i))
              ≡ used_slots whole_slots 0 (d.disk (d.table i)))
            (sym at) first_block
      | no ne ↦
          ap (used_slots whole_slots 0)
            (update_ne d.disk (d.table 0) (d.table j) _ (own j 0 (omega arith) (omega arith) ne nz))
    ])

    lost :
        (n : ℕ)
        → 0 < n
        → n ≤ block_count
        → (d' : Dir) × (create_blocks fresh e n 0 d ≡ some (d', no_new))
          × (used_blocks n 0 d' ≡ used_blocks n 0 d)
          × (d'.size ≡ (d.size + 1) % 2 ^ 32)
    lost zero lo hi = absurd (omega arith)
    lost (suc n) lo hi =
        let nonzero : (d.table 0 == 0) ≡ false = ground arith in
        rw (nonzero, slot) (written, refl, same_entries (suc n) hi, refl)
