-- ===== src/Storage/Blocks.antt =====
-- fs/file.c: taking blocks for a file, in the map in memory and on the disk. `struct partition` is what is used of it.
use mmzzos.Base.{
  ℕ, zero, suc, ◌+◌, ◌-◌, ◌*◌, ◌/◌, ◌%◌, ◌^◌, ◌&&◌, ◌==◌, Option, none, some, List, ltb, leb,
  if◌then◌else◌, length, get_or, set, Result, ok, panic, fault, ◌>>=◌,
}
use mmzzos.Disk.{Bytes, put_sectors}
use mmzzos.Bitmap.{BitMap, allocate, mark_bit, reset_bit}
use mmzzos.Storage.{block_sectors, sectors_at, word_at}

pub record Partition : Type 0 where
  pub disk : Bytes
  pub sector_bitmap : BitMap
  pub inode_bitmap : BitMap
  pub sector_bitmap_lba : ℕ
  pub inode_bitmap_lba : ℕ
  pub data_lba : ℕ

pub data FsBitmapType : Type 0 where
  bitmap_for_inode bitmap_for_block : FsBitmapType

-- `BitMapSet` and `BitMapReset` of `n` bits from `idx` on.
unfoldable pub mark_bits : ℕ → ℕ → BitMap → Result BitMap
mark_bits zero idx bp = ok bp
mark_bits (suc n) idx bp = do bp' ← mark_bit bp idx; mark_bits n (idx + 1) bp'

unfoldable pub reset_bits : ℕ → ℕ → BitMap → Result BitMap
reset_bits zero idx bp = ok bp
reset_bits (suc n) idx bp = do bp' ← reset_bit bp idx; reset_bits n (idx + 1) bp'

-- `n` bits are looked for and set; -1 is `none`.
unfoldable pub take_bits : ℕ → BitMap → Option ℕ → Result (Option ℕ × BitMap)
unfolding mark_bits
take_bits n bp none = ok (none, bp)
take_bits n bp (some idx) = do bp' ← mark_bits n idx bp; ok (some idx, bp')

unfoldable pub inode_bitmap_allocate : Partition → Result (Option ℕ × Partition)
unfolding take_bits
inode_bitmap_allocate part = do
  idx ← allocate part.inode_bitmap 1
  (taken, bp) ← take_bits 1 part.inode_bitmap idx
  ok (taken, record part { inode_bitmap = bp })

unfoldable pub block_bitmap_allocate : Partition → Result (Option ℕ × Partition)
unfolding take_bits
block_bitmap_allocate part = do
  idx ← allocate part.sector_bitmap block_sectors
  (taken, bp) ← take_bits block_sectors part.sector_bitmap idx
  ok (taken, record part { sector_bitmap = bp })

unfoldable pub block_bitmap_reset : ℕ → Partition → Result Partition
unfolding reset_bits
block_bitmap_reset idx part = do
  bp ← reset_bits block_sectors idx part.sector_bitmap
  ok (record part { sector_bitmap = bp })

-- `ide_write` of the sector number `sector` of a map to `lba`. A map that ends before is left on its right.
unfoldable pub write_map : ℕ → ℕ → BitMap → Partition → Result Partition
write_map lba sector bp part =
    if leb (512 * (sector + 1)) (length bp.bits)
    then ok (record part {
      disk = put_sectors part.disk lba 1 0 (λ i. get_or bp.bits (512 * sector + i) 0);
    })
    else fault

-- `BitMapUpdate`
unfoldable pub bit_map_update : ℕ → FsBitmapType → Partition → Result Partition
unfolding write_map
bit_map_update idx bitmap_for_inode part =
    let sector = idx / 4096 in
    write_map (part.inode_bitmap_lba + sector) sector part.inode_bitmap part
bit_map_update idx bitmap_for_block part =
    let sector = idx / 4096 in
    let lba = part.sector_bitmap_lba + sector in
    do
      part' ← write_map lba sector part.sector_bitmap part
      if (idx + block_sectors - 1) / 512 == idx / 512
          then ok part'
          else (write_map (lba + 1) (sector + 1) part'.sector_bitmap part' >>= λ part''. panic)

-- What the allocation of a block works on: the partition, `i_sectors` of the inode, and the buffer of the caller.
pub record Work : Type 0 where
  pub part : Partition
  pub sectors : List ℕ
  pub buf : Bytes

abbrev pub on_part {ℓ} : {A : Type ℓ} → Work → Result (A × Partition) → Result (A × Work)
on_part w r = do (a, part) ← r; ok (a, record w { part = part })

-- `*(uint32_t*)(buf+at)=v`
abbrev pub put_word : Bytes → ℕ → ℕ → Bytes
put_word buf at v i = if leb at i && ltb i (at + 4) then v / 2 ^ (8 * (i - at)) % 256 else buf i

-- The first of `n` words from number `i` on that is 0.
unfoldable pub zero_word : ℕ → ℕ → Bytes → Option ℕ
zero_word zero i buf = none
zero_word (suc n) i buf =
    let later = zero_word n (i + 1) buf in if word_at buf (4 * i) == 0 then some i else later

abbrev pub write_block : Work → ℕ → Work
write_block w lba =
    let part = w.part in
    record w { part = record part { disk = put_sectors part.disk lba block_sectors 0 w.buf } }

-- `AllocateIndirectBlock` with a table of addresses, in which the word number `i` is 0, behind the allocation.
unfoldable pub put_entry : ℕ → Work → Option ℕ → Result (Option ℕ × Work)
put_entry i w none = ok (none, w)
put_entry i w (some idx) =
    let lba = idx + w.part.data_lba in
    let w' = write_block (record w { buf = put_word w.buf (4 * i) lba }) (get_or w.sectors 12 0) in
    bit_map_update idx bitmap_for_block w'.part >>= λ part. ok (some lba, record w' { part = part })

unfoldable pub extend_table : Work → Option ℕ → Result (Option ℕ × Work)
unfolding put_entry
extend_table w none = ok (none, w)
extend_table w (some i) = do
  (idx0, w') ← on_part w (block_bitmap_allocate w.part)
  put_entry i w' idx0

unfoldable pub from_table : Work → Result (Option ℕ × Work)
unfolding extend_table zero_word
from_table w =
    let w1 = record w { buf = sectors_at w.part.disk (get_or w.sectors 12 0) } in
    extend_table w1 (zero_word 1024 0 w1.buf)

-- `AllocateIndirectBlock` behind the allocation of the block `idx0` of the table.
unfoldable pub new_table : ℕ → Work → Option ℕ → Result (Option ℕ × Work)
new_table idx0 w none = do
  part ← block_bitmap_reset idx0 w.part
  ok (none, record w { part = part })
new_table idx0 w (some idx1) =
    let data_lba = w.part.data_lba in
    let w1 =
      write_block (record w { buf = put_word (λ i. 0) 0 (idx1 + data_lba) }) (data_lba + idx0) in
    do
      part1 ← bit_map_update idx0 bitmap_for_block w1.part
      part2 ← bit_map_update idx1 bitmap_for_block part1
      ok (
        some (idx1 + data_lba),
        record w1 { part = part2; sectors = set w1.sectors 12 (idx0 + data_lba) },
      )

unfoldable pub build_table : Work → Option ℕ → Result (Option ℕ × Work)
unfolding new_table from_table
build_table w none = from_table w
build_table w (some idx0) = do
  (idx1, w') ← on_part w (block_bitmap_allocate w.part)
  new_table idx0 w' idx1

-- `AllocateIndirectBlock`: the first sector of the block; -1 is `none`.
unfoldable pub allocate_indirect_block : Work → Result (Option ℕ × Work)
unfolding build_table from_table
allocate_indirect_block w =
    if get_or w.sectors 12 0 == 0
    then (on_part w (block_bitmap_allocate w.part) >>= λ r. build_table r.1 r.0)
    else from_table w

-- `AllocateOneBlock` of one of the first 12 blocks, behind the allocation.
unfoldable pub put_direct : ℕ → Work → Option ℕ → Result (Option ℕ × Work)
put_direct idx w none = ok (none, w)
put_direct idx w (some idx0) =
    let lba = idx0 + w.part.data_lba in
    bit_map_update lba bitmap_for_block w.part >>= λ part.
    ok (some lba, record w { part = part; sectors = set w.sectors idx lba })

unfoldable pub allocate_direct_block : ℕ → Work → Result (Option ℕ × Work)
unfolding put_direct
allocate_direct_block idx w =
    on_part w (block_bitmap_allocate w.part) >>= λ r. put_direct idx r.1 r.0

-- `AllocateOneBlock`
unfoldable pub allocate_one_block : ℕ → Work → Result (Option ℕ × Work)
allocate_one_block idx w =
    if ltb idx 12 then allocate_direct_block idx w else allocate_indirect_block w
