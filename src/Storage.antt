-- ===== src/Storage.antt =====
-- fs/file.c and fs/inode.c: the inodes and the blocks of files on the disk of `Disk`, the map of the blocks in memory,
-- and reading and writing at the position of an open file. Transfers are the single steps that `Disk.Transfers` shows
-- `ide_read` and `ide_write` to be, of sectors below 2^28 and with a controller that answers. A buffer that the code gets from syscall_malloc is an argument, with what it
-- holds; sizes and positions are below 2^31, so that `int` and `uint32_t` agree on them.
pub mod Table
pub mod Blocks
pub mod Access
mod Reading
mod Writing
mod Roundtrip
mod Allocation
mod Tests
use mmzzos.Base.{
  ℕ, zero, suc, ◌+◌, ◌-◌, ◌*◌, ◌/◌, ◌%◌, ◌^◌, Bool, true, false, ◌&&◌, ◌||◌, not, ◌==◌, Option,
  none, some, List, [], ◌∷◌, ◌++◌, ltb, leb, if◌then◌else◌, min, max, length, get_or, set, Result,
  ok, panic, fault, ◌>>=◌, ◌>>◌, assert,
}
use mmzzos.Disk.{Bytes, put_sectors}
use mmzzos.Files.{max_files}
use mmzzos.Bitmap.{BitMap, allocate, mark_bit, reset_bit}

abbrev pub block_size : ℕ
block_size = 4096

abbrev pub block_sectors : ℕ
block_sectors = 8

-- A buffer with the sectors from `lba` on.
abbrev pub sectors_at : Bytes → ℕ → Bytes
sectors_at disk lba i = disk (512 * lba + i)

-- A little-endian word of 32 bits.
abbrev pub word_at : Bytes → ℕ → ℕ
word_at buf p = buf p + 2 ^ 8 * buf (p + 1) + 2 ^ 16 * buf (p + 2) + 2 ^ 24 * buf (p + 3)

-- `memcpy(buf+at,from,n)`
abbrev pub copy_to : Bytes → ℕ → Bytes → ℕ → Bytes
copy_to buf at from n i = if leb at i && ltb i (at + n) then from (i - at) else buf i

-- `sizeof(struct Inode)`
abbrev pub inode_bytes : ℕ
inode_bytes = 84

-- The place of an inode in the table: the first sector, the number of sectors and the byte in the first.
unfoldable pub inode_place : ℕ → ℕ × ℕ × ℕ
inode_place index =
    let offset = inode_bytes * index % 2 ^ 32 in
    let sector_begin = offset / 512 in
    let sector_end = (offset + inode_bytes - 1) / 512 in
    (sector_begin, if sector_begin == sector_end then 1 else 2, offset % 512)

-- The bytes that `InodeOpen` copies from the disk into the inode; the table begins at the sector `table`.
unfoldable pub inode_read : Bytes → ℕ → ℕ → Bytes
unfolding inode_place
inode_read disk table index i =
    let (sector, cnt, at) = inode_place index in sectors_at disk (sector + table) (at + i)

-- `InodeWrite` behind its ASSERT.
unfoldable pub inode_put : Bytes → ℕ → ℕ → Bytes → Bytes
unfolding inode_place
inode_put disk table index image =
    let (sector, cnt, at) = inode_place index in
    let buf = copy_to (sectors_at disk (sector + table)) at image inode_bytes in
    put_sectors disk (table + sector) cnt 0 buf

-- `InodeWrite` of the bytes of an inode, the index of which is `index`.
unfoldable pub inode_write : Bytes → ℕ → ℕ → Bytes → Result Bytes
inode_write disk table index image =
    assert (ltb index max_files) >> ok (inode_put disk table index image)
