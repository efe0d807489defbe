-- ===== src/Storage/Access.antt =====
-- fs/file.c: `file_read` and `file_write` of an open file, from the tables of blocks on. `size` is the size of the
-- inode, `pos` the position of the descriptor, `sectors` its `i_sectors`.
use mmzzos.Base.{
  ℕ, zero, suc, ◌+◌, ◌-◌, ◌*◌, ◌/◌, ◌%◌, ◌^◌, ◌&&◌, ◌||◌, ◌==◌, Option, none, some, List, [], ◌∷◌,
  ◌++◌, ltb, leb, if◌then◌else◌, min, max, get_or, Result, ok, ◌>>=◌,
}
use mmzzos.Disk.{Bytes}
use mmzzos.Storage.{block_size, sectors_at, word_at, copy_to, inode_write}
use mmzzos.Storage.Blocks.{Work, write_block, allocate_one_block}

-- `addr`: the table of the blocks of the file, in memory that syscall_malloc has set to 0.
abbrev pub addresses : Bytes → List ℕ → ℕ → ℕ
addresses disk sectors idx =
    if ltb idx 12
    then get_or sectors idx 0
    else if get_or sectors 12 0 == 0
    then 0
    else word_at (sectors_at disk (get_or sectors 12 0)) (4 * (idx - 12))

-- The `n` bytes of a buffer from `at` on.
abbrev pub slice : Bytes → ℕ → ℕ → List ℕ
slice buf at zero = []
slice buf at (suc n) = buf at ∷ slice buf (at + 1) n

abbrev pub read_limit : ℕ
read_limit = 140

-- The loop of `file_read` with `n` blocks left up to the limit: the bytes that it copies, and the position.
unfoldable pub read_loop : ℕ → Bytes → (ℕ → ℕ) → ℕ → ℕ → ℕ → ℕ → List ℕ × ℕ
read_loop zero disk addr size cnt cur idx = ([], cur)
read_loop (suc n) disk addr size cnt cur idx =
    let off = cur % block_size in
    let need = min (min (min block_size cnt) (block_size - off)) (size - cur) in
    let rest = read_loop n disk addr size (cnt - need) (cur + need) (idx + 1) in
    if (cnt == 0) || (leb size cur || (addr idx == 0))
    then ([], cur)
    else (slice (sectors_at disk (addr idx)) off need ++ rest.0, rest.1)

-- `file_read` from the table on: the bytes, of which it returns the number, and the new position.
unfoldable pub file_read : Bytes → List ℕ → ℕ → ℕ → ℕ → List ℕ × ℕ
unfolding read_loop
file_read disk sectors size pos cnt =
    let idx = pos / block_size in
    read_loop (read_limit - idx) disk (addresses disk sectors) size cnt pos idx

-- The block that a round writes to: the one of the file, or a new one.
abbrev pub block_for : (ℕ → ℕ) → ℕ → Work → Result (Option ℕ × Work)
block_for addr idx w = if addr idx == 0 then allocate_one_block idx w else ok (some (addr idx), w)

-- The transfer of one round, to the block that begins at `lba`.
unfoldable pub write_part : Bytes → ℕ → ℕ → ℕ → ℕ → ℕ → Work → Work
write_part src written n cur end_block lba w =
    let loaded = if leb (cur / block_size) end_block then sectors_at w.part.disk lba else w.buf in
    let filled = copy_to loaded (cur % block_size) (λ i. src (written + i)) n in
    write_block (record w { buf = filled }) lba

-- How a round goes on with the block: the loop ends where there is none.
abbrev pub or_stop : ℕ → (ℕ → Work → Result (ℕ × Work)) → Option ℕ × Work → Result (ℕ × Work)
or_stop written go_on (none, w) = ok (written, w)
or_stop written go_on (some lba, w) = go_on lba w

-- The loop of `file_write` with `n` blocks left up to the limit; `left` bytes are to be written, from the place
-- `written` of the buffer of the caller on.
unfoldable pub write_loop : ℕ → Bytes → (ℕ → ℕ) → ℕ → ℕ → ℕ → ℕ → ℕ → Work → Result (ℕ × Work)
unfolding write_part
write_loop zero src addr end_block left cur idx written w = ok (written, w)
write_loop (suc n) src addr end_block left cur idx written w =
    let next = min (min left block_size) (block_size - cur % block_size) in
    let go_on = λ (lba : ℕ) (w' : Work).
      write_loop n src addr end_block (left - next) (cur + next) (idx + 1) (written + next)
        (write_part src written next cur end_block lba w') in
    if left == 0 then ok (written, w) else (block_for addr idx w >>= or_stop written go_on)

-- What `file_write` leaves: the number of bytes that it returns, the size and the position, and the rest.
pub record Written : Type 0 where
  pub count : ℕ
  pub size : ℕ
  pub pos : ℕ
  pub work : Work

-- The open inode: its index, the first sector of the table of inodes, and the bytes that it has before the write.
pub record Opened : Type 0 where
  pub table : ℕ
  pub index : ℕ
  pub bytes : Bytes

-- The bytes of the inode with its new size, at byte 4, and its 15 words of `i_sectors`, from byte 16 on.
abbrev pub inode_image : Bytes → ℕ → List ℕ → Bytes
inode_image bytes size sectors i =
    if leb 4 i && ltb i 8
    then size / 2 ^ (8 * (i - 4)) % 256
    else if leb 16 i && ltb i 76
    then get_or sectors ((i - 16) / 4) 0 / 2 ^ (8 * ((i - 16) % 4)) % 256
    else bytes i

abbrev pub on_disk : Work → Bytes → Work
on_disk w disk = record w { part = record w.part { disk = disk } }

-- `file_write` behind its loop.
unfoldable pub finish_write : Opened → ℕ → ℕ → ℕ × Work → Result Written
finish_write inode size pos (count, w) =
    let size' = max (pos + count) size in
    inode_write w.part.disk inode.table inode.index (inode_image inode.bytes size' w.sectors)
    >>= λ disk.
        ok (record { count = count; size = size'; pos = pos + count; work = on_disk w disk })

-- `file_write` from the table on; `src` is the buffer of the caller, `w.buf` is `buff`.
unfoldable pub file_write : Opened → Work → Bytes → ℕ → ℕ → ℕ → Result Written
file_write inode w src size pos count =
    let idx = pos / block_size in
    let addr = addresses w.part.disk w.sectors in
    write_loop (1036 - idx) src addr (size / block_size) count pos idx 0 w
    >>= finish_write inode size pos
