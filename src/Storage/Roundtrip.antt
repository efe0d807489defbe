-- ===== src/Storage/Roundtrip.antt =====
-- What `file_write` writes `file_read` reads.
use mathlib.Core.Logic.{◌⊎◌, inl, inr}
use mmzzos.Base.{
  ℕ, ◌+◌, ◌-◌, ◌*◌, ◌/◌, ◌%◌, ◌≡◌, ◌≢◌, ◌<◌, ◌≤◌, refl, sym, ap, ◌∙◌, true, false, ◌==◌, List, ltb,
  if◌then◌else◌, min, max, get_or, arith, dec_lt, ok, ℕ_discrete, ==_refl,
}
use mmzzos.Disk.{Bytes}
use mmzzos.Storage.{block_size, sectors_at, word_at, inode_bytes, inode_read}
use mmzzos.Storage.Table.{Outside, inode_write-inode_read}
use mmzzos.Files.{max_files}
use mmzzos.Storage.Blocks.{Work}
use mmzzos.Storage.Access.{
  addresses, slice, read_limit, file_read, file_write, finish_write, on_disk, inode_image, Opened,
  Written,
}
use mmzzos.Storage.Reading.{byte_at, slice-same, file_read_lem}
use mmzzos.Storage.Writing.{write_limit, Touched, Apart, Wrote, write_loop_lem}

-- The blocks that hold the `count` bytes from `pos` on are there, and none of them has a sector in common with
-- another block of the file or with its table of addresses.
pub record IsBacked (disk : Bytes) (sectors : List ℕ) (pos count : ℕ) : Type 0 where
  pub there : (i : ℕ) → Touched pos count i → addresses disk sectors i ≢ 0
  pub apart :
      (i j : ℕ)
      → Touched pos count i
      → j < write_limit
      → i ≢ j
      → Apart (addresses disk sectors i) (addresses disk sectors j)
  pub table : (i : ℕ) → Touched pos count i → Apart (addresses disk sectors i) (get_or sectors 12 0)

-- The inode has an index below 4096 and a place in the table of inodes that has no byte in common with a block of the
-- file or with its table of addresses.
pub record IsClear (inode : Opened) (disk : Bytes) (sectors : List ℕ) : Type 0 where
  pub small : inode.index < max_files
  pub blocks :
      (i r : ℕ)
      → i < write_limit
      → addresses disk sectors i ≢ 0
      → r < block_size
      → Outside inode.table inode.index (512 * addresses disk sectors i + r)
  pub addresses_table :
      (r : ℕ)
      → get_or sectors 12 0 ≢ 0
      → r < block_size
      → Outside inode.table inode.index (512 * get_or sectors 12 0 + r)

-- What `file_write` of `count` bytes at `pos` into a file of `size` bytes promises.
pub record WriteSpec (inode : Opened) (w : Work) (src : Bytes) (size pos count : ℕ) (r : Written)
    : Type 0 where
  pub all : r.count ≡ count
  pub grown : r.size ≡ max (pos + count) size
  pub moved : r.pos ≡ pos + count
  pub same_sectors : r.work.sectors ≡ w.sectors
  pub same_addresses :
      (i : ℕ)
      → i < write_limit
      → addresses r.work.part.disk w.sectors i ≡ addresses w.part.disk w.sectors i
  pub new_bytes :
      (p : ℕ)
      → pos ≤ p
      → p < pos + count
      → byte_at r.work.part.disk (addresses w.part.disk w.sectors) p ≡ src (p - pos)
  pub old_bytes :
      (p : ℕ)
      → p < size
      → p < block_size * write_limit
      → (p < pos) ⊎ (pos + count ≤ p)
      → addresses w.part.disk w.sectors (p / block_size) ≢ 0
      → byte_at r.work.part.disk (addresses w.part.disk w.sectors) p
        ≡ byte_at w.part.disk (addresses w.part.disk w.sectors) p
  pub saved :
      (i : ℕ)
      → i < inode_bytes
      → inode_read r.work.part.disk inode.table inode.index i
        ≡ inode_image inode.bytes r.size w.sectors i

word_at-same :
    (f g : Bytes) (p : ℕ) → ((k : ℕ) → k < 4 → f (p + k) ≡ g (p + k)) → word_at f p ≡ word_at g p
word_at-same f g p same =
    let e0 : f p ≡ g p = ap f (omega arith) ∙ same 0 (omega arith) ∙ ap g (omega arith) in
    omega (arith, e0, same 1 (omega arith), same 2 (omega arith), same 3 (omega arith))

-- The addresses do not change where the first 12 and the bytes of the table do not.
addresses-same :
    (disk disk' : Bytes) (sectors : List ℕ) (i : ℕ)
    → i < write_limit
    → ((r : ℕ)
        → r < block_size
        → get_or sectors 12 0 ≢ 0
        → disk' (512 * get_or sectors 12 0 + r) ≡ disk (512 * get_or sectors 12 0 + r))
    → addresses disk' sectors i ≡ addresses disk sectors i
addresses-same disk disk' sectors i lt same = elim (dec_lt i 12) [
  | yes direct ↦ let low : ltb i 12 ≡ true = ground arith in rw low refl
  | no far ↦
      let high : ltb i 12 ≡ false = ground arith in
      elim (ℕ_discrete (get_or sectors 12 0) 0) [
        | yes none_there ↦ rw (high, none_there) refl
        | no there ↦ rw high (
            ap (λ word. if get_or sectors 12 0 == 0 then 0 else word)
              (word_at-same (sectors_at disk' (get_or sectors 12 0))
                (sectors_at disk (get_or sectors 12 0)) (4 * (i - 12))
                (λ k lt4. same (4 * (i - 12) + k) (omega arith) there)))
      ]
]

-- What the end of `file_write` does with what its loop has left.
finish_write_lem :
    (inode : Opened) (w w' : Work) (src : Bytes) (size pos count : ℕ)
    → pos + count ≤ block_size * write_limit
    → IsBacked w.part.disk w.sectors pos count
    → IsClear inode w.part.disk w.sectors
    → Wrote src
        (addresses w.part.disk w.sectors)
        (size / block_size)
        count
        pos
        (pos / block_size)
        0
        w
        w'
    → (r : Written) × (finish_write inode size pos (0 + count, w') ≡ ok r)
      × WriteSpec inode w src size pos count r
unfolding finish_write
finish_write_lem inode w w' src size pos count fits backed clear h =
    let size' = max (pos + (0 + count)) size in
    let image = inode_image inode.bytes size' w'.sectors in
    let (disk', e, read, outside) =
      inode_write-inode_read w'.part.disk inode.table inode.index inode.index image clear.small
        clear.small in
    let addr : ℕ → ℕ = addresses w.part.disk w.sectors in
    let same_block : (p : ℕ)
        → p < block_size * write_limit
        → addr (p / block_size) ≢ 0
        → byte_at disk' addr p ≡ byte_at w'.part.disk addr p =
      λ p lim there.
        outside _
          (clear.blocks (p / block_size) (p % block_size) (omega arith) there (omega arith)) in
    rw e (
      record { count = 0 + count; size = size'; pos = pos + (0 + count); work = on_disk w' disk' },
      refl,
      record {
        all = omega arith;
        grown = ap (λ k. max (pos + k) size) (omega arith);
        moved = omega arith;
        same_sectors = h.same_sectors;
        same_addresses = λ i lt. addresses-same w.part.disk disk' w.sectors i lt (λ r rlt there.
            outside (512 * get_or w.sectors 12 0 + r) (clear.addresses_table r there rlt)
            ∙ h.outside (512 * get_or w.sectors 12 0 + r) (λ j t. elim (backed.table j t) [
              | inl below ↦ inr (omega arith)
              | inr above ↦ inl (omega arith)
            ]));
        new_bytes = λ p lo hi.
            same_block p (omega arith) (backed.there (p / block_size) (omega arith, omega arith))
            ∙ h.inside p lo hi
            ∙ ap src (omega arith);
        old_bytes =
            λ p lt lim away there. same_block p lim there ∙ h.kept p lim away (inl (omega arith));
        saved = λ i lt. read i lt ∙ rw (==_refl inode.index, h.same_sectors) refl;
      },
    )

-- Where the blocks for the bytes are there and have no sector in common with another block or with the table of
-- addresses, the inode has an index below 4096 and a place that has no byte in common with them, and the bytes end
-- below 1036 blocks, `file_write` returns the number of all bytes; the file has them from the position on and its
-- other bytes in the blocks that are there as before, it ends where it did or behind them, the position is behind
-- them, and the inode on the disk has the new size and the sectors of the file.
pub file_write_lem :
    (inode : Opened) (w : Work) (src : Bytes) (size pos count : ℕ)
    → pos + count ≤ block_size * write_limit
    → IsBacked w.part.disk w.sectors pos count
    → IsClear inode w.part.disk w.sectors
    → (r : Written) × (file_write inode w src size pos count ≡ ok r)
      × WriteSpec inode w src size pos count r
unfolding file_write
file_write_lem inode w src size pos count fits backed clear =
    let addr : ℕ → ℕ = addresses w.part.disk w.sectors in
    let at_limit : pos / block_size ≤ write_limit = omega arith in
    let (w', e, h) =
      write_loop_lem src addr (size / block_size) (write_limit - pos / block_size) count pos
        (pos / block_size) 0 w (omega arith) (λ some_left. refl) fits backed.there backed.apart in
    rw e (finish_write_lem inode w w' src size pos count fits backed clear h)

read_back :
    (inode : Opened) (w : Work) (src : Bytes) (size pos count : ℕ) (r : Written)
    → pos + count ≤ block_size * read_limit
    → IsBacked w.part.disk w.sectors pos count
    → WriteSpec inode w src size pos count r
    → file_read r.work.part.disk r.work.sectors r.size pos count ≡ (slice src 0 count, pos + count)
read_back inode w src size pos count r fits backed s = rw s.same_sectors (
    file_read_lem disk' w.sectors r.size pos count (omega (arith, total))
      (λ i lo hi. there i (omega (arith, total)) hi)
    ∙ ap (λ n. (slice (byte_at disk' (addresses disk' w.sectors)) pos n, pos + n)) total
    ∙ ap (λ l. (l, pos + count))
        (slice-same (byte_at disk' (addresses disk' w.sectors)) src pos 0 count byte))
  where
    disk' : Bytes
    disk' = r.work.part.disk

    total : min count (r.size - pos) ≡ count
    total = omega (arith, s.grown)

    there :
        (i : ℕ)
        → block_size * i < pos + count
        → pos < block_size * (i + 1)
        → addresses disk' w.sectors i ≢ 0
    there i lo hi none_there =
        backed.there i (lo, hi) (sym (s.same_addresses i (omega arith)) ∙ none_there)

    byte : (k : ℕ) → k < count → byte_at disk' (addresses disk' w.sectors) (pos + k) ≡ src (0 + k)
    byte k lt =
        ap (λ a. disk' (512 * a + (pos + k) % block_size))
          (s.same_addresses ((pos + k) / block_size) (omega arith))
        ∙ s.new_bytes (pos + k) (omega arith) (omega arith)
        ∙ ap src (omega arith)

-- Where the blocks for the bytes are there and have no sector in common with another block or with the table of
-- addresses, the inode has an index below 4096 and a place that has no byte in common with them, and the bytes end
-- below 140 blocks, `file_write` succeeds, and `file_read` from the position that it began at, of the size that it
-- left, gives the bytes that were written and moves the position behind them.
pub file_write-file_read :
    (inode : Opened) (w : Work) (src : Bytes) (size pos count : ℕ)
    → pos + count ≤ block_size * read_limit
    → IsBacked w.part.disk w.sectors pos count
    → IsClear inode w.part.disk w.sectors
    → (r : Written) × (file_write inode w src size pos count ≡ ok r)
      × (file_read r.work.part.disk r.work.sectors r.size pos count
          ≡ (slice src 0 count, pos + count))
file_write-file_read inode w src size pos count fits backed clear =
    let (r, e, s) = file_write_lem inode w src size pos count (omega arith) backed clear in
    (r, e, read_back inode w src size pos count r fits backed s)
