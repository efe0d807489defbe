-- ===== src/Storage/Table.antt =====
-- The table of the inodes: each has its own bytes.
use mathlib.Core.Logic.{◌⊎◌, inl, inr}
use mmzzos.Base.{
  ℕ, ◌+◌, ◌-◌, ◌*◌, ◌/◌, ◌%◌, ◌^◌, ◌≡◌, ◌<◌, ◌≤◌, sym, ap, ◌∙◌, true, false, ◌&&◌, ◌==◌, leb, ltb,
  if◌then◌else◌, arith, refl, ok, dec_lt, dec_le, ℕ_discrete,
}
use mmzzos.Disk.{Bytes, put_sectors}
use mmzzos.Storage.{
  sectors_at, copy_to, inode_bytes, inode_place, inode_read, inode_put, inode_write,
}
use mmzzos.Files.{max_files}

-- The inode stands in the bytes from 84 times its index on.
inode_read-at :
    (disk : Bytes) (table index i : ℕ)
    → index < max_files
    → inode_read disk table index i ≡ disk (512 * table + inode_bytes * index + i)
unfolding inode_read inode_place
inode_read-at disk table index i lt = ap disk (omega arith)

-- Writing sectors back, of which some bytes are replaced, replaces these bytes on the disk.
put_sectors-copy_to :
    (disk image : Bytes) (table s cnt at n p : ℕ)
    → at + n ≤ 512 * cnt
    → put_sectors disk (table + s) cnt 0 (copy_to (sectors_at disk (s + table)) at image n) p ≡ (
        let start = 512 * (table + s) + at in
        if leb start p && ltb p (start + n) then image (p - start) else disk p)
put_sectors-copy_to disk image table s cnt at n p fits = elim (dec_le (512 * (table + s)) p) [
  | no before ↦ ground arith
  | yes behind ↦ elim (dec_lt p (512 * (table + s + cnt))) [
    | no beyond ↦ ground arith
    | yes inside ↦
        let lo : leb (512 * (table + s)) p ≡ true = ground arith in
        let hi : ltb p (512 * (table + s + cnt)) ≡ true = ground arith in
        let q : 512 * 0 + (p - 512 * (table + s)) ≡ p - 512 * (table + s) = omega arith in
        rw (lo, hi, q)
          (elim (dec_le (512 * (table + s) + at) p) [
            | no under ↦
                let low : leb at (p - 512 * (table + s)) ≡ false = ground arith in
                let low' : leb (512 * (table + s) + at) p ≡ false = ground arith in
                rw (low, low') (ap disk (omega arith))
            | yes over ↦
                let low : leb at (p - 512 * (table + s)) ≡ true = ground arith in
                let low' : leb (512 * (table + s) + at) p ≡ true = ground arith in
                elim (dec_lt p (512 * (table + s) + at + n)) [
                  | yes within ↦
                      let high : ltb (p - 512 * (table + s)) (at + n) ≡ true = ground arith in
                      let high' : ltb p (512 * (table + s) + at + n) ≡ true = ground arith in
                      rw (low, low', high, high') (ap image (omega arith))
                  | no without ↦
                      let high : ltb (p - 512 * (table + s)) (at + n) ≡ false = ground arith in
                      let high' : ltb p (512 * (table + s) + at + n) ≡ false = ground arith in
                      rw (low, low', high, high') (ap disk (omega arith))
                ]
          ])
  ]
]

-- `InodeWrite` replaces the 84 bytes of its inode in the table, and no other byte of the disk.
inode_put-at :
    (disk : Bytes) (table index : ℕ) (image : Bytes) (p : ℕ)
    → index < max_files
    → inode_put disk table index image p ≡ (
        let start = 512 * table + inode_bytes * index in
        if leb start p && ltb p (start + inode_bytes) then image (p - start) else disk p)
unfolding inode_put inode_place
inode_put-at disk table index image p lt =
    let small : inode_bytes * index % 2 ^ 32 ≡ inode_bytes * index = omega arith in
    rw small (
      put_sectors-copy_to disk image table (inode_bytes * index / 512) cnt
        (inode_bytes * index % 512) inode_bytes p (ground arith)
      ∙ ap
          (λ start.
            if leb start p && ltb p (start + inode_bytes) then image (p - start) else disk p)
          (omega arith))
  where
    cnt : ℕ
    cnt =
        if (inode_bytes * index) / 512 == (inode_bytes * index + inode_bytes - 1) / 512
        then 1
        else 2

-- A byte that is not in the place of an inode.
abbrev pub Outside : ℕ → ℕ → ℕ → Type 0
Outside table index p =
    (p < 512 * table + inode_bytes * index) ⊎ (512 * table + inode_bytes * (index + 1) ≤ p)

module _ (disk : Bytes) (table index : ℕ) (image : Bytes) (small : index < max_files) where
  kept :
      (p : ℕ)
      → Outside table index p
      → (let start = 512 * table + inode_bytes * index in
          if leb start p && ltb p (start + inode_bytes) then image (p - start) else disk p)
        ≡ disk p
  kept p away = ground arith

  inode_put-found :
      (other i : ℕ)
      → other < max_files
      → inode_read (inode_put disk table index image) table other i ≡ (
          let start = 512 * table + inode_bytes * index in
          let p = 512 * table + inode_bytes * other + i in
          if leb start p && ltb p (start + inode_bytes) then image (p - start) else disk p)
  inode_put-found other i lt =
      inode_read-at (inode_put disk table index image) table other i lt
      ∙ inode_put-at disk table index image (512 * table + inode_bytes * other + i) small

  inode_put-inode_read :
      (other i : ℕ)
      → other < max_files
      → i < inode_bytes
      → inode_read (inode_put disk table index image) table other i
        ≡ (if other == index then image i else inode_read disk table other i)
  inode_put-inode_read other i ho lt = elim (ℕ_discrete other index) [
    | yes e ↦
        let same : (other == index) ≡ true = ground arith in
        let lo : leb (512 * table + inode_bytes * index) (512 * table + inode_bytes * other + i)
            ≡ true =
          ground arith in
        let hi : ltb (512 * table + inode_bytes * other + i)
              (512 * table + inode_bytes * index + inode_bytes)
            ≡ true =
          ground arith in
        rw same (inode_put-found other i ho ∙ rw (lo, hi) (ap image (omega arith)))
    | no ne ↦
        let apart : (other == index) ≡ false = ground arith in
        rw apart (
          inode_put-found other i ho
          ∙ kept (512 * table + inode_bytes * other + i) (elim (dec_lt other index) [
            | yes less ↦ inl (omega arith)
            | no more ↦ inr (omega arith)
          ])
          ∙ sym (inode_read-at disk table other i ho))
  ]

-- For indices below 4096 `InodeWrite` succeeds, and `InodeOpen` then reads for its index the bytes that were written,
-- and for every other index the bytes that it read before; and no byte outside the place of the inode changes.
pub inode_write-inode_read :
    (disk : Bytes) (table index other : ℕ) (image : Bytes)
    → index < max_files
    → other < max_files
    → (disk' : Bytes) × (inode_write disk table index image ≡ ok disk')
      × ((i : ℕ)
          → i < inode_bytes
          → inode_read disk' table other i
            ≡ (if other == index then image i else inode_read disk table other i))
      × ((p : ℕ) → Outside table index p → disk' p ≡ disk p)
unfolding inode_write
inode_write-inode_read disk table index other image hi ho =
    let bound : ltb index max_files ≡ true = ground arith in
    rw bound (
      inode_put disk table index image,
      refl,
      λ i lt. inode_put-inode_read disk table index image hi other i ho lt,
      λ p away. inode_put-at disk table index image p hi ∙ kept disk table index image hi p away,
    )
