-- ===== src/Storage/Allocation.antt =====
-- The blocks of a partition in its map: what is taken was free, and can be given back.
use mathlib.Core.Logic.{◌⊎◌, inl, inr}
use mmzzos.Base.{
  ℕ, zero, suc, ◌+◌, ◌-◌, ◌*◌, ◌/◌, ◌%◌, ◌≡◌, ◌≢◌, ◌<◌, ◌≤◌, refl, sym, ◌∙◌, Bool, true, false,
  ◌&&◌, ◌==◌, Option, none, some, ltb, leb, if◌then◌else◌, arith, ℕ_discrete, ok, panic, ◌>>=◌,
  returned, length,
}
use mmzzos.Bitmap.{BitMap, allocate, mark_bit, reset_bit, IsValid, bit_at}
use mmzzos.Bitmap.Bits.{Wrote, mark_bit_lem, reset_bit_lem}
use mmzzos.Bitmap.Search.{Free, First, allocate-First}
use mmzzos.Storage.{block_sectors}
use mmzzos.Storage.Blocks.{
  Partition, Work, mark_bits, reset_bits, take_bits, block_bitmap_allocate, block_bitmap_reset,
  bit_map_update, bitmap_for_block, write_map, put_direct, allocate_direct_block,
  allocate_one_block,
}

-- `bp'` is `bp` with the `n` bits from `idx` on set to `b`.
pub record Filled (bp bp' : BitMap) (idx n : ℕ) (b : Bool) : Type 0 where
  pub valid : IsValid bp'
  pub len : bp'.len ≡ bp.len
  pub bits : (k : ℕ) → bit_at bp' k ≡ (if leb idx k && ltb k (idx + n) then b else bit_at bp k)

Filled-none : (bp : BitMap) (idx : ℕ) (b : Bool) → IsValid bp → Filled bp bp idx 0 b
Filled-none bp idx b v = record { valid = v; len = refl; bits = λ k. ground arith }

next_bit :
    (idx k n : ℕ) (b x y : Bool)
    → x ≡ (if idx == k then b else y)
    → (if leb (idx + 1) k && ltb k (idx + 1 + n) then b else x)
      ≡ (if leb idx k && ltb k (idx + suc n) then b else y)
next_bit idx k n b x y e = elim (ℕ_discrete idx k) [
  | yes same ↦
      let here : (idx == k) ≡ true = ground arith in
      let x_is : x ≡ b = e ∙ rw here refl in ground arith
  | no ne ↦
      let apart : (idx == k) ≡ false = ground arith in
      let x_is : x ≡ y = e ∙ rw apart refl in ground arith
]

Filled-step :
    (bp bp1 bp2 : BitMap) (idx n : ℕ) (b : Bool)
    → Wrote bp idx b bp1
    → Filled bp1 bp2 (idx + 1) n b
    → Filled bp bp2 idx (suc n) b
Filled-step bp bp1 bp2 idx n b w f = record {
  valid = f.valid;
  len = f.len ∙ w.len;
  bits = λ k. f.bits k ∙ next_bit idx k n b (bit_at bp1 k) (bit_at bp k) (w.bit k);
}

mark_bits_lem :
    (n idx : ℕ) (bp : BitMap)
    → IsValid bp
    → idx + n ≤ 8 * bp.len
    → (bp' : BitMap) × (mark_bits n idx bp ≡ ok bp') × Filled bp bp' idx n true
unfolding mark_bits
mark_bits_lem zero idx bp v fits = (bp, refl, Filled-none bp idx true v)
mark_bits_lem (suc n) idx bp v fits =
    let (bp1, e, w) =
      returned (Wrote bp idx true) (mark_bit bp idx) (mark_bit_lem bp idx v (omega arith)) in
    let (bp2, e', f) = mark_bits_lem n (idx + 1) bp1 w.valid (omega (arith, w.len)) in
    rw (e, e') (bp2, refl, Filled-step bp bp1 bp2 idx n true w f)

reset_bits_lem :
    (n idx : ℕ) (bp : BitMap)
    → IsValid bp
    → idx + n ≤ 8 * bp.len
    → (bp' : BitMap) × (reset_bits n idx bp ≡ ok bp') × Filled bp bp' idx n false
unfolding reset_bits
reset_bits_lem zero idx bp v fits = (bp, refl, Filled-none bp idx false v)
reset_bits_lem (suc n) idx bp v fits =
    let (bp1, e, w) =
      returned (Wrote bp idx false) (reset_bit bp idx) (reset_bit_lem bp idx v (omega arith)) in
    let (bp2, e', f) = reset_bits_lem n (idx + 1) bp1 w.valid (omega (arith, w.len)) in
    rw (e, e') (bp2, refl, Filled-step bp bp1 bp2 idx n false w f)

-- What `BlockBitmapAllocate` gives: the first 8 free sectors in a row, which are taken from then on, or nothing
-- where there are none.
pub data Allocated (part : Partition) : Option ℕ × Partition → Type 0 where
  full :
      ((i : ℕ)
        → i + block_sectors ≤ 8 * part.sector_bitmap.len
        → ¬ Free (bit_at part.sector_bitmap) i block_sectors)
      → Allocated part (none, part)
  block :
      (i : ℕ) (bp : BitMap)
      → First (bit_at part.sector_bitmap) (8 * part.sector_bitmap.len) block_sectors (some i)
      → Filled part.sector_bitmap bp i block_sectors true
      → Allocated part (some i, record part { sector_bitmap = bp })

-- On a valid map `BlockBitmapAllocate` returns the first 8 free sectors in a row inside the map and sets their bits and
-- no other, or it returns -1 and changes nothing where there are no such sectors.
pub block_bitmap_allocate_lem :
    (part : Partition)
    → IsValid part.sector_bitmap
    → (out : Option ℕ × Partition) × (block_bitmap_allocate part ≡ ok out) × Allocated part out
unfolding block_bitmap_allocate take_bits
block_bitmap_allocate_lem part v =
    let (found, e, first) =
      returned _ (allocate part.sector_bitmap block_sectors)
        (allocate-First part.sector_bitmap block_sectors v (omega arith)) in
    rw e (take found first)
  where
    take :
        (found : Option ℕ)
        → First (bit_at part.sector_bitmap) (8 * part.sector_bitmap.len) block_sectors found
        → (out : Option ℕ × Partition) × ((take_bits block_sectors part.sector_bitmap found
              >>= λ (r : Option ℕ × BitMap). ok (r.0, record part { sector_bitmap = r.1 }))
            ≡ ok out)
          × Allocated part out
    take none first = ((none, part), refl, full first)
    take (some i) first =
        let (bp, e, f) = mark_bits_lem block_sectors i part.sector_bitmap v first.0 in
        rw e ((some i, record part { sector_bitmap = bp }), refl, block i bp first f)

-- The map after the block `i` was taken and given back.
pub record Returned (part part' : Partition) : Type 0 where
  pub valid : IsValid part'.sector_bitmap
  pub len : part'.sector_bitmap.len ≡ part.sector_bitmap.len
  pub bits : (k : ℕ) → bit_at part'.sector_bitmap k ≡ bit_at part.sector_bitmap k

undone :
    (t x y : Bool)
    → x ≡ (if t then true else y)
    → (t ≡ true → y ≡ false)
    → (if t then false else x) ≡ y
undone true x y e clear = sym (clear refl)
undone false x y e clear = e

-- On a valid map, either no 8 sectors in a row are free and `BlockBitmapAllocate` returns -1 and changes nothing, or
-- it returns the first 8 free ones and sets their bits and no other, and after `BlockBitMapReset` of them each bit of
-- the map is as it was.
pub block_bitmap_allocate-reset :
    (part : Partition)
    → IsValid part.sector_bitmap
    → ((block_bitmap_allocate part ≡ ok (none, part)) × Allocated part (none, part))
      ⊎ ((i : ℕ) × (part1 : Partition) × (part2 : Partition) × (block_bitmap_allocate part
            ≡ ok (some i, part1))
          × Allocated part (some i, part1)
          × (block_bitmap_reset i part1 ≡ ok part2)
          × Returned part part2)
unfolding block_bitmap_reset
block_bitmap_allocate-reset part v =
    let (out, e, got) = block_bitmap_allocate_lem part v in undo out e got
  where
    back :
        (i : ℕ) (bp bp' : BitMap)
        → Free (bit_at part.sector_bitmap) i block_sectors
        → Filled part.sector_bitmap bp i block_sectors true
        → Filled bp bp' i block_sectors false
        → (k : ℕ) → bit_at bp' k ≡ bit_at part.sector_bitmap k
    back i bp bp' free f g k =
        g.bits k
        ∙ undone (leb i k && ltb k (i + block_sectors)) (bit_at bp k) (bit_at part.sector_bitmap k)
            (f.bits k) (λ in_range. free k (ground arith) (ground arith))

    undo :
        (out : Option ℕ × Partition)
        → block_bitmap_allocate part ≡ ok out
        → Allocated part out
        → ((block_bitmap_allocate part ≡ ok (none, part)) × Allocated part (none, part))
          ⊎ ((i : ℕ) × (part1 : Partition) × (part2 : Partition) × (block_bitmap_allocate part
                ≡ ok (some i, part1))
              × Allocated part (some i, part1)
              × (block_bitmap_reset i part1 ≡ ok part2)
              × Returned part part2)
    undo out e (full none_free) = inl (e, full none_free)
    undo out e (block i bp first f) =
        let (bp', e', g) =
          reset_bits_lem block_sectors i bp f.valid (omega (arith, first.0, f.len)) in
        inr (
          i,
          record part { sector_bitmap = bp },
          record part { sector_bitmap = bp' },
          e,
          block i bp first f,
          rw e' refl,
          record { valid = g.valid; len = g.len ∙ f.len; bits = back i bp bp' first.1 f g },
        )

bit_map_update-panic :
    (idx : ℕ) (part : Partition)
    → (idx + block_sectors - 1) / 512 ≢ idx / 512
    → 512 * (idx / 4096 + 2) ≤ length part.sector_bitmap.bits
    → bit_map_update idx bitmap_for_block part ≡ panic
unfolding bit_map_update write_map
bit_map_update-panic idx part crossed fits =
    let test : ((idx + block_sectors - 1) / 512 == idx / 512) ≡ false = ground arith in
    let one : leb (512 * (idx / 4096 + 1)) (length part.sector_bitmap.bits) ≡ true = ground arith in
    let two : leb (512 * (idx / 4096 + 1 + 1)) (length part.sector_bitmap.bits) ≡ true =
      ground arith in
    rw (one, test, two) refl

-- `AllocateOneBlock` of one of the first 12 blocks, with a free block in the map: where the number that it gives to
-- `BitMapUpdate`, which is that of the sector on the disk, is one of the last 7 of 512, and the map in memory has the
-- two sectors from the one of that number on, `BitMapUpdate` stops the kernel with its PANIC.
pub allocate_one_block-panic :
    (idx i : ℕ) (w : Work) (part' : Partition)
    → idx < 12
    → block_bitmap_allocate w.part ≡ ok (some i, part')
    → 512 < (i + part'.data_lba) % 512 + block_sectors
    → 512 * ((i + part'.data_lba) / 4096 + 2) ≤ length part'.sector_bitmap.bits
    → allocate_one_block idx w ≡ panic
unfolding allocate_one_block allocate_direct_block put_direct
allocate_one_block-panic idx i w part' lt e crossed fits =
    let direct : ltb idx 12 ≡ true = ground arith in
    rw (direct, e, bit_map_update-panic (i + part'.data_lba) part' (omega arith) fits) refl
