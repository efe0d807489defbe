-- ===== src/Disk/Tests.antt =====
-- Three sectors of a disk.
use mmzzos.Base.{
  ℕ, suc, ◌+◌, ◌*◌, ◌/◌, ◌%◌, ◌≡◌, ◌<◌, ◌≤◌, ok, refl, ◌==◌, if◌then◌else◌, arith, ◌⊎◌,
}
use mmzzos.Disk.{Bytes, Channel, lba_of, select_sector, ide_read, ide_write}
use mmzzos.Disk.Transfers.{count_of, select_sector_lem, IsServed, ide_write-ide_read}

select_sector_lem_example :
    (lba_of (select_sector 1 123456789 8) ≡ 123456789)
    × (count_of (select_sector 1 123456789 8) ≡ 8)
    × ((select_sector 1 123456789 8).dev / 16 % 2 ≡ 1)
select_sector_lem_example =
    select_sector_lem 1 123456789 8 (omega arith) (omega arith) (omega arith) (omega arith)

abbrev blank : Bytes
blank p = 0

abbrev counting : Bytes
counting p = p % 256

-- A controller that is busy for one read of its status and then requests the data.
abbrev hard_disk : Channel
hard_disk = record { dev_no = 1; status = λ cur time. if time == 0 then 0x80 else 0x48 }

-- 600 sectors are three commands.
served : IsServed hard_disk 5 600
served = record {
  disk_no = omega arith;
  inside = omega arith;
  answers = λ cur lt. record {
    time = 1;
    soon = omega arith;
    busy = λ t lt1. ground arith;
    free = refl;
    requests = refl;
  };
}

ide_write-ide_read_example :
    (disk' : Bytes) × (out : Bytes) × (ide_write (suc 600) hard_disk blank counting 5 0 600
      ≡ ok disk')
    × (ide_read (suc 600) hard_disk disk' blank 5 0 600 ≡ ok out)
    × ((i : ℕ) → i < 512 * 600 → out i ≡ counting i)
    × ((p : ℕ) → (p < 512 * 5) ⊎ (512 * (5 + 600) ≤ p) → disk' p ≡ blank p)
ide_write-ide_read_example = ide_write-ide_read hard_disk blank counting blank 5 600 served
