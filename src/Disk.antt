-- ===== src/Disk.antt =====
-- device/ide.c: the addressing of sectors and the transfer of sectors between a disk and a buffer. A disk and a
-- buffer are functions from the place of a byte to the byte; sector `s` begins at `512 * s`. The controller is not
-- code of the repository: it transfers the sectors that its registers name, and its statuses are an argument. Locks,
-- interrupts and what is printed are left out.
mod Transfers
mod Tests
use mmzzos.Base.{
  ℕ, zero, suc, ◌+◌, ◌-◌, ◌*◌, ◌/◌, ◌%◌, ◌^◌, Bool, true, false, ◌&&◌, not, ◌==◌, ltb, leb,
  if◌then◌else◌, bit_or, Result, ok, panic, fault,
}

abbrev pub Bytes : Type 0
Bytes = ℕ → ℕ

abbrev pub sector_size : ℕ
sector_size = 512

-- What `select_sector` writes into the registers of the channel.
pub record Registers : Type 0 where
  pub sect_cnt : ℕ
  pub lba_l : ℕ
  pub lba_m : ℕ
  pub lba_h : ℕ
  pub dev : ℕ

-- `select_sector`, where `dev_no` is the number of the disk on its channel. A register has 8 bits.
unfoldable pub select_sector : ℕ → ℕ → ℕ → Registers
select_sector dev_no offset cnt = record {
  sect_cnt = cnt % 256;
  lba_l = offset % 256;
  lba_m = offset / 2 ^ 8 % 256;
  lba_h = offset / 2 ^ 16 % 256;
  dev = bit_or (if dev_no == 1 then 240 else 224) (offset / 2 ^ 24) % 256;
}

-- `needSelect`
abbrev pub need_select : ℕ → ℕ → ℕ
need_select cur cnt = if leb (cur + 255) cnt then 255 else cnt - cur

-- The sector that a controller finds in its registers, an address of 28 bits.
abbrev pub lba_of : Registers → ℕ
lba_of r = r.lba_l + 2 ^ 8 * r.lba_m + 2 ^ 16 * r.lba_h + 2 ^ 24 * (r.dev % 16)

-- The bits of the status.
abbrev pub is_busy : ℕ → Bool
is_busy status = leb 128 (status % 256)

abbrev pub is_requesting : ℕ → Bool
is_requesting status = status / 8 % 2 == 1

-- `WaitForHdWork` with `n` rounds left: each read of the status takes the next one that the controller shows.
unfoldable pub wait_for_hd_work : ℕ → (ℕ → ℕ) → ℕ → Bool
wait_for_hd_work zero status time = false
wait_for_hd_work (suc n) status time =
    let later = wait_for_hd_work n status (time + 1) in
    if not (is_busy (status time)) then is_requesting (status (time + 1)) else later

-- 10000 milliseconds in steps of 10.
abbrev pub wait_rounds : ℕ
wait_rounds = 1000

-- What the controller does with the bytes of one command, with the buffer from `cur` sectors on.
abbrev pub get_sectors : Bytes → ℕ → ℕ → ℕ → Bytes → Bytes
get_sectors disk lba n cur buf i =
    if leb (512 * cur) i && ltb i (512 * (cur + n))
    then disk (512 * lba + (i - 512 * cur))
    else buf i

abbrev pub put_sectors : Bytes → ℕ → ℕ → ℕ → Bytes → Bytes
put_sectors disk lba n cur buf p =
    if leb (512 * lba) p && ltb p (512 * (lba + n))
    then buf (512 * cur + (p - 512 * lba))
    else disk p

-- The first sector of a command, by the registers that select it.
unfoldable pub selected : ℕ → ℕ → ℕ → ℕ → ℕ
selected dev_no offset cur need = lba_of (select_sector dev_no ((offset + cur) % 2 ^ 32) need)

-- A channel: the number of the disk on it, and the statuses that the controller shows in the command that begins
-- behind `cur` sectors of a call.
pub record Channel : Type 0 where
  pub dev_no : ℕ
  pub status : ℕ → ℕ → ℕ

-- The loop of `ide_read`: the buffer that it leaves. `panic` is the one behind `WaitForHdWork`; with no fuel left it
-- is a `fault`.
unfoldable pub ide_read : ℕ → Channel → Bytes → Bytes → ℕ → ℕ → ℕ → Result Bytes
ide_read zero hd disk buf offset cur cnt = fault
ide_read (suc fuel) hd disk buf offset cur cnt =
    let need = need_select cur cnt in
    let rest =
      ide_read fuel hd disk (get_sectors disk (selected hd.dev_no offset cur need) need cur buf)
        offset (cur + need) cnt in
    if ltb cur cnt
    then if wait_for_hd_work wait_rounds (hd.status cur) 0 then rest else panic
    else ok buf

-- The loop of `ide_write`: the disk that it leaves.
unfoldable pub ide_write : ℕ → Channel → Bytes → Bytes → ℕ → ℕ → ℕ → Result Bytes
ide_write zero hd disk buf offset cur cnt = fault
ide_write (suc fuel) hd disk buf offset cur cnt =
    let need = need_select cur cnt in
    let rest =
      ide_write fuel hd (put_sectors disk (selected hd.dev_no offset cur need) need cur buf) buf
        offset (cur + need) cnt in
    if ltb cur cnt
    then if wait_for_hd_work wait_rounds (hd.status cur) 0 then rest else panic
    else ok disk
