-- ===== src/Disk/Transfers.antt =====
-- `ide_read` and `ide_write` transfer each of the sectors once, whatever their number.
use mathlib.Core.Logic.{◌⊎◌}
use mmzzos.Base.{
  ℕ, zero, suc, ◌+◌, ◌-◌, ◌*◌, ◌/◌, ◌%◌, ◌^◌, ◌≡◌, ◌<◌, ◌≤◌, refl, ap, ◌∙◌, Bool, true, false, ◌&&◌,
  ◌==◌, ok, ltb, leb, if◌then◌else◌, bit_or, arith, dec_lt, dec_le,
}
use mmzzos.Base.Bytes.{passes, passes-true}
use mmzzos.Disk.{
  Bytes, Registers, Channel, select_sector, lba_of, is_busy, is_requesting, wait_for_hd_work,
  wait_rounds, selected, need_select, get_sectors, put_sectors, ide_read, ide_write,
}

-- The number of sectors that it finds, where 0 stands for 256.
abbrev pub count_of : Registers → ℕ
count_of r = if r.sect_cnt == 0 then 256 else r.sect_cnt

dev_row : ℕ → Bool
dev_row top =
    (bit_or 240 top % 256 % 16 == top)
    && (bit_or 224 top % 256 % 16 == top)
    && (bit_or 240 top % 256 / 16 % 2 == 1)
    && (bit_or 224 top % 256 / 16 % 2 == 0)

dev_table : passes dev_row 16 ≡ true
unfolding passes dev_row
dev_table = refl

dev_bits :
    (dev_no top : ℕ)
    → dev_no < 2
    → top < 16
    → (bit_or (if dev_no == 1 then 240 else 224) top % 256 % 16 ≡ top)
      × (bit_or (if dev_no == 1 then 240 else 224) top % 256 / 16 % 2 ≡ dev_no)
unfolding dev_row
dev_bits dev_no top hd ht =
    let row = passes-true dev_row 16 top ht dev_table in (ground arith, ground arith)

-- For a sector below 2^28 and from 1 to 255 sectors the registers name that sector, that number, and the disk.
pub select_sector_lem :
    (dev_no offset cnt : ℕ)
    → dev_no < 2
    → offset < 2 ^ 28
    → 0 < cnt
    → cnt < 256
    → (lba_of (select_sector dev_no offset cnt) ≡ offset)
      × (count_of (select_sector dev_no offset cnt) ≡ cnt)
      × ((select_sector dev_no offset cnt).dev / 16 % 2 ≡ dev_no)
unfolding select_sector
select_sector_lem dev_no offset cnt hd ho lo hi =
    let top : offset / 2 ^ 24 < 16 = omega arith in
    let (low, high) = dev_bits dev_no (offset / 2 ^ 24) hd top in
    (omega (arith, low), ground arith, high)

-- In each command of a call the controller is ready: it stops being busy in one of the 1000 reads of its status, and
-- then it requests the data.
pub record Answers (status : ℕ → ℕ) : Type 0 where
  pub time : ℕ
  pub soon : time < wait_rounds
  pub busy : (t : ℕ) → t < time → is_busy (status t) ≡ true
  pub free : is_busy (status time) ≡ false
  pub requests : is_requesting (status (time + 1)) ≡ true

wait_from :
    (k n t : ℕ) (status : ℕ → ℕ)
    → k < n
    → ((u : ℕ) → t ≤ u → u < t + k → is_busy (status u) ≡ true)
    → is_busy (status (t + k)) ≡ false
    → is_requesting (status (t + k + 1)) ≡ true
    → wait_for_hd_work n status t ≡ true
unfolding wait_for_hd_work
wait_from k zero t status lt busy free requests = absurd (omega arith)
wait_from zero (suc n) t status lt busy free requests =
    let here : is_busy (status t) ≡ false = ap (λ u. is_busy (status u)) (omega arith) ∙ free in
    rw here (ap (λ u. is_requesting (status u)) (omega arith) ∙ requests)
wait_from (suc k) (suc n) t status lt busy free requests = rw (busy t (omega arith) (omega arith)) (
    wait_from k n (t + 1) status (omega arith) (λ u lo hi. busy u (omega arith) (omega arith))
      (ap (λ u. is_busy (status u)) (omega arith) ∙ free)
      (ap (λ u. is_requesting (status u)) (omega arith) ∙ requests))

-- `WaitForHdWork` says so.
pub wait_for_hd_work_lem :
    (status : ℕ → ℕ) → Answers status → wait_for_hd_work wait_rounds status 0 ≡ true
wait_for_hd_work_lem status a =
    wait_from a.time wait_rounds 0 status a.soon (λ u lo hi. a.busy u (omega arith))
      (ap (λ u. is_busy (status u)) (omega arith) ∙ a.free)
      (ap (λ u. is_requesting (status u)) (omega arith) ∙ a.requests)

-- A call that the registers and the controller can serve.
pub record IsServed (hd : Channel) (offset cnt : ℕ) : Type 0 where
  pub disk_no : hd.dev_no < 2
  pub inside : offset + cnt ≤ 2 ^ 28
  pub answers : (cur : ℕ) → cur < cnt → Answers (hd.status cur)

-- A round selects the next sectors.
selected_lem :
    (hd : Channel) (offset cur cnt : ℕ)
    → IsServed hd offset cnt
    → cur < cnt
    → selected hd.dev_no offset cur (need_select cur cnt) ≡ offset + cur
unfolding selected
selected_lem hd offset cur cnt served lt =
    let small : (offset + cur) % 2 ^ 32 ≡ offset + cur = omega (arith, served.inside) in
    rw small
      (select_sector_lem hd.dev_no (offset + cur) (need_select cur cnt) served.disk_no
        (omega (arith, served.inside)) (ground arith) (ground arith)).0

-- A range of places and the range behind it make one range.
join_ranges :
    (a b c i x y z : ℕ)
    → a ≤ b
    → b ≤ c
    → (a ≤ i → i < b → y ≡ x)
    → (if leb b i && ltb i c then x else if leb a i && ltb i b then y else z)
      ≡ (if leb a i && ltb i c then x else z)
join_ranges a b c i x y z ab bc same = elim (dec_le a i) [
  | yes ai ↦ elim (dec_lt i b) [
    | yes ib ↦ let e = same ai ib in ground arith
    | no ge ↦ ground arith
  ]
  | no gt ↦ ground arith
]

ide_read-some :
    (fuel : ℕ) (hd : Channel) (disk buf : Bytes) (offset cur cnt : ℕ)
    → IsServed hd offset cnt
    → cur ≤ cnt
    → cnt - cur < fuel
    → (out : Bytes) × (ide_read fuel hd disk buf offset cur cnt ≡ ok out)
      × ((i : ℕ)
          → out i
            ≡ (if leb (512 * cur) i && ltb i (512 * cnt) then disk (512 * offset + i) else buf i))
unfolding ide_read
ide_read-some zero hd disk buf offset cur cnt served le lt = absurd (omega arith)
ide_read-some (suc fuel) hd disk buf offset cur cnt served le lt = elim (dec_lt cur cnt) [
  | no done ↦
      let stop : ltb cur cnt ≡ false = ground arith in rw stop (buf, refl, λ i. ground arith)
  | yes more ↦
      let go : ltb cur cnt ≡ true = ground arith in
      let next : cur + need_select cur cnt ≤ cnt = ground arith in
      let some_left : 0 < need_select cur cnt = ground arith in
      let buf' = get_sectors disk (offset + cur) (need_select cur cnt) cur buf in
      let (out, e, h) =
        ide_read-some fuel hd disk buf' offset (cur + need_select cur cnt) cnt served next
          (omega arith) in
      rw
        (
          go,
          selected_lem hd offset cur cnt served more,
          wait_for_hd_work_lem (hd.status cur) (served.answers cur more),
          e,
        )
        (
          out,
          refl,
          λ i.
              h i
              ∙ join_ranges (512 * cur) (512 * (cur + need_select cur cnt)) (512 * cnt) i _ _ _
                  (omega arith) (omega arith) (λ lo hi. ap disk (omega arith)),
        )
]

ide_write-some :
    (fuel : ℕ) (hd : Channel) (disk buf : Bytes) (offset cur cnt : ℕ)
    → IsServed hd offset cnt
    → cur ≤ cnt
    → cnt - cur < fuel
    → (out : Bytes) × (ide_write fuel hd disk buf offset cur cnt ≡ ok out)
      × ((p : ℕ)
          → out p ≡ (
              if leb (512 * (offset + cur)) p && ltb p (512 * (offset + cnt))
              then buf (p - 512 * offset)
              else disk p))
unfolding ide_write
ide_write-some zero hd disk buf offset cur cnt served le lt = absurd (omega arith)
ide_write-some (suc fuel) hd disk buf offset cur cnt served le lt = elim (dec_lt cur cnt) [
  | no done ↦
      let stop : ltb cur cnt ≡ false = ground arith in rw stop (disk, refl, λ p. ground arith)
  | yes more ↦
      let go : ltb cur cnt ≡ true = ground arith in
      let next : cur + need_select cur cnt ≤ cnt = ground arith in
      let some_left : 0 < need_select cur cnt = ground arith in
      let disk' = put_sectors disk (offset + cur) (need_select cur cnt) cur buf in
      let (out, e, h) =
        ide_write-some fuel hd disk' buf offset (cur + need_select cur cnt) cnt served next
          (omega arith) in
      let ends : 512 * (offset + (cur + need_select cur cnt))
          ≡ 512 * (offset + cur + need_select cur cnt) =
        omega arith in
      rw
        (
          go,
          selected_lem hd offset cur cnt served more,
          wait_for_hd_work_lem (hd.status cur) (served.answers cur more),
          e,
        )
        (
          out,
          refl,
          λ p.
              h p
              ∙ rw ends (
                  join_ranges (512 * (offset + cur)) (512 * (offset + cur + need_select cur cnt))
                    (512 * (offset + cnt)) p _ _ _ (omega arith) (omega arith)
                    (λ lo hi. ap buf (omega arith))),
        )
]

-- Of a call that is served, with fuel for each sector and one round more, `ide_read` ends, and the buffer holds the bytes of `cnt` sectors
-- from `offset` on, and what it held behind them.
pub ide_read_lem :
    (hd : Channel) (disk buf : Bytes) (offset cnt : ℕ)
    → IsServed hd offset cnt
    → (out : Bytes) × (ide_read (suc cnt) hd disk buf offset 0 cnt ≡ ok out)
      × ((i : ℕ) → out i ≡ (if ltb i (512 * cnt) then disk (512 * offset + i) else buf i))
ide_read_lem hd disk buf offset cnt served =
    let (out, e, h) =
      ide_read-some (suc cnt) hd disk buf offset 0 cnt served (omega arith) (omega arith) in
    (out, e, λ i. h i ∙ ground arith)

-- Of a call that is served, with fuel for each sector and one round more, `ide_write` ends, and the `cnt` sectors from `offset` on hold the
-- bytes of the buffer, and every other sector what it held.
pub ide_write_lem :
    (hd : Channel) (disk buf : Bytes) (offset cnt : ℕ)
    → IsServed hd offset cnt
    → (out : Bytes) × (ide_write (suc cnt) hd disk buf offset 0 cnt ≡ ok out)
      × ((p : ℕ) → out p ≡ put_sectors disk offset cnt 0 buf p)
ide_write_lem hd disk buf offset cnt served =
    let (out, e, h) =
      ide_write-some (suc cnt) hd disk buf offset 0 cnt served (omega arith) (omega arith) in
    (out, e, λ p. h p ∙ same p)
  where
    same :
        (p : ℕ)
        → (if leb (512 * (offset + 0)) p && ltb p (512 * (offset + cnt))
            then buf (p - 512 * offset)
            else disk p)
          ≡ put_sectors disk offset cnt 0 buf p
    same p =
        let start : 512 * (offset + 0) ≡ 512 * offset = omega arith in
        let place : 512 * 0 + (p - 512 * offset) ≡ p - 512 * offset = omega arith in
        rw (start, place) refl

-- What `ide_write` writes `ide_read` reads, where the sectors are below 2^28, the disk is number 0 or 1 of its channel,
-- and in each command of both the controller stops being busy in time and requests the data: both end with fuel for
-- each sector and one round more, the sectors that are read back hold the bytes of the buffer, and the bytes of every
-- other sector stay.
pub ide_write-ide_read :
    (hd : Channel) (disk buf buf' : Bytes) (offset cnt : ℕ)
    → IsServed hd offset cnt
    → (disk' : Bytes) × (out : Bytes) × (ide_write (suc cnt) hd disk buf offset 0 cnt ≡ ok disk')
      × (ide_read (suc cnt) hd disk' buf' offset 0 cnt ≡ ok out)
      × ((i : ℕ) → i < 512 * cnt → out i ≡ buf i)
      × ((p : ℕ) → (p < 512 * offset) ⊎ (512 * (offset + cnt) ≤ p) → disk' p ≡ disk p)
ide_write-ide_read hd disk buf buf' offset cnt served =
    let (disk', e, h) = ide_write_lem hd disk buf offset cnt served in
    let (out, e', h') = ide_read_lem hd disk' buf' offset cnt served in
    (disk', out, e, e', λ i lt. h' i ∙ read_back disk' h i lt, λ p away. h p ∙ kept p away)
  where
    read_back :
        (disk' : Bytes)
        → ((p : ℕ) → disk' p ≡ put_sectors disk offset cnt 0 buf p)
        → (i : ℕ) → i < 512 * cnt
        → (if ltb i (512 * cnt) then disk' (512 * offset + i) else buf' i) ≡ buf i
    read_back disk' h i lt =
        let in_range : ltb i (512 * cnt) ≡ true = ground arith in
        let lo : leb (512 * offset) (512 * offset + i) ≡ true = ground arith in
        let hi : ltb (512 * offset + i) (512 * (offset + cnt)) ≡ true = ground arith in
        rw in_range (h (512 * offset + i) ∙ rw (lo, hi) (ap buf (omega arith)))

    kept :
        (p : ℕ)
        → (p < 512 * offset) ⊎ (512 * (offset + cnt) ≤ p)
        → put_sectors disk offset cnt 0 buf p ≡ disk p
    kept p away = ground arith
