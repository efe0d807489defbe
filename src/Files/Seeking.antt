-- ===== src/Files/Seeking.antt =====
-- `syscall_seek`: where the position of a file may go.
use mmzzos.Base.{
  ℕ, ◌+◌, ◌-◌, ◌%◌, ◌^◌, ◌≤◌, ◌<◌, ◌≡◌, ◌≢◌, ap, ◌∙◌, Bool, Option, none, some, true, false, ◌||◌,
  ◌==◌, if◌then◌else◌, arith, ℕ_discrete, ok, ltb, leb,
}
use mmzzos.Files.{Descriptors, with_file, local_fd_to_global}
use mmzzos.Files.Calls.{is_negative, signed_lt, seek_target, move_to, seek_in, syscall_seek}

-- The position behind a jump: none where the sum leaves the file.
abbrev pub jump : ℕ → ℕ → ℕ → Option ℕ
jump size base offset =
    if ltb offset (2 ^ 31)
    then if leb (base + offset) size then some (base + offset) else none
    else if leb (2 ^ 32 - offset) base
    then if leb (base - (2 ^ 32 - offset)) size then some (base - (2 ^ 32 - offset)) else none
    else none

abbrev pub jump_base : ℕ → ℕ → ℕ → ℕ
jump_base pos size flag = if flag == 1 then 0 else if flag == 2 then pos else size

abbrev pub moved : ℕ → Descriptors → Option ℕ → Option ℕ × Descriptors
moved g t none = (none, t)
moved g t (some pos) = (some pos, with_file t g (record (t.files g) { fd_pos = pos }))

wrapped :
    (size base offset : ℕ)
    → size < 2 ^ 31
    → base < 2 ^ 31
    → offset < 2 ^ 32
    → (if is_negative ((base + offset) % 2 ^ 32) || signed_lt size ((base + offset) % 2 ^ 32)
        then none
        else some ((base + offset) % 2 ^ 32))
      ≡ jump size base offset
wrapped size base offset hs hb ho = ground arith

moved_if :
    (g pos : ℕ) (t : Descriptors) (stays : Bool) (o : Option ℕ)
    → (if stays then none else some pos) ≡ o
    → (if stays then (none, t) else (some pos, with_file t g (record (t.files g) { fd_pos = pos })))
      ≡ moved g t o
moved_if g pos t true o e = ap (moved g t) e
moved_if g pos t false o e = ap (moved g t) e

move_to-jump :
    (g size base offset : ℕ) (t : Descriptors)
    → size < 2 ^ 31
    → base < 2 ^ 31
    → offset < 2 ^ 32
    → move_to g size t (some ((base + offset) % 2 ^ 32)) ≡ ok (moved g t (jump size base offset))
unfolding move_to
move_to-jump g size base offset t hs hb ho =
    ap ok (moved_if g _ t _ _ (wrapped size base offset hs hb ho))

-- For a file of less than 2^31 bytes whose position is below 2^31, with one of the three flags, `syscall_seek` of a
-- 32-bit offset moves the position to the signed sum of the offset and the start, the position or the size, and
-- returns it, where the sum lies in the file or at its end, and it returns -1 and changes nothing where it does not.
pub syscall_seek_lem :
    (fd offset flag g : ℕ) (t : Descriptors)
    → local_fd_to_global t.fds fd ≡ some g
    → (t.files g).inode ≢ 0
    → (t.inodes (t.files g).inode).size < 2 ^ 31
    → (t.files g).fd_pos < 2 ^ 31
    → offset < 2 ^ 32
    → 0 < flag
    → flag ≤ 3
    → syscall_seek fd offset flag t
      ≡ ok (
          moved g t (
            jump
              (t.inodes (t.files g).inode).size
              (jump_base (t.files g).fd_pos (t.inodes (t.files g).inode).size flag)
              offset))
unfolding syscall_seek seek_in seek_target
syscall_seek_lem fd offset flag g t on there hs hp ho lo hi =
    let slot : ((t.files g).inode == 0) ≡ false = ground arith in
    rw (on, slot)
      (elim (ℕ_discrete flag 1) [
        | yes e ↦
            let e1 : (flag == 1) ≡ true = ground arith in
            let plain : offset ≡ (0 + offset) % 2 ^ 32 = omega arith in
            rw e1 (
              ap (λ p. move_to g (t.inodes (t.files g).inode).size t (some p)) plain
              ∙ move_to-jump g _ 0 offset t hs (omega arith) ho)
        | no ne ↦ elim (ℕ_discrete flag 2) [
          | yes e ↦
              let e1 : (flag == 1) ≡ false = ground arith in
              let e2 : (flag == 2) ≡ true = ground arith in
              rw (e1, e2) (move_to-jump g _ _ offset t hs hp ho)
          | no ne' ↦
              let e1 : (flag == 1) ≡ false = ground arith in
              let e2 : (flag == 2) ≡ false = ground arith in
              let e3 : (flag == 3) ≡ true = ground arith in
              rw (e1, e2, e3) (move_to-jump g _ _ offset t hs hs ho)
        ]
      ])
