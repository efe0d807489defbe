-- ===== src/Files/Tests.antt =====
-- No file is open in the beginning: a file and a pipe are opened and closed, a position is moved.
use mmzzos.Base.{
  ℕ, ◌+◌, ◌-◌, ◌%◌, ◌^◌, ◌≡◌, refl, true, false, none, some, [], ◌∷◌, ok, Ensures, arith, ◌<◌,
  if◌then◌else◌,
}
use mmzzos.Base.Stores.{update}
use mmzzos.Sched.{has}
use mmzzos.Files.{
  Descriptors, Supply, inode_init, find_open_inode, inode_open, inode_close, get_free_global_fd,
  free_slot, free_fd, process_install_fd, file_open, local_fd_to_global,
}
use mmzzos.Files.Calls.{syscall_close, syscall_pipe, pipe_close, syscall_seek}
use mmzzos.Files.Inodes.{Opened, Valid, inode_open_lem, inode_close_lem}
use mmzzos.Files.Opening.{HasRoom, Restored, file_open-syscall_close, file_open-denied}
use mmzzos.Files.Pipes.{HasPipeRoom, syscall_pipe-pipe_close}
use mmzzos.Files.Seeking.{jump, jump_base, moved, syscall_seek_lem}

abbrev idle : Descriptors
idle = record {
  files = λ g. record { fd_pos = 0; flag = 0; inode = 0 };
  fds = λ i. none;
  inodes = λ a. inode_init 0;
  open_inodes = [];
}

abbrev supply : Supply
supply = record { fresh = 4096; buffer = 8192; on_disk = λ i. inode_init i }

abbrev one_open : Descriptors
one_open = record {
  files = update idle.files 2 (record { fd_pos = 10; flag = 3; inode = 64 });
  fds = update idle.fds 2 (some 2);
  inodes =
      update idle.inodes 64 (record (inode_init 5) { size = 100; open_cnt = 1; write_deny = true });
  open_inodes = 64 ∷ [];
}

one_open-Valid : Valid one_open
unfolding inode_init
one_open-Valid = record {
  distinct = (tt, tt);
  opened = (record { address = omega arith; counted = omega arith }, tt);
}

few : (a : ℕ) → has a one_open.open_inodes ≡ true → (one_open.inodes a).open_cnt + 1 < 2 ^ 32
unfolding inode_init
few a h = ground arith

inode_open_lem_example : Ensures (λ r. Opened 7 one_open r.1 r.0) (inode_open supply 7 one_open)
inode_open_lem_example =
    inode_open_lem supply 7 one_open one_open-Valid (omega arith) (omega arith) (omega arith) refl
      few

inode_close_lem_example :
    Valid (inode_close 64 one_open).1
    × (has 64 (inode_close 64 one_open).1.open_inodes
        ≡ (if (inode_close 64 one_open).0 then false else has 64 one_open.open_inodes))
inode_close_lem_example = inode_close_lem 64 one_open one_open-Valid

room : HasRoom supply idle 2 2
unfolding get_free_global_fd process_install_fd free_slot free_fd
room = record { slot = refl; descriptor = refl; fresh = omega arith; buffer = omega arith }

file_open-syscall_close_example :
    Ensures
      (λ opened.
        (opened.0 ≡ some 2)
        × Ensures (λ closed. (closed.0 ≡ true) × Restored idle closed.1) (syscall_close 2 opened.1))
      (file_open supply 7 3 idle)
unfolding find_open_inode
file_open-syscall_close_example =
    file_open-syscall_close supply 7 3 2 2 idle (omega arith) (omega arith) room refl

second_slot : get_free_global_fd one_open.files ≡ some 3
unfolding get_free_global_fd free_slot
second_slot = refl

file_open-denied_example :
    Ensures
      (λ r.
        (r.0 ≡ none)
        × (r.1.fds ≡ one_open.fds)
        × ((r.1.files 3).inode ≡ 64)
        × ((r.1.inodes 64).open_cnt ≡ ((one_open.inodes 64).open_cnt + 1) % 2 ^ 32))
      (file_open supply 5 1 one_open)
unfolding find_open_inode inode_init
file_open-denied_example =
    file_open-denied supply 5 1 3 64 one_open (omega arith) (omega arith) second_slot refl refl

pipe_room : HasPipeRoom idle 2 2 3
unfolding get_free_global_fd process_install_fd free_slot free_fd
pipe_room = record { slot = refl; reader = refl; writer = refl }

syscall_pipe-pipe_close_example :
    ((syscall_pipe 4096 idle).0 ≡ some (2, 3))
    × Ensures
        (λ q.
          (q.0 ≡ true)
          × (q.1 ≡ false)
          × Ensures (λ r. (r.0 ≡ true) × (r.1 ≡ true) × Restored idle r.2) (pipe_close 3 q.2))
        (pipe_close 2 (syscall_pipe 4096 idle).1)
syscall_pipe-pipe_close_example = syscall_pipe-pipe_close 4096 2 2 3 idle (omega arith) pipe_room

-- 20 bytes back from position 10 is before the file.
syscall_seek_lem_example :
    syscall_seek 2 (2 ^ 32 - 20) 2 one_open
    ≡ ok (moved 2 one_open (jump 100 (jump_base 10 100 2) (2 ^ 32 - 20)))
unfolding local_fd_to_global inode_init
syscall_seek_lem_example =
    syscall_seek_lem 2 (2 ^ 32 - 20) 2 2 one_open refl (omega arith) (omega arith) (omega arith)
      (omega arith) (omega arith) (omega arith)
