-- ===== src/Files/Calls.antt =====
-- lib/user/syscallFun.c: the system calls on descriptors and pipes, on the tables of `Files`.
use mmzzos.Base.{
  ℕ, ◌+◌, ◌-◌, ◌%◌, ◌^◌, Bool, true, false, ◌||◌, ◌&&◌, not, Option, none, some, ◌==◌, ltb, leb,
  if◌then◌else◌, Result, ok, fault, ◌>>=◌,
}
use mmzzos.Base.Stores.{update}
use mmzzos.Files.{
  File, Descriptors, std_fd_cnt, max_process_files, pipe_flag, get_free_global_fd,
  process_install_fd, local_fd_to_global, inode_close, with_file,
}

-- `IsPipe`
unfoldable pub marks_pipe : (ℕ → File) → Option ℕ → Bool
marks_pipe files none = false
marks_pipe files (some g) = (files g).flag == pipe_flag

unfoldable pub is_pipe : Descriptors → ℕ → Bool
unfolding marks_pipe
is_pipe t fd = marks_pipe t.files (local_fd_to_global t.fds fd)

-- `pipe_close` of a descriptor that it has closed, with the slot that it was open on.
unfoldable pub release_pipe : Descriptors → Option ℕ → Bool × Bool × Descriptors
release_pipe t none = (false, false, t)
release_pipe t (some g) =
    let file = t.files g in
    let cnt = (file.fd_pos + (2 ^ 32 - 1)) % 2 ^ 32 in
    if cnt == 0
    then (true, true, with_file t g (record file { fd_pos = cnt; inode = 0 }))
    else (true, false, with_file t g (record file { fd_pos = cnt }))

-- `pipe_close`: what it returns, and whether it frees the page of the pipe. `fd[8]` is not there.
unfoldable pub pipe_close : ℕ → Descriptors → Result (Bool × Bool × Descriptors)
unfolding release_pipe
pipe_close fd t =
    if ltb fd std_fd_cnt || (ltb max_process_files fd || not (ltb fd (2 ^ 31)))
    then ok (false, false, t)
    else if fd == max_process_files
    then fault
    else ok (release_pipe (record t { fds = update t.fds fd none }) (t.fds fd))

-- `syscall_close` of a descriptor that it has closed and that is no pipe, with the slot that it was open on.
unfoldable pub release_file : Descriptors → ℕ → Bool × Descriptors
release_file t g =
    let file = t.files g in
    let (last, t') = inode_close file.inode t in
    if file.inode == 0
    then (false, t)
    else if last
    then (true, with_file t' g (record file { inode = 0 }))
    else (true, t')

unfoldable pub file_close : ℕ → Descriptors → Option ℕ → Bool × Descriptors
unfolding release_file
file_close fd t none = (false, t)
file_close fd t (some g) = release_file (record t { fds = update t.fds fd none }) g

abbrev without_page : Result (Bool × Bool × Descriptors) → Result (Bool × Descriptors)
without_page r = do (done, freed, t) ← r; ok (done, t)

unfoldable pub syscall_close : ℕ → Descriptors → Result (Bool × Descriptors)
syscall_close fd t =
    if leb max_process_files fd
    then ok (false, t)
    else if is_pipe t fd
    then without_page (pipe_close fd t)
    else ok (file_close fd t (t.fds fd))

-- `if(fd[i]!=-1)pcb->fd[fd[i]]=-1;`
abbrev pub drop_fd : Option ℕ → (ℕ → Option ℕ) → ℕ → Option ℕ
drop_fd none fds = fds
drop_fd (some fd) fds = update fds fd none

-- `syscall_pipe` behind the two calls of `ProcessInstallFd`, with what they returned.
unfoldable pub pipe_installed :
    ℕ → File → Option ℕ → Option ℕ → Descriptors → Option (ℕ × ℕ) × Descriptors
pipe_installed g made (some a) (some b) t = (some (a, b), with_file t g made)
pipe_installed g made a b t = (
  none,
  record t {
    files = update t.files g (record made { inode = 0 });
    fds = drop_fd b (drop_fd a t.fds);
  },
)

-- `syscall_pipe` behind the call of `GetFreeGlobalFd`, with what it returned.
unfoldable pub pipe_in : ℕ → Descriptors → Option ℕ → Option (ℕ × ℕ) × Descriptors
unfolding pipe_installed
pipe_in page t none = (none, t)
pipe_in page t (some g) =
    let made : File = record { fd_pos = 2; flag = pipe_flag; inode = page } in
    let (a, fds1) = process_install_fd g t.fds in
    let (b, fds2) = process_install_fd g fds1 in
    if page == 0
    then (none, with_file t g (record (t.files g) { inode = 0 }))
    else pipe_installed g made a b (record t { fds = fds2 })

-- `syscall_pipe`, where `page` is what mallocKernelPage returned; the two descriptors on success. Then the queue
-- of the pipe is set up, as `IoQueue` has it, in the page.
unfoldable pub syscall_pipe : ℕ → Descriptors → Option (ℕ × ℕ) × Descriptors
unfolding pipe_in
syscall_pipe page t = pipe_in page t (get_free_global_fd t.files)

-- A number below 0, as an `int32_t` pattern, and the order of such patterns.
abbrev pub is_negative : ℕ → Bool
is_negative v = leb (2 ^ 31) v

abbrev pub signed_lt : ℕ → ℕ → Bool
signed_lt a b = ltb ((a + 2 ^ 31) % 2 ^ 32) ((b + 2 ^ 31) % 2 ^ 32)

-- The new position that syscall_seek computes; with another flag it is a variable without a value.
unfoldable pub seek_target : ℕ → ℕ → ℕ → ℕ → Option ℕ
seek_target pos size offset flag =
    if flag == 1
    then some offset
    else if flag == 2
    then some ((pos + offset) % 2 ^ 32)
    else if flag == 3
    then some ((size + offset) % 2 ^ 32)
    else none

-- `syscall_seek` behind the computation of the new position; -1 is `none`.
unfoldable pub move_to : ℕ → ℕ → Descriptors → Option ℕ → Result (Option ℕ × Descriptors)
move_to g size t none = fault
move_to g size t (some pos) = ok (
    if is_negative pos || signed_lt size pos
    then (none, t)
    else (some pos, with_file t g (record (t.files g) { fd_pos = pos })))

unfoldable pub seek_in : ℕ → ℕ → Descriptors → Option ℕ → Result (Option ℕ × Descriptors)
unfolding move_to seek_target
seek_in offset flag t none = ok (none, t)
seek_in offset flag t (some g) =
    let file = t.files g in
    let size = (t.inodes file.inode).size in
    if file.inode == 0 then fault else move_to g size t (seek_target file.fd_pos size offset flag)

-- `syscall_seek`
unfoldable pub syscall_seek : ℕ → ℕ → ℕ → Descriptors → Result (Option ℕ × Descriptors)
unfolding seek_in
syscall_seek fd offset flag t = seek_in offset flag t (local_fd_to_global t.fds fd)

-- `syscall_fd_redirect`
unfoldable pub syscall_fd_redirect : ℕ → ℕ → Descriptors → Result (Bool × Descriptors)
syscall_fd_redirect old new t =
    if (is_negative old || leb old std_fd_cnt) && (new == 2 ^ 32 - 1)
    then if is_negative old then fault else ok (true, record t { fds = update t.fds old none })
    else if leb max_process_files old || leb max_process_files new
    then ok (false, t)
    else do
      (closed, t') ← syscall_close old t
      ok (true, record t' { fds = update t'.fds old (t'.fds new) })
