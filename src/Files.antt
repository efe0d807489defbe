-- ===== src/Files.antt =====
-- fs/file.c and fs/inode.c: the table of open files, the descriptors of a process, the inodes in memory, and the
-- system calls of lib/user/syscallFun.c that open, close, move and redirect a descriptor. A pointer is its address,
-- 0 is the null pointer; a descriptor of a process is `none` where the source has -1, and an `int32_t` that a caller
-- gives is its pattern of 32 bits. What syscall_malloc and mallocKernelPage return is an argument, and so is the
-- inode that is read from the disk.
pub mod Calls
mod Inodes
mod Slots
mod Opening
mod Pipes
mod Seeking
mod Tests
use mmzzos.Base.{
  ℕ, zero, suc, ◌+◌, ◌-◌, ◌*◌, ◌%◌, ◌^◌, Bool, true, false, ◌||◌, ◌&&◌, not, Option, none, some,
  List, [], ◌∷◌, ◌==◌, ltb, leb, if◌then◌else◌, bit_and, Result, ok, panic, fault, ◌>>=◌, ◌>>◌,
  assert,
}
use mmzzos.Base.Stores.{update}
use mmzzos.Sched.{erase}

-- `struct Inode` without the list node; `sectors` is `i_sectors`.
pub record Inode : Type 0 where
  pub index : ℕ
  pub size : ℕ
  pub open_cnt : ℕ
  pub write_deny : Bool
  pub sectors : List ℕ

-- `struct FILE`
pub record File : Type 0 where
  pub fd_pos : ℕ
  pub flag : ℕ
  pub inode : ℕ

-- `GlobalFileTable`, the descriptors of the running process, the memory where a `struct Inode` is read, and
-- `CurPartition->open_inodes` from its front on.
pub record Descriptors : Type 0 where
  pub files : ℕ → File
  pub fds : ℕ → Option ℕ
  pub inodes : ℕ → Inode
  pub open_inodes : List ℕ

abbrev pub std_fd_cnt : ℕ
std_fd_cnt = 2

abbrev pub max_open_files : ℕ
max_open_files = 64

abbrev pub max_process_files : ℕ
max_process_files = 8

abbrev pub max_files : ℕ
max_files = 4096

abbrev pub pipe_flag : ℕ
pipe_flag = 65535

-- The loop of `GetFreeGlobalFd`, with `n` slots left.
unfoldable pub free_slot : ℕ → ℕ → (ℕ → File) → Option ℕ
free_slot zero idx files = none
free_slot (suc n) idx files =
    let later = free_slot n (idx + 1) files in if (files idx).inode == 0 then some idx else later

unfoldable pub get_free_global_fd : (ℕ → File) → Option ℕ
unfolding free_slot
get_free_global_fd files = free_slot (max_open_files - std_fd_cnt) std_fd_cnt files

abbrev pub is_closed : Option ℕ → Bool
is_closed none = true
is_closed (some g) = false

-- The loop of `ProcessInstallFd`, with `n` descriptors left.
unfoldable pub free_fd : ℕ → ℕ → (ℕ → Option ℕ) → Option ℕ
free_fd zero idx fds = none
free_fd (suc n) idx fds =
    let later = free_fd n (idx + 1) fds in if is_closed (fds idx) then some idx else later

abbrev pub install_at : ℕ → Option ℕ → (ℕ → Option ℕ) → ℕ → Option ℕ
install_at g none fds = fds
install_at g (some idx) fds = update fds idx (some g)

unfoldable pub process_install_fd : ℕ → (ℕ → Option ℕ) → Option ℕ × (ℕ → Option ℕ)
unfolding free_fd
process_install_fd g fds =
    let idx = free_fd (max_process_files - std_fd_cnt) std_fd_cnt fds in (idx, install_at g idx fds)

unfoldable pub local_fd_to_global : (ℕ → Option ℕ) → ℕ → Option ℕ
local_fd_to_global fds fd = if leb max_process_files fd then none else fds fd

-- The loop over the open inodes in `InodeOpen` and in `FindOpenInode`.
unfoldable pub find_open_inode : (ℕ → Inode) → ℕ → List ℕ → Option ℕ
find_open_inode inodes index [] = none
find_open_inode inodes index (a ∷ rest) =
    let later = find_open_inode inodes index rest in
    if (inodes a).index == index then some a else later

abbrev pub with_inode : Descriptors → ℕ → Inode → Descriptors
with_inode t a node = record t { inodes = update t.inodes a node }

-- What a call of the file system gets from elsewhere: the addresses that its two calls of syscall_malloc return,
-- and the inodes on the disk.
pub record Supply : Type 0 where
  pub fresh : ℕ
  pub buffer : ℕ
  pub on_disk : ℕ → Inode

abbrev pub opened_as : ℕ → Inode → Inode
opened_as index node = record node { open_cnt = 1; write_deny = false; index = index }

-- `InodeOpen`: the address of the inode.
unfoldable pub inode_open : Supply → ℕ → Descriptors → Result (ℕ × Descriptors)
inode_open m index t = do
  assert (ltb index max_files)
  elim (find_open_inode t.inodes index t.open_inodes) [
    | some a ↦
        let node = t.inodes a in
        ok (a, with_inode t a (record node { open_cnt = (node.open_cnt + 1) % 2 ^ 32 }))
    | none ↦ do
      assert (not (m.fresh == 0))
      assert (not (m.buffer == 0))
      let t' = with_inode t m.fresh (opened_as index (m.on_disk index)) in
          ok (m.fresh, record t' { open_inodes = m.fresh ∷ t.open_inodes })
  ]

-- `InodeClose`: whether the inode was closed for good.
unfoldable pub inode_close : ℕ → Descriptors → Bool × Descriptors
inode_close a t =
    let node = t.inodes a in
    let cnt = (node.open_cnt + (2 ^ 32 - 1)) % 2 ^ 32 in
    let t' = with_inode t a (record node { open_cnt = cnt }) in
    if cnt == 0 then (true, record t' { open_inodes = erase a t.open_inodes }) else (false, t')

-- `InodeInit`
unfoldable pub inode_init : ℕ → Inode
inode_init index = record {
  index = index;
  size = 0;
  open_cnt = 0;
  write_deny = false;
  sectors = 0 ∷ 0 ∷ 0 ∷ 0 ∷ 0 ∷ 0 ∷ 0 ∷ 0 ∷ 0 ∷ 0 ∷ 0 ∷ 0 ∷ 0 ∷ 0 ∷ 0 ∷ [];
}

abbrev pub with_file : Descriptors → ℕ → File → Descriptors
with_file t g file = record t { files = update t.files g file }

-- `(flag&O_WRONLY)||(flag&O_RDWR)`
abbrev pub wants_write : ℕ → Bool
wants_write flag = not (bit_and flag 2 == 0) || not (bit_and flag 3 == 0)

-- `file_open` behind the call of `ProcessInstallFd`, with what it returned: `a` is the inode, `g` the slot.
unfoldable pub installed : ℕ → ℕ → Descriptors → Option ℕ → Option ℕ × Descriptors
installed g a t (some fd) = (some fd, t)
installed g a t none =
    (none, with_file (inode_close a t).1 g (record { fd_pos = 0; flag = 0; inode = 0 }))

unfoldable pub install_open : ℕ → ℕ → Descriptors → Option ℕ × Descriptors
install_open g a t =
    let (fd, fds) = process_install_fd g t.fds in installed g a (record t { fds = fds }) fd

-- `file_open` behind the call of `GetFreeGlobalFd`, with what it returned.
unfoldable pub open_in : Supply → ℕ → ℕ → Descriptors → Option ℕ → Result (Option ℕ × Descriptors)
open_in m index flag t none = ok (none, t)
open_in m index flag t (some g) = do
  (a, t1) ← inode_open m index t
  let t2 = with_file t1 g (record { fd_pos = 0; flag = flag; inode = a }) in
      let node = t2.inodes a in
      let locked = with_inode t2 a (record node { write_deny = true }) in
      ok (
        if wants_write flag
        then if node.write_deny then (none, t2) else install_open g a locked
        else install_open g a t2)

-- `file_open`; -1 is `none`.
unfoldable pub file_open : Supply → ℕ → ℕ → Descriptors → Result (Option ℕ × Descriptors)
unfolding open_in
file_open m index flag t = open_in m index flag t (get_free_global_fd t.files)
