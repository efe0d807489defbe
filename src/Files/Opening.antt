-- ===== src/Files/Opening.antt =====
-- `file_open` and `syscall_close` together: what an open and a close leave behind.
use mmzzos.Base.{
  ℕ, ◌+◌, ◌%◌, ◌^◌, ◌<◌, ◌≡◌, ◌≢◌, refl, subst, sym, ap, ◌∙◌, Bool, none, some, true, false, ◌∷◌,
  ◌==◌, arith, Bool-cases, inl, inr, Result, ok, panic, fault, Ensures, ltb, leb, bit_and,
}
use mmzzos.Base.Stores.{update, update_self, update_ne, update_elim}
use mmzzos.Sched.{erase}
use mmzzos.Files.{
  Inode, File, Descriptors, Supply, find_open_inode, inode_open, inode_close, opened_as,
  wants_write, max_files, get_free_global_fd, process_install_fd, install_at, open_in, install_open,
  installed, file_open, local_fd_to_global, std_fd_cnt, max_open_files, max_process_files,
  pipe_flag,
}
use mmzzos.Files.Calls.{marks_pipe, release_file, is_pipe, file_close, syscall_close}
use mmzzos.Files.Slots.{
  FirstFree, IsUnused, IsClosed, get_free_global_fd_lem, process_install_fd_lem,
}

-- There is a slot `g`, a descriptor `fd`, and memory for an inode at an address that is not in use.
pub record HasRoom (m : Supply) (t : Descriptors) (g fd : ℕ) : Type 0 where
  pub slot : get_free_global_fd t.files ≡ some g
  pub descriptor : (process_install_fd g t.fds).0 ≡ some fd
  pub fresh : m.fresh ≢ 0
  pub buffer : m.buffer ≢ 0

-- The descriptors, the open inodes and the inode of each slot are the same.
pub record Restored (t t' : Descriptors) : Type 0 where
  pub fds : (i : ℕ) → t'.fds i ≡ t.fds i
  pub open_inodes : t'.open_inodes ≡ t.open_inodes
  pub slots : (i : ℕ) → (t'.files i).inode ≡ (t.files i).inode

module _ (m : Supply) (index flag g fd : ℕ) where
  -- `t'` is `t` after `file_open` of an inode that was not open.
  pub record FirstOpened (t t' : Descriptors) : Type 0 where
    pub files : t'.files ≡ update t.files g (record { fd_pos = 0; flag = flag; inode = m.fresh })
    pub fds : t'.fds ≡ update t.fds fd (some g)
    pub open_inodes : t'.open_inodes ≡ m.fresh ∷ t.open_inodes
    pub node :
        t'.inodes m.fresh
        ≡ record (opened_as index (m.on_disk index)) { write_deny = wants_write flag }

  -- For an inode that is not open, where there is room, `file_open` returns the first closed descriptor, open on
  -- the first unused slot at position 0, with the inode read from the disk and opened once.
  pub file_open-FirstOpened :
      (t : Descriptors)
      → index < max_files
      → HasRoom m t g fd
      → find_open_inode t.inodes index t.open_inodes ≡ none
      → Ensures (λ r. (r.0 ≡ some fd) × FirstOpened t r.1) (file_open m index flag t)
  unfolding file_open open_in inode_open install_open installed
  file_open-FirstOpened t lt room new =
      let bound : ltb index max_files ≡ true = ground arith in
      let fresh : (m.fresh == 0) ≡ false = ground (arith, room.fresh) in
      let buffer : (m.buffer == 0) ≡ false = ground (arith, room.buffer) in
      let self : (m.fresh == m.fresh) ≡ true = ground arith in
      rw (room.slot, bound, new, fresh, buffer, self)
        (elim (Bool-cases (wants_write flag)) [
          | inl w ↦
              rw (w, room.descriptor)
                (
                  refl,
                  record {
                    files = refl;
                    fds = fds;
                    open_inodes = refl;
                    node = rw self (ap node_of (sym w));
                  },
                )
          | inr w ↦
              rw (w, room.descriptor)
                (
                  refl,
                  record {
                    files = refl;
                    fds = fds;
                    open_inodes = refl;
                    node = rw self (ap node_of (sym w));
                  },
                )
        ])
    where
      node_of : Bool → Inode
      node_of b = record (opened_as index (m.on_disk index)) { write_deny = b }

      fds : (process_install_fd g t.fds).1 ≡ update t.fds fd (some g)
      fds = (process_install_fd_lem g t.fds).1 ∙ ap (λ o. install_at g o t.fds) room.descriptor

  close-FirstOpened :
      (t t' : Descriptors)
      → flag < 256
      → m.fresh ≢ 0
      → fd < max_process_files
      → IsUnused t.files g
      → IsClosed t.fds fd
      → FirstOpened t t'
      → Ensures (λ q. (q.0 ≡ true) × Restored t q.1) (syscall_close fd t')
  unfolding syscall_close file_close release_file inode_close is_pipe marks_pipe local_fd_to_global
      erase
  close-FirstOpened t t' small nf low unused closed o =
      let range : leb max_process_files fd ≡ false = ground arith in
      let on : t'.fds fd ≡ some g = ap (λ f. f fd) o.fds ∙ update_self t.fds fd (some g) in
      let slot : t'.files g
          ≡ (let f : File = record { fd_pos = 0; flag = flag; inode = m.fresh } in f) =
        ap (λ f. f g) o.files ∙ update_self t.files g _ in
      let plain : (flag == pipe_flag) ≡ false = ground arith in
      let here : (m.fresh == 0) ≡ false = ground arith in
      rw (range, on, slot, plain, here, o.node)
        (
          refl,
          record {
            fds = λ i.
                update_elim (λ v. v ≡ t.fds i) t'.fds fd i none (λ e. sym closed ∙ ap t.fds (sym e))
                  (λ ne. ap (λ f. f i) o.fds ∙ update_ne t.fds fd i _ ne);
            open_inodes = ap (erase m.fresh) o.open_inodes ∙ erased;
            slots = λ i.
                update_elim (λ f. f.inode ≡ (t.files i).inode) t'.files g i _
                  (λ e. sym unused ∙ ap (λ j. (t.files j).inode) (sym e))
                  (λ ne.
                    ap (λ f. (f i).inode) o.files ∙ ap (λ f. f.inode) (update_ne t.files g i _ ne));
          },
        )
    where
      erased : erase m.fresh (m.fresh ∷ t.open_inodes) ≡ t.open_inodes
      erased = let self : (m.fresh == m.fresh) ≡ true = ground arith in rw self refl

Ensures-map :
    {A : Type 0} (P Q : A → Type 0) (r : Result A)
    → ((a : A) → P a → Q a)
    → Ensures P r
    → Ensures Q r
Ensures-map P Q (ok a) f p = f a p
Ensures-map P Q panic f p = p
Ensures-map P Q fault f p = p

-- Opening a file whose inode is not open, where there is room for it, and closing the descriptor again both
-- succeed, and then each descriptor, the list of the open inodes and the inode of each slot are as before. The index
-- is below 4096 and the flags have 8 bits.
pub file_open-syscall_close :
    (m : Supply) (index flag g fd : ℕ) (t : Descriptors)
    → index < max_files
    → flag < 256
    → HasRoom m t g fd
    → find_open_inode t.inodes index t.open_inodes ≡ none
    → Ensures
        (λ opened.
          (opened.0 ≡ some fd)
          × Ensures (λ closed. (closed.0 ≡ true) × Restored t closed.1) (syscall_close fd opened.1))
        (file_open m index flag t)
file_open-syscall_close m index flag g fd t lt small room new =
    let slot : FirstFree (IsUnused t.files) std_fd_cnt max_open_files (some g) =
      subst (FirstFree (IsUnused t.files) std_fd_cnt max_open_files) room.slot
        (get_free_global_fd_lem t.files) in
    let place : FirstFree (IsClosed t.fds) std_fd_cnt max_process_files (some fd) =
      subst (FirstFree (IsClosed t.fds) std_fd_cnt max_process_files) room.descriptor
        (process_install_fd_lem g t.fds).0 in
    Ensures-map _ _ (file_open m index flag t)
      (λ r o. (
        o.0,
        close-FirstOpened m index flag g fd t r.1 small room.fresh place.1 slot.2 place.2 o.1,
      ))
      (file_open-FirstOpened m index flag g fd t lt room new)

-- An inode that is open and may not be written now: an open of it with any of the flags O_RDONLY, O_WRONLY and
-- O_RDWR, where there is an unused slot, returns -1 and opens no descriptor, but it leaves the slot with the inode
-- and the inode with one opening more.
pub file_open-denied :
    (m : Supply) (index flag g a : ℕ) (t : Descriptors)
    → index < max_files
    → bit_and flag 3 ≢ 0
    → get_free_global_fd t.files ≡ some g
    → find_open_inode t.inodes index t.open_inodes ≡ some a
    → (t.inodes a).write_deny ≡ true
    → Ensures
        (λ r.
          (r.0 ≡ none)
          × (r.1.fds ≡ t.fds)
          × ((r.1.files g).inode ≡ a)
          × ((r.1.inodes a).open_cnt ≡ ((t.inodes a).open_cnt + 1) % 2 ^ 32))
        (file_open m index flag t)
unfolding file_open open_in inode_open
file_open-denied m index flag g a t lt some_flag slot found deny =
    let bound : ltb index max_files ≡ true = ground arith in
    let wants : wants_write flag ≡ true = ground arith in
    let self : (a == a) ≡ true = ground arith in
    let at : (g == g) ≡ true = ground arith in
    rw (slot, bound, found, wants, self, deny) (refl, refl, rw at refl, rw self refl)
