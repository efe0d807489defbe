-- ===== src/Files/Pipes.antt =====
-- `syscall_pipe` and `pipe_close`: a pipe takes one slot and two descriptors, and gives them back.
use mmzzos.Base.{
  ℕ, ◌^◌, ◌≤◌, ◌<◌, ◌≡◌, ◌≢◌, refl, subst, sym, ap, ap₂, ◌∙◌, Option, none, some, true, false, ◌||◌,
  not, ◌==◌, arith, Option-cases, Bool-cases, inl, inr, ok, Ensures, ltb,
}
use mathlib.Core.Option.{none-ne-some}
use mmzzos.Base.Stores.{update, update_self, update_ne, update_elim}
use mmzzos.Files.{
  File, Descriptors, with_file, get_free_global_fd, process_install_fd, install_at, std_fd_cnt,
  max_open_files, max_process_files, pipe_flag,
}
use mmzzos.Files.Calls.{pipe_close, release_pipe, drop_fd, pipe_installed, pipe_in, syscall_pipe}
use mmzzos.Files.Slots.{
  FirstFree, IsUnused, IsClosed, get_free_global_fd_lem, process_install_fd_lem,
}
use mmzzos.Files.Opening.{Restored}

-- Taking back the descriptor that was installed.
drop_fd-install_at :
    (g : ℕ) (o : Option ℕ) (fds fds' : ℕ → Option ℕ)
    → FirstFree (IsClosed fds) std_fd_cnt max_process_files o
    → fds' ≡ install_at g o fds
    → (i : ℕ) → drop_fd o fds' i ≡ fds i
drop_fd-install_at g none fds fds' f e i = ap (λ h. h i) e
drop_fd-install_at g (some x) fds fds' f e i =
    update_elim (λ v. v ≡ fds i) fds' x i none (λ at. sym f.2 ∙ ap fds (sym at))
      (λ ne. ap (λ h. h i) e ∙ update_ne fds x i _ ne)

-- The slots look the same when a slot without an inode is written and has none afterwards.
same_slots :
    (files : ℕ → File) (g : ℕ) (file : File)
    → IsUnused files g
    → file.inode ≡ 0
    → (i : ℕ) → (update files g file i).inode ≡ (files i).inode
same_slots files g file unused off i =
    update_elim (λ f. f.inode ≡ (files i).inode) files g i file
      (λ at. off ∙ sym unused ∙ ap (λ j. (files j).inode) (sym at)) (λ ne. refl)

abbrev made : ℕ → File
made page = record { fd_pos = 2; flag = pipe_flag; inode = page }

module _ (page : ℕ) (t : Descriptors) (g : ℕ) (slot : IsUnused t.files g) where
  pipe_installed-none :
      (a b : Option ℕ) (fds1 fds2 : ℕ → Option ℕ)
      → FirstFree (IsClosed t.fds) std_fd_cnt max_process_files a
      → fds1 ≡ install_at g a t.fds
      → FirstFree (IsClosed fds1) std_fd_cnt max_process_files b
      → fds2 ≡ install_at g b fds1
      → (pipe_installed g (made page) a b (record t { fds = fds2 })).0 ≡ none
      → Restored t (pipe_installed g (made page) a b (record t { fds = fds2 })).1
  unfolding pipe_installed
  pipe_installed-none (some x) (some y) fds1 fds2 fa ea fb eb failed =
      absurd (none-ne-some (x, y) (sym failed))
  pipe_installed-none none b fds1 fds2 fa ea fb eb failed = record {
    fds = λ i. drop_fd-install_at g b fds1 fds2 fb eb i ∙ ap (λ h. h i) ea;
    open_inodes = refl;
    slots = same_slots t.files g _ slot refl;
  }
  pipe_installed-none (some x) none fds1 fds2 fa ea fb eb failed = record {
    fds = drop_fd-install_at g (some x) t.fds fds2 fa (eb ∙ ea);
    open_inodes = refl;
    slots = same_slots t.files g _ slot refl;
  }

  pipe_in-none : (pipe_in page t (some g)).0 ≡ none → Restored t (pipe_in page t (some g)).1
  unfolding pipe_in
  pipe_in-none = elim (Bool-cases (page == 0)) [
    | inl null ↦ rw null (λ failed. record {
      fds = λ i. refl;
      open_inodes = refl;
      slots = same_slots t.files g _ slot refl;
    })
    | inr there ↦
        let first = process_install_fd_lem g t.fds in
        let second = process_install_fd_lem g (process_install_fd g t.fds).1 in
        rw there (pipe_installed-none _ _ _ _ first.0 first.1 second.0 second.1)
  ]

-- Where `syscall_pipe` fails, for want of a slot, of a page or of a descriptor, each descriptor, the list of the
-- open inodes and the inode of each slot are as before.
pub syscall_pipe-Restored :
    (page : ℕ) (t : Descriptors)
    → (syscall_pipe page t).0 ≡ none
    → Restored t (syscall_pipe page t).1
unfolding syscall_pipe pipe_in
syscall_pipe-Restored page t = elim (Option-cases (get_free_global_fd t.files)) [
  | inl none_free ↦
      rw none_free (λ failed. record { fds = λ i. refl; open_inodes = refl; slots = λ i. refl })
  | inr (g, e) ↦
      let slot =
        subst (FirstFree (IsUnused t.files) std_fd_cnt max_open_files) e
          (get_free_global_fd_lem t.files) in
      rw e (pipe_in-none page t g slot.2)
]

-- A slot for a pipe, and two descriptors.
pub record HasPipeRoom (t : Descriptors) (g a b : ℕ) : Type 0 where
  pub slot : get_free_global_fd t.files ≡ some g
  pub reader : (process_install_fd g t.fds).0 ≡ some a
  pub writer : (process_install_fd g (process_install_fd g t.fds).1).0 ≡ some b

-- `t'` is `t` with a pipe on the slot `g` and the descriptors `a` and `b`.
record HasPipe (page g a b : ℕ) (t t' : Descriptors) : Type 0 where
  files : t'.files ≡ update t.files g (made page)
  fds : t'.fds ≡ update (update t.fds a (some g)) b (some g)
  open_inodes : t'.open_inodes ≡ t.open_inodes
  unused : IsUnused t.files g
  reader : IsClosed t.fds a
  writer : IsClosed t.fds b
  apart : a ≢ b
  low : (std_fd_cnt ≤ a) × (a < max_process_files)
  high : (std_fd_cnt ≤ b) × (b < max_process_files)

pipe_close-open :
    (fd g : ℕ) (t : Descriptors)
    → (std_fd_cnt ≤ fd) × (fd < max_process_files)
    → t.fds fd ≡ some g
    → pipe_close fd t ≡ ok (release_pipe (record t { fds = update t.fds fd none }) (some g))
unfolding pipe_close release_pipe
pipe_close-open fd g t (lo, hi) on =
    let range : (ltb fd std_fd_cnt || (ltb max_process_files fd || not (ltb fd (2 ^ 31)))) ≡ false =
      ground arith in
    let here : (fd == max_process_files) ≡ false = ground arith in rw (range, here, on) refl

release_pipe-first :
    (page g : ℕ) (t : Descriptors)
    → t.files g ≡ made page
    → release_pipe t (some g) ≡ (true, false, with_file t g (record (made page) { fd_pos = 1 }))
unfolding release_pipe
release_pipe-first page g t e = rw e refl

release_pipe-last :
    (page g : ℕ) (t : Descriptors)
    → t.files g ≡ (let f : File = record (made page) { fd_pos = 1 } in f)
    → release_pipe t (some g)
      ≡ (true, true, with_file t g (record (made page) { fd_pos = 0; inode = 0 }))
unfolding release_pipe
release_pipe-last page g t e = rw e refl

close_both :
    (page g a b : ℕ) (t t' : Descriptors)
    → HasPipe page g a b t t'
    → Ensures
        (λ q.
          (q.0 ≡ true)
          × (q.1 ≡ false)
          × Ensures (λ r. (r.0 ≡ true) × (r.1 ≡ true) × Restored t r.2) (pipe_close b q.2))
        (pipe_close a t')
close_both page g a b t t' p =
    rw (pipe_close-open a g t' p.low on_a, release_pipe-first page g t1 slot)
      (
        refl,
        refl,
        rw
            (
              pipe_close-open b g t2 p.high on_b,
              release_pipe-last page g t3 (update_self t'.files g once),
            )
            (
              refl,
              refl,
              record { fds = closed; open_inodes = p.open_inodes; slots = λ i. slots i },
            ),
      )
  where
    on_b' : t'.fds b ≡ some g
    on_b' = ap (λ f. f b) p.fds ∙ update_self (update t.fds a (some g)) b (some g)

    on_a : t'.fds a ≡ some g
    on_a =
        ap (λ f. f a) p.fds
        ∙ update_ne (update t.fds a (some g)) b a (some g) p.apart
        ∙ update_self t.fds a (some g)

    slot : t'.files g ≡ made page
    slot = ap (λ f. f g) p.files ∙ update_self t.files g (made page)

    t1 : Descriptors
    t1 = record t' { fds = update t'.fds a none }

    t2 : Descriptors
    t2 = record t' {
      files = update t'.files g (record (made page) { fd_pos = 1 });
      fds = update t'.fds a none;
    }

    t3 : Descriptors
    t3 = record t2 { fds = update t2.fds b none }

    on_b : t2.fds b ≡ some g
    on_b = update_ne t'.fds a b none (λ e. p.apart (sym e)) ∙ on_b'

    closed : (i : ℕ) → update (update t'.fds a none) b none i ≡ t.fds i
    closed i =
        update_elim (λ v. v ≡ t.fds i) (update t'.fds a none) b i none
          (λ e. sym p.writer ∙ ap t.fds (sym e))
          (λ nb.
            update_elim (λ v. v ≡ t.fds i) t'.fds a i none (λ e. sym p.reader ∙ ap t.fds (sym e))
              (λ na.
                ap (λ f. f i) p.fds
                ∙ update_ne (update t.fds a (some g)) b i (some g) nb
                ∙ update_ne t.fds a i (some g) na))

    once : File
    once = record (made page) { fd_pos = 1 }

    none_left : File
    none_left = record (made page) { fd_pos = 0; inode = 0 }

    slots : (i : ℕ) → (update (update t'.files g once) g none_left i).inode ≡ (t.files i).inode
    slots i =
        update_elim (λ f. f.inode ≡ (t.files i).inode) (update t'.files g once) g i none_left
          (λ e. sym p.unused ∙ ap (λ j. (t.files j).inode) (sym e))
          (λ ne.
            ap (λ f. f.inode) (update_ne t'.files g i once ne)
            ∙ ap (λ f. (f i).inode) p.files
            ∙ ap (λ f. f.inode) (update_ne t.files g i (made page) ne))

syscall_pipe-HasPipe :
    (page g a b : ℕ) (t : Descriptors)
    → page ≢ 0
    → HasPipeRoom t g a b
    → ((syscall_pipe page t).0 ≡ some (a, b)) × HasPipe page g a b t (syscall_pipe page t).1
unfolding syscall_pipe pipe_in pipe_installed
syscall_pipe-HasPipe page g a b t np room =
    let there : (page == 0) ≡ false = ground arith in
    rw (room.slot, there, room.reader, room.writer)
      (
        refl,
        record {
          files = refl;
          fds =
              (process_install_fd_lem g (process_install_fd g t.fds).1).1
              ∙ ap₂ (install_at g) room.writer
                  ((process_install_fd_lem g t.fds).1 ∙ ap (λ o. install_at g o t.fds) room.reader);
          open_inodes = refl;
          unused = slot.2;
          reader = low.2;
          writer =
              sym (update_ne t.fds a b (some g) (λ e. apart (sym e)))
              ∙ sym (ap (λ f. f b) fds1_at)
              ∙ high.2;
          apart = apart;
          low = (low.0, low.1);
          high = (high.0, high.1);
        },
      )
  where
    slot : FirstFree (IsUnused t.files) std_fd_cnt max_open_files (some g)
    slot =
        subst (FirstFree (IsUnused t.files) std_fd_cnt max_open_files) room.slot
          (get_free_global_fd_lem t.files)

    low : FirstFree (IsClosed t.fds) std_fd_cnt max_process_files (some a)
    low =
        subst (FirstFree (IsClosed t.fds) std_fd_cnt max_process_files) room.reader
          (process_install_fd_lem g t.fds).0

    fds1 : ℕ → Option ℕ
    fds1 = (process_install_fd g t.fds).1

    fds1_at : fds1 ≡ update t.fds a (some g)
    fds1_at = (process_install_fd_lem g t.fds).1 ∙ ap (λ o. install_at g o t.fds) room.reader

    high : FirstFree (IsClosed fds1) std_fd_cnt max_process_files (some b)
    high =
        subst (FirstFree (IsClosed fds1) std_fd_cnt max_process_files) room.writer
          (process_install_fd_lem g (process_install_fd g t.fds).1).0

    apart : a ≢ b
    apart e = none-ne-some g (
        sym high.2
        ∙ ap (λ f. f b) fds1_at
        ∙ ap (update t.fds a (some g)) (sym e)
        ∙ update_self t.fds a (some g))

-- With a page, an unused slot and two closed descriptors, `syscall_pipe` opens the two descriptors, and
-- `pipe_close` succeeds on both: the first call keeps the page, the second frees it, and then each descriptor, the
-- list of the open inodes and the inode of each slot are as before.
pub syscall_pipe-pipe_close :
    (page g a b : ℕ) (t : Descriptors)
    → page ≢ 0
    → HasPipeRoom t g a b
    → ((syscall_pipe page t).0 ≡ some (a, b))
      × Ensures
          (λ q.
            (q.0 ≡ true)
            × (q.1 ≡ false)
            × Ensures (λ r. (r.0 ≡ true) × (r.1 ≡ true) × Restored t r.2) (pipe_close b q.2))
          (pipe_close a (syscall_pipe page t).1)
syscall_pipe-pipe_close page g a b t np room =
    let (opened, p) = syscall_pipe-HasPipe page g a b t np room in
    (opened, close_both page g a b t _ p)
