-- ===== src/Files/Slots.antt =====
-- Which slot `GetFreeGlobalFd` and which descriptor `ProcessInstallFd` takes.
use mmzzos.Base.{
  ℕ, zero, suc, ◌+◌, ◌-◌, ◌≤◌, ◌<◌, ◌≡◌, refl, subst, sym, ap, ◌∙◌, Option, none, some, true, false,
  ◌==◌, arith, Option-cases, ℕ_discrete, inl, inr,
}
use mathlib.Core.Option.{none-ne-some}
use mmzzos.Files.{
  File, free_slot, get_free_global_fd, free_fd, is_closed, process_install_fd, install_at,
  max_open_files, max_process_files, std_fd_cnt,
}

-- `some i` is the first place from `l` up to `h` where `Free` holds; `none`: there is no such place.
abbrev pub FirstFree : (ℕ → Type 0) → ℕ → ℕ → Option ℕ → Type 0
FirstFree Free l h none = (k : ℕ) → l ≤ k → k < h → ¬ Free k
FirstFree Free l h (some i) = (l ≤ i) × (i < h) × Free i × ((k : ℕ) → l ≤ k → k < i → ¬ Free k)

-- What is known beyond a place and at the place is known from it on.
at_or_beyond : (Free : ℕ → Type 0) (l k : ℕ) → ¬ Free l → (l + 1 ≤ k → ¬ Free k) → l ≤ k → ¬ Free k
at_or_beyond Free l k used later le = elim (ℕ_discrete l k) [
  | yes e ↦ subst (λ i. ¬ Free i) e used
  | no ne ↦ later (omega arith)
]

-- The place before is not free, so the search may as well begin with it.
FirstFree-step :
    (Free : ℕ → Type 0) (l h : ℕ) (o : Option ℕ)
    → ¬ Free l
    → FirstFree Free (l + 1) h o
    → FirstFree Free l h o
FirstFree-step Free l h none used f = λ k a b. at_or_beyond Free l k used (λ a'. f k a' b) a
FirstFree-step Free l h (some i) used f =
    (omega (arith, f.0), f.1, f.2, λ k a b. at_or_beyond Free l k used (λ a'. f.3 k a' b) a)

abbrev pub IsUnused : (ℕ → File) → ℕ → Type 0
IsUnused files g = (files g).inode ≡ 0

abbrev pub IsClosed : (ℕ → Option ℕ) → ℕ → Type 0
IsClosed fds i = fds i ≡ none

free_slot_lem :
    (n idx : ℕ) (files : ℕ → File)
    → FirstFree (IsUnused files) idx (idx + n) (free_slot n idx files)
unfolding free_slot
free_slot_lem zero idx files = λ k a b. absurd (omega arith)
free_slot_lem (suc n) idx files = elim (ℕ_discrete (files idx).inode 0) [
  | yes e ↦
      let here : ((files idx).inode == 0) ≡ true = ground arith in
      rw here (omega arith, omega arith, e, λ k a b. absurd (omega arith))
  | no ne ↦
      let used : ((files idx).inode == 0) ≡ false = ground arith in
      rw (used, moved)
        (FirstFree-step (IsUnused files) idx (idx + 1 + n) (free_slot n (idx + 1) files) ne
          (free_slot_lem n (idx + 1) files))
]
  where
    moved : idx + suc n ≡ idx + 1 + n
    moved = omega arith

free_fd_lem :
    (n idx : ℕ) (fds : ℕ → Option ℕ) → FirstFree (IsClosed fds) idx (idx + n) (free_fd n idx fds)
unfolding free_fd
free_fd_lem zero idx fds = λ k a b. absurd (omega arith)
free_fd_lem (suc n) idx fds = elim (Option-cases (fds idx)) [
  | inl e ↦ rw (ap is_closed e) (omega arith, omega arith, e, λ k a b. absurd (omega arith))
  | inr (g, e) ↦
      rw (ap is_closed e, moved)
        (FirstFree-step (IsClosed fds) idx (idx + 1 + n) (free_fd n (idx + 1) fds)
          (λ closed. none-ne-some g (sym closed ∙ e)) (free_fd_lem n (idx + 1) fds))
]
  where
    moved : idx + suc n ≡ idx + 1 + n
    moved = omega arith

-- `GetFreeGlobalFd` returns the first slot from 2 up to 63 that has no inode, or -1 where each has one.
pub get_free_global_fd_lem :
    (files : ℕ → File)
    → FirstFree (IsUnused files) std_fd_cnt max_open_files (get_free_global_fd files)
unfolding get_free_global_fd
get_free_global_fd_lem files = free_slot_lem (max_open_files - std_fd_cnt) std_fd_cnt files

-- `ProcessInstallFd` returns the first descriptor from 2 up to 7 that is closed and opens it on the slot, or it
-- returns -1 and changes nothing.
pub process_install_fd_lem :
    (g : ℕ) (fds : ℕ → Option ℕ)
    → FirstFree (IsClosed fds) std_fd_cnt max_process_files (process_install_fd g fds).0
      × ((process_install_fd g fds).1 ≡ install_at g (process_install_fd g fds).0 fds)
unfolding process_install_fd
process_install_fd_lem g fds = (free_fd_lem (max_process_files - std_fd_cnt) std_fd_cnt fds, refl)
