-- ===== src/Processes/Tables.antt =====
-- The parents after InitAdopt, and the search for a process.
use mmzzos.Base.{
  ℕ, ◌≡◌, refl, ap, ◌∙◌, ◌&&◌, List, [], ◌∷◌, ◌==◌, if◌then◌else◌, arith, Bool-cases, inl, inr,
  ℕ_discrete,
}
use mmzzos.Sched.{Thread, has}
use mmzzos.Processes.{put_field, init_adopt}

-- The parent of every listed child of `pid` is 1, and no other parent changes.
pub init_adopt_lem :
    (pid : ℕ) (xs : List Thread) (f : Thread → ℕ) (t : Thread)
    → init_adopt pid xs f t ≡ (if has t xs && f t == pid then 1 else f t)
unfolding init_adopt put_field
init_adopt_lem pid [] f t = refl
init_adopt_lem pid (x ∷ xs) f t = elim (ℕ_discrete t x) [
  | yes same ↦ elim (Bool-cases (f x == pid)) [
    | inl e ↦ rw e (init_adopt_lem pid xs (put_field f x 1) t ∙ ground (arith, ap f same))
    | inr e ↦ rw e (init_adopt_lem pid xs f t ∙ ground (arith, ap f same))
  ]
  | no ne ↦ elim (Bool-cases (f x == pid)) [
    | inl e ↦ rw e (init_adopt_lem pid xs (put_field f x 1) t ∙ ground (arith, ne))
    | inr e ↦ rw e (init_adopt_lem pid xs f t ∙ ground (arith, ne))
  ]
]
