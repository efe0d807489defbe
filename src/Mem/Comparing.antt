-- ===== src/Mem/Comparing.antt =====
-- memcmp of lib/string.c decides the order of two blocks by their first difference.
use mmzzos.Base.{ℕ, zero, suc, ◌+◌, ◌^◌, ◌<◌, ◌≡◌, sym, ap, ◌∙◌, ltb, arith, Bool-cases, inl, inr}
use mmzzos.Mem.{Memory, Sign, less, equal, greater, memcmp}
use mmzzos.Mem.Setting.{forward_lem}

-- The blocks agree on their first `n` bytes.
abbrev pub Agree : Memory → ℕ → ℕ → ℕ → Type 0
Agree m s0 s1 n = (i : ℕ) → i < n → m (s0 + i) ≡ m (s1 + i)

-- What each result says of the blocks.
pub data Verdict (m : Memory) (s0 s1 n : ℕ) : Sign → Type 0 where
  same : Agree m s0 s1 n → Verdict m s0 s1 n equal
  below : (i : ℕ) → i < n → Agree m s0 s1 i → m (s0 + i) < m (s1 + i) → Verdict m s0 s1 n less
  above : (i : ℕ) → i < n → Agree m s0 s1 i → m (s1 + i) < m (s0 + i) → Verdict m s0 s1 n greater

module _ (m : Memory) (s0 s1 : ℕ) where
  shift : (s i : ℕ) → m ((s + 1) + i) ≡ m (s + suc i)
  shift s i = ap m (omega arith)

  Agree-suc : (n : ℕ) → m s0 ≡ m s1 → Agree m (s0 + 1) (s1 + 1) n → Agree m s0 s1 (suc n)
  Agree-suc n e all zero h = ap m (omega arith) ∙ e ∙ ap m (omega arith)
  Agree-suc n e all (suc i) h = sym (shift s0 i) ∙ all i (omega arith) ∙ shift s1 i

  Verdict-suc :
      (n : ℕ) (r : Sign) → m s0 ≡ m s1 → Verdict m (s0 + 1) (s1 + 1) n r → Verdict m s0 s1 (suc n) r
  Verdict-suc n _ e (same all) = same (Agree-suc n e all)
  Verdict-suc n _ e (below i h all lt) =
      below (suc i) (omega arith) (Agree-suc i e all) (omega (arith, shift s0 i, shift s1 i))
  Verdict-suc n _ e (above i h all lt) =
      above (suc i) (omega arith) (Agree-suc i e all) (omega (arith, shift s0 i, shift s1 i))

  Agree-zero : Agree m s0 s1 0
  Agree-zero i h = absurd (omega arith)

  start : (s : ℕ) → m (s + 0) ≡ m s
  start s = ap m (omega arith)

-- On blocks that end before the last address `memcmp` is 0 where all bytes agree, and otherwise
-- -1 or 1 as the first byte that differs is smaller or larger in the first block.
pub memcmp_lem :
    (n : ℕ) (m : Memory) (s0 s1 : ℕ)
    → s0 + n < 2 ^ 32
    → s1 + n < 2 ^ 32
    → Verdict m s0 s1 n (memcmp n m s0 s1)
unfolding memcmp
memcmp_lem zero m s0 s1 fits fits' = same (Agree-zero m s0 s1)
memcmp_lem (suc n) m s0 s1 fits fits' = elim (Bool-cases (ltb (m s0) (m s1))) [
  | inl lt ↦ rw lt (
      below 0 (omega arith) (Agree-zero m s0 s1)
        (ground (arith, start m s0 s1 s0, start m s0 s1 s1)))
  | inr ge ↦ elim (Bool-cases (ltb (m s1) (m s0))) [
    | inl gt ↦
        rw (ge, gt)
          (above 0 (omega arith) (Agree-zero m s0 s1)
            (ground (arith, start m s0 s1 s0, start m s0 s1 s1)))
    | inr le ↦
        rw (ge, le, forward_lem 1 s0 (omega arith), forward_lem 1 s1 (omega arith))
          (Verdict-suc m s0 s1 n _ (ground arith)
            (memcmp_lem n m (s0 + 1) (s1 + 1) (omega arith) (omega arith)))
  ]
]
