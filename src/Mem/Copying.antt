-- ===== src/Mem/Copying.antt =====
-- memcpy of lib/string.c copies its block, with either of its two ways to copy.
use mmzzos.Base.{
  ℕ, zero, suc, ◌+◌, ◌-◌, ◌*◌, ◌/◌, ◌%◌, ◌^◌, ◌≤◌, ◌<◌, ◌≡◌, ◌⊎◌, refl, ap, ◌∙◌, ◌&&◌, leb, ltb,
  arith, Bool-cases, inl, inr, subst,
}
use mmzzos.Mem.{Memory, forward, store_byte, store_word, load_word, Copy}
use mmzzos.Mem.Setting.{forward_lem}

abbrev pub IsBytes : Memory → Type 0
IsBytes m = (x : ℕ) → m x < 256

-- The two blocks do not overlap.
abbrev pub Apart : ℕ → ℕ → ℕ → Type 0
Apart dst src size = (dst + size ≤ src) ⊎ (src + size ≤ dst)

-- `m'` is `m` with `size` bytes copied.
pub record Copied (dst src size : ℕ) (m m' : Memory) : Type 0 where
  pub copied : (i : ℕ) → i < size → m' (dst + i) ≡ m (src + i)
  pub kept : (x : ℕ) → (x < dst) ⊎ (dst + size ≤ x) → m' x ≡ m x

pub Copied-none : (dst src : ℕ) (m : Memory) → Copied dst src 0 m m
Copied-none dst src m = record { copied = λ i h. absurd (omega arith); kept = λ x h. refl }

pub Copied-IsBytes :
    (dst src size : ℕ) (m m' : Memory) → IsBytes m → Copied dst src size m m' → IsBytes m'
Copied-IsBytes dst src size m m' small c x =
    let i = x - dst in
    elim (Bool-cases (leb dst x && ltb x (dst + size))) [
      | inl e ↦
          let there : x ≡ dst + i = ground arith in
          let value : m' x ≡ m (src + i) = ap m' there ∙ c.copied i (ground arith) in
          omega (arith, value, small (src + i))
      | inr e ↦ let value : m' x ≡ m x = c.kept x (ground arith) in omega (arith, value, small x)
    ]

pub Copied-join :
    (dst src a b : ℕ) (m m1 m2 : Memory)
    → Apart dst src (a + b)
    → Copied dst src a m m1
    → Copied (dst + a) (src + a) b m1 m2
    → Copied dst src (a + b) m m2
Copied-join dst src a b m m1 m2 apart f g = record { copied = copied; kept = kept }
  where
    copied : (i : ℕ) → i < a + b → m2 (dst + i) ≡ m (src + i)
    copied i h = elim (Bool-cases (ltb i a)) [
      | inl e ↦ g.kept (dst + i) (inl (ground arith)) ∙ f.copied i (ground arith)
      | inr e ↦
          let j = i - a in
          let there : dst + i ≡ (dst + a) + j = ground arith in
          let here : (src + a) + j ≡ src + i = ground arith in
          let outside : (src + i < dst) ⊎ (dst + a ≤ src + i) = ground arith in
          ap m2 there ∙ g.copied j (ground arith) ∙ ap m1 here ∙ f.kept (src + i) outside
    ]

    kept : (x : ℕ) → (x < dst) ⊎ (dst + (a + b) ≤ x) → m2 x ≡ m x
    kept x h = g.kept x (ground arith) ∙ f.kept x (ground arith)

pub Copied-byte :
    (m : Memory) (dst src : ℕ) → IsBytes m → Copied dst src 1 m (store_byte m dst (m src))
unfolding store_byte
Copied-byte m dst src small = record { copied = copied; kept = λ x h. ground arith }
  where
    copied : (i : ℕ) → i < 1 → store_byte m dst (m src) (dst + i) ≡ m (src + i)
    copied i h = let first : i ≡ 0 = omega arith in rw first (ground (arith, small src))

abbrev four : Memory → ℕ → ℕ → Memory
four m at w =
    let m1 = store_byte m at w in
    let m2 = store_byte m1 (at + 1) (w / 2 ^ 8) in
    let m3 = store_byte m2 (at + 2) (w / 2 ^ 16) in store_byte m3 (at + 3) (w / 2 ^ 24)

four-Copied :
    (m : Memory) (dst src w : ℕ)
    → IsBytes m
    → w ≡ m src + 2 ^ 8 * m (src + 1) + 2 ^ 16 * m (src + 2) + 2 ^ 24 * m (src + 3)
    → Copied dst src 4 m (four m dst w)
unfolding store_byte
four-Copied m dst src w small e = record { copied = copied; kept = λ x h. ground arith }
  where
    b0 : w % 256 ≡ m src
    b0 = omega (arith, small src, small (src + 1), small (src + 2), small (src + 3))

    b1 : w / 2 ^ 8 % 256 ≡ m (src + 1)
    b1 = omega (arith, small src, small (src + 1), small (src + 2), small (src + 3))

    b2 : w / 2 ^ 16 % 256 ≡ m (src + 2)
    b2 = omega (arith, small src, small (src + 1), small (src + 2), small (src + 3))

    b3 : w / 2 ^ 24 % 256 ≡ m (src + 3)
    b3 = omega (arith, small src, small (src + 1), small (src + 2), small (src + 3))

    copied : (i : ℕ) → i < 4 → four m dst w (dst + i) ≡ m (src + i)
    copied zero h = ground (arith, b0)
    copied (suc zero) h = ground (arith, b1)
    copied (suc (suc zero)) h = ground (arith, b2)
    copied (suc (suc (suc zero))) h = ground (arith, b3)
    copied (suc (suc (suc (suc i)))) h = absurd (omega arith)

pub Copied-word :
    (m : Memory) (dst src : ℕ)
    → IsBytes m
    → dst + 3 < 2 ^ 32
    → src + 3 < 2 ^ 32
    → Copied dst src 4 m (store_word m dst (load_word m src))
unfolding store_word load_word
Copied-word m dst src small fits fits' =
    rw
      (
        forward_lem 1 dst (omega arith),
        forward_lem 2 dst (omega arith),
        forward_lem 3 dst (omega arith),
        forward_lem 1 src (omega arith),
        forward_lem 2 src (omega arith),
        forward_lem 3 src (omega arith),
      )
      (four-Copied m dst src _ small refl)

-- How a loop ends that copied from `src` to `dst`: both pointers went on by as many bytes as the size
-- went down by.
pub record Part (size dst src : ℕ) (m : Memory) (out : Copy) : Type 0 where
  pub count : ℕ
  pub total : count + out.size ≡ size
  pub to : out.dst ≡ dst + count
  pub from : out.src ≡ src + count
  pub copied : Copied dst src count m out.memory

pub Part-none :
    (size dst src : ℕ) (m : Memory)
    → Part size dst src m (record { memory = m; dst = dst; src = src; size = size })
Part-none size dst src m = record {
  count = 0;
  total = omega arith;
  to = omega arith;
  from = omega arith;
  copied = Copied-none dst src m;
}

pub Part-join :
    (size a n dst src : ℕ) (m m1 : Memory) (out : Copy)
    → a + n ≡ size
    → Apart dst src size
    → Copied dst src a m m1
    → Part n (dst + a) (src + a) m1 out
    → Part size dst src m out
Part-join size a n dst src m m1 out e apart c p = record {
  count = a + p.count;
  total = omega (arith, p.total);
  to = omega (arith, p.to);
  from = omega (arith, p.from);
  copied = Copied-join dst src a p.count m m1 out.memory (ground (arith, p.total)) c p.copied;
}

-- One byte first.
pub Part-byte :
    (n dst src : ℕ) (m : Memory) (out : Copy)
    → IsBytes m
    → dst + suc n < 2 ^ 32
    → src + suc n < 2 ^ 32
    → Apart dst src (suc n)
    → Part n (forward 1 dst) (forward 1 src) (store_byte m dst (m src)) out
    → Part (suc n) dst src m out
Part-byte n dst src m out small fits fits' apart p =
    Part-join (suc n) 1 n dst src m (store_byte m dst (m src)) out (omega arith) apart
      (Copied-byte m dst src small)
      (subst (λ d. Part n d (src + 1) (store_byte m dst (m src)) out)
        (forward_lem 1 dst (omega arith))
        (subst (λ s. Part n (forward 1 dst) s (store_byte m dst (m src)) out)
          (forward_lem 1 src (omega arith)) p))
