-- ===== src/Pages/Frames.antt =====
-- What `pfree` of kernel/memory.c does to the frames in use.
use mmzzos.Base.{
  ℕ, ◌*◌, ◌<◌, ◌≡◌, refl, sym, ap, ◌∙◌, Bool, true, false, ltb, if◌then◌else◌, ok, returned, arith,
  subst, Bool-cases, inl, inr, ==_refl,
}
use mmzzos.Bitmap.{IsValid, bit_at}
use mmzzos.Bitmap.Bits.{Wrote, reset_bit_lem}
use mmzzos.Pages.{Pool, Space, page_index, release}
use mmzzos.Pages.Runs.{pfree}

-- The pool that `pfree` takes for an address.
abbrev pub pool_for : Space → ℕ → Pool
pool_for s phy = if ltb phy s.user_pool.addr_start then s.kernel_pool else s.user_pool

abbrev pub InPool : Space → ℕ → Type 0
InPool s phy = page_index (pool_for s phy) phy < 8 * (pool_for s phy).bp.len

abbrev pub in_use : Space → ℕ → Bool
in_use s phy = bit_at (pool_for s phy).bp (page_index (pool_for s phy) phy)

-- The same page tables, no frame more in use, and valid pools that are as large as before.
pub record Eased (s s' : Space) : Type 0 where
  pub kernel_map : IsValid s'.kernel_pool.bp
  pub user_map : IsValid s'.user_pool.bp
  pub pde : s'.pde ≡ s.pde
  pub pte : s'.pte ≡ s.pte
  pub room : (q : ℕ) → InPool s q → InPool s' q
  pub kept : (q : ℕ) → in_use s q ≡ false → in_use s' q ≡ false

pub Eased-trans : (s s' s'' : Space) → Eased s s' → Eased s' s'' → Eased s s''
Eased-trans s s' s'' a b = record {
  kernel_map = b.kernel_map;
  user_map = b.user_map;
  pde = b.pde ∙ a.pde;
  pte = b.pte ∙ a.pte;
  room = λ q h. b.room q (a.room q h);
  kept = λ q h. b.kept q (a.kept q h);
}

-- A pool of which a page was released.
record Step (p p' : Pool) : Type 0 where
  start : p'.addr_start ≡ p.addr_start
  len : p'.bp.len ≡ p.bp.len
  kept : (i : ℕ) → bit_at p.bp i ≡ false → bit_at p'.bp i ≡ false

abbrev InsidePool : Pool → ℕ → Type 0
InsidePool p q = page_index p q < 8 * p.bp.len

abbrev bit_of : Pool → ℕ → Bool
bit_of p q = bit_at p.bp (page_index p q)

Step-refl : (p : Pool) → Step p p
Step-refl p = record { start = refl; len = refl; kept = λ i h. h }

page_index-Step : (p p' : Pool) (q : ℕ) → Step p p' → page_index p' q ≡ page_index p q
page_index-Step p p' q st = rw st.start refl

InsidePool-Step : (p p' : Pool) (q : ℕ) → Step p p' → InsidePool p q → InsidePool p' q
InsidePool-Step p p' q st h = omega (arith, page_index-Step p p' q st, st.len)

bit_of-Step : (p p' : Pool) (q : ℕ) → Step p p' → bit_of p q ≡ false → bit_of p' q ≡ false
bit_of-Step p p' q st h = ap (bit_at p'.bp) (page_index-Step p p' q st) ∙ st.kept (page_index p q) h

release_lem :
    (p : Pool) (phy : ℕ)
    → IsValid p.bp
    → InsidePool p phy
    → (p' : Pool) × (release p phy ≡ ok p') × Step p p' × IsValid p'.bp × (bit_of p' phy ≡ false)
unfolding release
release_lem p phy v h =
    let i = page_index p phy in
    let (bp, done, w) = returned (Wrote p.bp i false) _ (reset_bit_lem p.bp i v h) in
    (
      record p { bp = bp },
      rw done refl,
      record { start = refl; len = w.len; kept = λ k g. ground (arith, w.bit k, g) },
      w.valid,
      w.bit i ∙ rw (==_refl i) refl,
    )

-- The pools of a choice that was made by `b`.
module _ (k k' u u' : Pool) (sk : Step k k') (su : Step u u') where
  room_as :
      (b : Bool) (q : ℕ) → InsidePool (if b then k else u) q → InsidePool (if b then k' else u') q
  room_as true q h = InsidePool-Step k k' q sk h
  room_as false q h = InsidePool-Step u u' q su h

  kept_as :
      (b : Bool) (q : ℕ)
      → bit_of (if b then k else u) q ≡ false
      → bit_of (if b then k' else u') q ≡ false
  kept_as true q h = bit_of-Step k k' q sk h
  kept_as false q h = bit_of-Step u u' q su h

pub pfree_lem :
    (phy : ℕ) (s : Space)
    → IsValid s.kernel_pool.bp
    → IsValid s.user_pool.bp
    → InPool s phy
    → (s' : Space) × (pfree phy s ≡ ok s') × Eased s s' × (in_use s' phy ≡ false)
unfolding pfree
pfree_lem phy s vk vu h = elim (Bool-cases (ltb phy s.user_pool.addr_start)) [
  | inl e ↦
      let (k, done, st, v, gone) =
        release_lem s.kernel_pool phy vk
          (subst (λ b. InsidePool (if b then s.kernel_pool else s.user_pool) phy) e h) in
      (
        record s { kernel_pool = k },
        rw (e, done) refl,
        record {
          kernel_map = v;
          user_map = vu;
          pde = refl;
          pte = refl;
          room = λ q.
              room_as s.kernel_pool k s.user_pool s.user_pool st (Step-refl s.user_pool)
                (ltb q s.user_pool.addr_start) q;
          kept = λ q.
              kept_as s.kernel_pool k s.user_pool s.user_pool st (Step-refl s.user_pool)
                (ltb q s.user_pool.addr_start) q;
        },
        subst (λ b. bit_of (if b then k else s.user_pool) phy ≡ false) (sym e) gone,
      )
  | inr e ↦
      let (u, done, st, v, gone) =
        release_lem s.user_pool phy vu
          (subst (λ b. InsidePool (if b then s.kernel_pool else s.user_pool) phy) e h) in
      let same : (q : ℕ) → ltb q u.addr_start ≡ ltb q s.user_pool.addr_start =
        λ q. ap (ltb q) st.start in
      (
        record s { user_pool = u },
        rw (e, done) refl,
        record {
          kernel_map = vk;
          user_map = v;
          pde = refl;
          pte = refl;
          room = λ q g.
              subst (λ b. InsidePool (if b then s.kernel_pool else u) q) (sym (same q))
                (room_as s.kernel_pool s.kernel_pool s.user_pool u (Step-refl s.kernel_pool) st
                  (ltb q s.user_pool.addr_start) q g);
          kept = λ q g.
              subst (λ b. bit_of (if b then s.kernel_pool else u) q ≡ false) (sym (same q))
                (kept_as s.kernel_pool s.kernel_pool s.user_pool u (Step-refl s.kernel_pool) st
                  (ltb q s.user_pool.addr_start) q g);
        },
        subst (λ b. bit_of (if b then s.kernel_pool else u) phy ≡ false) (sym (same phy ∙ e)) gone,
      )
]
