-- ===== src/Pages/Rounds.antt =====
-- A round of the loop of malloc_page in kernel/memory.c, with the frame that it maps.
use mmzzos.Base.{
  ℕ, suc, ◌+◌, ◌-◌, ◌*◌, ◌/◌, ◌%◌, ◌^◌, ◌<◌, ◌≤◌, ◌≡◌, ◌≢◌, ◌⊎◌, inl, refl, sym, ap, ◌∙◌, true,
  false, ◌==◌, Result, ◌>>=◌, arith, ℕ_discrete, subst,
}
use mmzzos.Pages.{
  Pool, Space, PoolOwner, kernel, user, pool_of, with_pool, with_vpool, page_of, is_present,
  entry_to, put,
}
use mmzzos.Pages.Runs.{map_page}
use mmzzos.Pages.Pools.{IsPool}
use mmzzos.Bitmap.{bit_at}
use mathlib.Core.Bool.{false≢true}
use mmzzos.Pages.Supply.{free_pages_of, Frame}
use mmzzos.Pages.Mapping.{put_at, put_ne, entry_to-present, add_to_page_table-free}

-- Before the loop at `vaddr` with `cnt` pages left: frames enough, and page tables with no entry for
-- the pages.
pub record Ready (flag : PoolOwner) (cnt vaddr : ℕ) (s : Space) : Type 0 where
  pub kernel_well : IsPool s.kernel_pool
  pub well : IsPool (pool_of flag s)
  pub aligned : (pool_of flag s).addr_start % 4096 ≡ 0
  pub enough : cnt ≤ free_pages_of (pool_of flag s)
  pub tables : (i : ℕ) → i < cnt → is_present (s.pde ((vaddr + i * 4096) / 2 ^ 22)) ≡ true
  pub no_entries : (i : ℕ) → i < cnt → is_present (s.pte (page_of (vaddr + i * 4096))) ≡ false

-- An entry for a frame of the pool that was free before and is taken behind.
pub record FrameOf (pool pool' : Pool) (entry : ℕ) : Type 0 where
  pub idx : ℕ
  pub inside : idx < 8 * pool.bp.len
  pub entry_is : entry ≡ entry_to (pool.addr_start + idx * 4096)
  pub free : bit_at pool.bp idx ≡ false
  pub taken : bit_at pool'.bp idx ≡ true

-- After it every page has a frame of its own that was free before, no frame but these was taken, and no other page
-- changed.
pub record AllMapped (flag : PoolOwner) (cnt vaddr : ℕ) (s s' : Space) : Type 0 where
  pub present : (i : ℕ) → i < cnt → is_present (s'.pte (page_of (vaddr + i * 4096))) ≡ true
  pub frames :
      (i : ℕ)
      → i < cnt
      → FrameOf (pool_of flag s) (pool_of flag s') (s'.pte (page_of (vaddr + i * 4096)))
  pub distinct :
      (i j : ℕ)
      → i < j
      → j < cnt
      → s'.pte (page_of (vaddr + i * 4096)) ≢ s'.pte (page_of (vaddr + j * 4096))
  pub used : (k : ℕ) → bit_at (pool_of flag s).bp k ≡ true → bit_at (pool_of flag s').bp k ≡ true
  pub fewer : free_pages_of (pool_of flag s') + cnt ≡ free_pages_of (pool_of flag s)
  pub others : (p : ℕ) → (p < page_of vaddr) ⊎ (page_of vaddr + cnt ≤ p) → s'.pte p ≡ s.pte p

-- The state behind a round that got the frame `phy`.
abbrev pub after_round : PoolOwner → ℕ → ℕ → Pool → Space → Space
after_round flag phy vaddr pool s =
    let s1 = with_pool flag pool s in record s1 { pte = put s1.pte (page_of vaddr) (entry_to phy) }

no_entries-rest :
    (cnt vaddr phy : ℕ) (pte : ℕ → ℕ)
    → vaddr % 4096 ≡ 0
    → ((i : ℕ) → i < suc cnt → is_present (pte (page_of (vaddr + i * 4096))) ≡ false)
    → (i : ℕ) → i < cnt
    → is_present (put pte (page_of vaddr) (entry_to phy) (page_of (vaddr + 4096 + i * 4096)))
      ≡ false
no_entries-rest cnt vaddr phy pte h all i lt =
    let at : vaddr + 4096 + i * 4096 ≡ vaddr + suc i * 4096 = omega arith in
    ap is_present (put_ne pte (page_of vaddr) (entry_to phy) _ (λ e. absurd (omega arith)))
    ∙ ap (λ a. is_present (pte (page_of a))) at
    ∙ all (suc i) (omega arith)

pub Ready-rest :
    (flag : PoolOwner) (cnt vaddr phy : ℕ) (pool : Pool) (s : Space)
    → vaddr % 4096 ≡ 0
    → Ready flag (suc cnt) vaddr s
    → Frame (pool_of flag s) phy pool
    → Ready flag cnt (vaddr + 4096) (after_round flag phy vaddr pool s)
Ready-rest kernel cnt vaddr phy pool s h r f = record {
  kernel_well = f.well;
  well = f.well;
  aligned = ap (λ a. a % 4096) f.start ∙ r.aligned;
  enough = omega (arith, f.fewer, r.enough);
  tables = λ i lt.
      ap (λ a. is_present (s.pde (a / 2 ^ 22))) (next_page i) ∙ r.tables (suc i) (omega arith);
  no_entries = no_entries-rest cnt vaddr phy s.pte h r.no_entries;
}
  where
    next_page : (i : ℕ) → vaddr + 4096 + i * 4096 ≡ vaddr + suc i * 4096
    next_page i = omega arith
Ready-rest user cnt vaddr phy pool s h r f = record {
  kernel_well = r.kernel_well;
  well = f.well;
  aligned = ap (λ a. a % 4096) f.start ∙ r.aligned;
  enough = omega (arith, f.fewer, r.enough);
  tables = λ i lt.
      ap (λ a. is_present (s.pde (a / 2 ^ 22))) (next_page i) ∙ r.tables (suc i) (omega arith);
  no_entries = no_entries-rest cnt vaddr phy s.pte h r.no_entries;
}
  where
    next_page : (i : ℕ) → vaddr + 4096 + i * 4096 ≡ vaddr + suc i * 4096
    next_page i = omega arith

-- The entries and the directory do not depend on the pool.
pub with_pool-pte :
    (flag : PoolOwner) (p : Pool) (s : Space)
    → ((with_pool flag p s).pte ≡ s.pte) × ((with_pool flag p s).pde ≡ s.pde)
with_pool-pte kernel p s = (refl, refl)
with_pool-pte user p s = (refl, refl)

pub map_page-frame :
    (flag : PoolOwner) (cnt ret vaddr phy : ℕ) (pool : Pool) (s : Space)
    (next : Space → Result (ℕ × Space))
    → Ready flag (suc cnt) vaddr s
    → phy ≢ 0
    → map_page flag ret vaddr s next (phy, pool) ≡ next (after_round flag phy vaddr pool s)
unfolding map_page
map_page-frame flag cnt ret vaddr phy pool s next r some_ =
    let e : (phy == 0) ≡ false = ground arith in
    let (pte_same, pde_same) = with_pool-pte flag pool s in
    let here : vaddr + 0 * 4096 ≡ vaddr = omega arith in
    let there =
      ap (λ f. is_present (f (vaddr / 2 ^ 22))) pde_same
      ∙ ap (λ a. is_present (s.pde (a / 2 ^ 22))) (sym here)
      ∙ r.tables 0 (omega arith) in
    let free =
      ap (λ f. is_present (f (page_of vaddr))) pte_same
      ∙ ap (λ a. is_present (s.pte (page_of a))) (sym here)
      ∙ r.no_entries 0 (omega arith) in
    rw e
      (ap (λ r. r >>= next) (add_to_page_table-free phy vaddr (with_pool flag pool s) there free))

pool_of-after :
    (flag : PoolOwner) (phy vaddr : ℕ) (pool : Pool) (s : Space)
    → pool_of flag (after_round flag phy vaddr pool s) ≡ pool
pool_of-after kernel phy vaddr pool s = refl
pool_of-after user phy vaddr pool s = refl

-- A frame that is taken stays taken, and one that is free behind was free.
Frame-used :
    (pool pool' : Pool) (phy : ℕ)
    → Frame pool phy pool'
    → (k : ℕ) → bit_at pool.bp k ≡ true
    → bit_at pool'.bp k ≡ true
Frame-used pool pool' phy f k e = elim (ℕ_discrete k f.idx) [
  | yes same ↦ ap (bit_at pool'.bp) same ∙ f.taken
  | no ne ↦ f.others k ne ∙ e
]

Frame-other :
    (pool pool' : Pool) (phy k : ℕ) (f : Frame pool phy pool')
    → bit_at pool'.bp k ≡ false
    → k ≢ f.idx
Frame-other pool pool' phy k f e same = false≢true (sym e ∙ ap (bit_at pool'.bp) same ∙ f.taken)

FrameOf-later :
    (pool pool1 pool' : Pool) (phy entry : ℕ)
    → Frame pool phy pool1
    → FrameOf pool1 pool' entry
    → FrameOf pool pool' entry
FrameOf-later pool pool1 pool' phy entry f g = record {
  idx = g.idx;
  inside = omega (arith, g.inside, f.len);
  entry_is = g.entry_is ∙ ap (λ a. entry_to (a + g.idx * 4096)) f.start;
  free = sym (f.others g.idx (Frame-other pool pool1 phy g.idx f g.free)) ∙ g.free;
  taken = g.taken;
}

-- The frame of a later round is another one.
FrameOf-distinct :
    (pool pool1 pool' : Pool) (phy entry : ℕ)
    → Frame pool phy pool1
    → pool.addr_start % 4096 ≡ 0
    → FrameOf pool1 pool' entry
    → entry_to phy ≢ entry
FrameOf-distinct pool pool1 pool' phy entry f h g same =
    Frame-other pool pool1 phy g.idx f g.free (omega (arith, f.at, g.entry_is, f.start))

pub AllMapped-first :
    (flag : PoolOwner) (cnt vaddr phy : ℕ) (pool : Pool) (s s' : Space)
    → vaddr % 4096 ≡ 0
    → (pool_of flag s).addr_start % 4096 ≡ 0
    → Frame (pool_of flag s) phy pool
    → AllMapped flag cnt (vaddr + 4096) (after_round flag phy vaddr pool s) s'
    → AllMapped flag (suc cnt) vaddr s s'
AllMapped-first flag cnt vaddr phy pool s s' h aligned f m = record {
  present = λ i lt. elim (ℕ_discrete i 0) [
    | yes e ↦ ap is_present (first_entry i e) ∙ entry_to-present phy
    | no ne ↦ ap is_present (later_entry i ne) ∙ m.present (i - 1) (omega arith)
  ];
  frames = λ i lt. elim (ℕ_discrete i 0) [
    | yes e ↦ record {
      idx = f.idx;
      inside = f.inside;
      entry_is = first_entry i e ∙ ap entry_to f.at;
      free = f.free;
      taken = used_after f.idx f.taken;
    }
    | no ne ↦ subst (FrameOf (pool_of flag s) (pool_of flag s')) (sym (later_entry i ne)) (
        FrameOf-later (pool_of flag s) pool (pool_of flag s') phy _ f
          (later_frame (i - 1) (omega arith)))
  ];
  distinct = λ i j lt ltj. elim (ℕ_discrete i 0) [
    | yes e ↦ λ same.
        FrameOf-distinct (pool_of flag s) pool (pool_of flag s') phy _ f aligned
          (later_frame (j - 1) (omega arith))
          (sym (first_entry i e) ∙ same ∙ later_entry j (λ z. absurd (omega arith)))
    | no ne ↦ λ same.
        m.distinct (i - 1) (j - 1) (omega arith) (omega arith)
          (sym (later_entry i ne) ∙ same ∙ later_entry j (λ z. absurd (omega arith)))
  ];
  used = λ k e. used_after k (Frame-used (pool_of flag s) pool phy f k e);
  fewer = omega (arith, m.fewer, f.fewer, ap free_pages_of behind);
  others = λ p out.
      m.others p (ground arith)
      ∙ put_ne _ (page_of vaddr) (entry_to phy) p (λ e. absurd (ground arith))
      ∙ ap (λ f. f p) (with_pool-pte flag pool s).0;
}
  where
    behind : pool_of flag (after_round flag phy vaddr pool s) ≡ pool
    behind = pool_of-after flag phy vaddr pool s

    used_after : (k : ℕ) → bit_at pool.bp k ≡ true → bit_at (pool_of flag s').bp k ≡ true
    used_after k e = m.used k (ap (λ p. bit_at p.bp k) behind ∙ e)

    first_entry : (i : ℕ) → i ≡ 0 → s'.pte (page_of (vaddr + i * 4096)) ≡ entry_to phy
    first_entry i e =
        let at : page_of (vaddr + i * 4096) ≡ page_of vaddr = omega arith in
        ap (λ p. s'.pte p) at
        ∙ m.others (page_of vaddr) (inl (omega arith))
        ∙ put_at _ (page_of vaddr) (entry_to phy)

    later_entry :
        (i : ℕ)
        → i ≢ 0
        → s'.pte (page_of (vaddr + i * 4096)) ≡ s'.pte (page_of (vaddr + 4096 + (i - 1) * 4096))
    later_entry i ne =
        let at : vaddr + i * 4096 ≡ vaddr + 4096 + (i - 1) * 4096 = omega arith in
        ap (λ a. s'.pte (page_of a)) at

    later_frame :
        (i : ℕ)
        → i < cnt
        → FrameOf pool (pool_of flag s') (s'.pte (page_of (vaddr + 4096 + i * 4096)))
    later_frame i lt =
        subst (λ p. FrameOf p (pool_of flag s') (s'.pte (page_of (vaddr + 4096 + i * 4096)))) behind
          (m.frames i lt)

-- The virtual pool has no part in it.
pub AllMapped-vpool :
    (flag : PoolOwner) (cnt vaddr : ℕ) (vpool : Pool) (s s' : Space)
    → AllMapped flag cnt vaddr (with_vpool flag vpool s) s'
    → AllMapped flag cnt vaddr s s'
AllMapped-vpool kernel cnt vaddr vpool s s' m = record {
  present = m.present;
  frames = m.frames;
  distinct = m.distinct;
  used = m.used;
  fewer = m.fewer;
  others = m.others;
}
AllMapped-vpool user cnt vaddr vpool s s' m = record {
  present = m.present;
  frames = m.frames;
  distinct = m.distinct;
  used = m.used;
  fewer = m.fewer;
  others = m.others;
}
