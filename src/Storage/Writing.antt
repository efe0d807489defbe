-- ===== src/Storage/Writing.antt =====
-- `file_write` into the blocks that a file has.
use mathlib.Core.Logic.{◌⊎◌, inl, inr}
use mmzzos.Base.{
  ℕ, zero, suc, ◌+◌, ◌-◌, ◌*◌, ◌/◌, ◌%◌, ◌≡◌, ◌≢◌, ◌<◌, ◌≤◌, refl, sym, ap, ◌∙◌, subst, true, false,
  ◌&&◌, ◌==◌, ltb, leb, if◌then◌else◌, min, arith, ℕ_discrete, dec_lt, ok, Result,
}
use mmzzos.Disk.{Bytes, put_sectors}
use mmzzos.Storage.{block_size, block_sectors, sectors_at, copy_to}
use mmzzos.Storage.Blocks.{Work}
use mmzzos.Storage.Access.{write_part, write_loop}
use mmzzos.Storage.Reading.{byte_at}

abbrev pub write_limit : ℕ
write_limit = 1036

-- The block number `i` holds one of the `left` bytes from `cur` on.
abbrev pub Touched : ℕ → ℕ → ℕ → Type 0
Touched cur left i = (block_size * i < cur + left) × (cur < block_size * (i + 1))

-- Two blocks have no sector in common.
abbrev pub Apart : ℕ → ℕ → Type 0
Apart a b = (a + block_sectors ≤ b) ⊎ (b + block_sectors ≤ a)

put_inside :
    (disk buf : Bytes) (lba r : ℕ)
    → r < block_size
    → put_sectors disk lba block_sectors 0 buf (512 * lba + r) ≡ buf r
put_inside disk buf lba r lt =
    let lo : leb (512 * lba) (512 * lba + r) ≡ true = ground arith in
    let hi : ltb (512 * lba + r) (512 * (lba + block_sectors)) ≡ true = ground arith in
    rw (lo, hi) (ap buf (omega arith))

put_outside :
    (disk buf : Bytes) (lba q : ℕ)
    → (q < 512 * lba) ⊎ (512 * (lba + block_sectors) ≤ q)
    → put_sectors disk lba block_sectors 0 buf q ≡ disk q
put_outside disk buf lba q away = ground arith

module _ (src : Bytes) (addr : ℕ → ℕ) (end_block : ℕ) where
  -- `w'` is `w` with the `left` bytes of the source from `written` on in the file from `cur` on, of which the block
  -- `idx` is the first.
  pub record Wrote (left cur idx written : ℕ) (w w' : Work) : Type 0 where
    pub same_sectors : w'.sectors ≡ w.sectors
    pub inside :
        (p : ℕ) → cur ≤ p → p < cur + left → byte_at w'.part.disk addr p ≡ src (written + (p - cur))
    pub kept :
        (p : ℕ)
        → p < block_size * write_limit
        → (p < cur) ⊎ (cur + left ≤ p)
        → (p / block_size ≤ end_block) ⊎ (p / block_size < idx)
        → byte_at w'.part.disk addr p ≡ byte_at w.part.disk addr p
    pub outside :
        (q : ℕ)
        → ((i : ℕ) → Touched cur left i → (q < 512 * addr i) ⊎ (512 * (addr i + block_sectors) ≤ q))
        → w'.part.disk q ≡ w.part.disk q

  module _ (n cur idx written : ℕ) (w : Work) (here : idx ≡ cur / block_size)
      (fits : cur % block_size + n ≤ block_size) where
    abbrev filled : Bytes
    filled =
        copy_to
          (if leb (cur / block_size) end_block then sectors_at w.part.disk (addr idx) else w.buf)
          (cur % block_size) (λ i. src (written + i)) n

    abbrev after : Work
    after = write_part src written n cur end_block (addr idx) w

    part_inside :
        (p : ℕ) → cur ≤ p → p < cur + n → byte_at after.part.disk addr p ≡ src (written + (p - cur))
    unfolding write_part
    part_inside p lo hi =
        let block : p / block_size ≡ idx = omega arith in
        let low : leb (cur % block_size) (p % block_size) ≡ true = ground arith in
        let high : ltb (p % block_size) (cur % block_size + n) ≡ true = ground arith in
        rw block (
          put_inside w.part.disk filled (addr idx) (p % block_size) (omega arith)
          ∙ rw (low, high) (ap src (omega arith)))

    part_kept :
        (p : ℕ)
        → p / block_size ≡ idx
        → idx ≤ end_block
        → (p < cur) ⊎ (cur + n ≤ p)
        → byte_at after.part.disk addr p ≡ byte_at w.part.disk addr p
    unfolding write_part
    part_kept p block le away =
        let loads : leb (cur / block_size) end_block ≡ true = ground arith in
        let copied : (leb (cur % block_size) (p % block_size)
              && ltb (p % block_size) (cur % block_size + n))
            ≡ false =
          elim away [ inl before ↦ ground arith | inr behind ↦ ground arith ] in
        rw block (
          put_inside w.part.disk filled (addr idx) (p % block_size) (omega arith)
          ∙ rw (loads, copied) refl)

    part_outside :
        (q : ℕ)
        → (q < 512 * addr idx) ⊎ (512 * (addr idx + block_sectors) ≤ q)
        → after.part.disk q ≡ w.part.disk q
    unfolding write_part
    part_outside q away = put_outside w.part.disk filled (addr idx) q away

    -- One round and the rounds behind it.
    Wrote-step :
        (rest : ℕ) (w' : Work)
        → 0 < n
        → cur + (n + rest) ≤ block_size * write_limit
        → ((j : ℕ) → j < write_limit → idx ≢ j → Apart (addr idx) (addr j))
        → Wrote rest (cur + n) (idx + 1) (written + n) after w'
        → Wrote (n + rest) cur idx written w w'
    unfolding write_part
    Wrote-step rest w' pos bound apart h = record {
      same_sectors = h.same_sectors;
      inside = λ p lo hi. elim (dec_lt p (cur + n)) [
        | yes now ↦ h.kept p (omega arith) (inl now) (inr (omega arith)) ∙ part_inside p lo now
        | no later ↦ h.inside p (omega arith) (omega arith) ∙ ap src (omega arith)
      ];
      kept = λ p lt away keep.
          h.kept p lt
            (elim away [ inl before ↦ inl (omega arith) | inr behind ↦ inr (omega arith) ])
            (elim keep [ inl le ↦ inl le | inr less ↦ inr (omega arith) ])
          ∙ elim (ℕ_discrete (p / block_size) idx) [
            | yes block ↦
                part_kept p block
                  (elim keep [ inl le ↦ omega arith | inr less ↦ absurd (omega arith) ])
                  (elim away [ inl before ↦ inl before | inr behind ↦ inr (omega arith) ])
            | no other ↦
                part_outside (512 * addr (p / block_size) + p % block_size)
                  (elim (apart (p / block_size) (omega arith) (λ e. other (sym e))) [
                    | inl above ↦ inr (omega arith)
                    | inr below ↦ inl (omega arith)
                  ])
          ];
      outside = λ q away.
          h.outside q (λ i t. away i (omega (arith, t.0), omega (arith, t.1)))
          ∙ part_outside q (away idx (omega arith, omega arith));
    }

  Wrote-none : (cur idx written : ℕ) (w : Work) → Wrote 0 cur idx written w w
  Wrote-none cur idx written w = record {
    same_sectors = refl;
    inside = λ p lo hi. absurd (omega arith);
    kept = λ p lt away keep. refl;
    outside = λ q away. refl;
  }

  pub write_loop_lem :
      (n left cur idx written : ℕ) (w : Work)
      → n + idx ≡ write_limit
      → (0 < left → idx ≡ cur / block_size)
      → cur + left ≤ block_size * write_limit
      → ((i : ℕ) → Touched cur left i → addr i ≢ 0)
      → ((i j : ℕ) → Touched cur left i → j < write_limit → i ≢ j → Apart (addr i) (addr j))
      → (w' : Work) × (write_loop n src addr end_block left cur idx written w
          ≡ ok (written + left, w'))
        × Wrote left cur idx written w w'
  unfolding write_loop
  write_loop_lem zero left cur idx written w e at fits there apart =
      let done : Result (ℕ × Work) = ok (written, w) in
      let nothing : 0 ≡ left = elim (ℕ_discrete 0 left) [
        | yes none_left ↦ none_left
        | no more ↦ let here = at (omega arith) in absurd (omega arith)
      ] in
      subst (λ l. (w' : Work) × (done ≡ ok (written + l, w')) × Wrote l cur idx written w w')
        nothing (w, ap (λ k. ok (k, w)) (omega arith), Wrote-none cur idx written w)
  write_loop_lem (suc n) left cur idx written w e at fits there apart = elim (ℕ_discrete left 0) [
    | yes nothing ↦
        let stop : (left == 0) ≡ true = ground arith in
        rw (stop, nothing) (w, ap (λ k. ok (k, w)) (omega arith), Wrote-none cur idx written w)
    | no more ↦
        let here : idx ≡ cur / block_size = at (omega arith) in
        let at_once : Touched cur left idx = (omega arith, omega arith) in
        let taken : addr idx ≢ 0 = there idx at_once in
        let go : (left == 0) ≡ false = ground arith in
        let present : (addr idx == 0) ≡ false = ground arith in
        let next : ℕ = min (min left block_size) (block_size - cur % block_size) in
        let pos : 0 < next = omega arith in
        let total : left ≡ next + (left - next) = omega arith in
        let (w', e', h) =
          write_loop_lem n (left - next) (cur + next) (idx + 1) (written + next)
            (write_part src written next cur end_block (addr idx) w) (omega arith)
            (λ some_left. omega arith) (omega arith)
            (λ i t. there i (omega (arith, t.0), omega (arith, t.1)))
            (λ i j t. apart i j (omega (arith, t.0), omega (arith, t.1))) in
        rw (go, present, e')
          (
            w',
            ap (λ k. ok (k, w')) (omega arith),
            subst (λ l. Wrote l cur idx written w w') (sym total)
                (Wrote-step next cur idx written w here (omega arith) (left - next) w' pos
                  (omega arith) (λ j. apart idx j at_once) h),
          )
  ]
