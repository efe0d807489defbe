-- ===== src/Storage/Reading.antt =====
-- `file_read` returns the bytes of the file at the position.
use mmzzos.Base.{
  ℕ, zero, suc, ◌+◌, ◌-◌, ◌*◌, ◌/◌, ◌%◌, ◌≡◌, ◌≢◌, ◌<◌, ◌≤◌, refl, sym, ap, ap₂, ◌∙◌, true, false,
  ◌||◌, ◌==◌, List, [], ◌∷◌, ◌++◌, leb, min, arith, ℕ_discrete, dec_le,
}
use mmzzos.Disk.{Bytes}
use mmzzos.Storage.{block_size, sectors_at}
use mmzzos.Storage.Access.{addresses, slice, read_limit, read_loop, file_read}

pub slice-add : (f : Bytes) (at a b : ℕ) → slice f at (a + b) ≡ slice f at a ++ slice f (at + a) b
slice-add f at zero b = ap₂ (slice f) (omega arith) (omega arith)
slice-add f at (suc a) b =
    let unfolded : suc a + b ≡ suc (a + b) = omega arith in
    let there : at + suc a ≡ at + 1 + a = omega arith in
    rw (unfolded, there) (ap (λ l. f at ∷ l) (slice-add f (at + 1) a b))

pub slice-same :
    (f g : Bytes) (a b n : ℕ)
    → ((k : ℕ) → k < n → f (a + k) ≡ g (b + k))
    → slice f a n ≡ slice g b n
slice-same f g a b zero same = refl
slice-same f g a b (suc n) same =
    ap₂ (λ (x : ℕ) (l : List ℕ). x ∷ l)
      (ap f (omega arith) ∙ same 0 (omega arith) ∙ ap g (omega arith))
      (slice-same f g (a + 1) (b + 1) n
        (λ k lt. ap f (omega arith) ∙ same (k + 1) (omega arith) ∙ ap g (omega arith)))

-- The byte of the file at `p`, where its blocks begin at the sectors `addr`.
abbrev pub byte_at : Bytes → (ℕ → ℕ) → ℕ → ℕ
byte_at disk addr p = disk (512 * addr (p / block_size) + p % block_size)

module _ (disk : Bytes) (addr : ℕ → ℕ) (size limit : ℕ) where
  same_byte :
      (cur idx k : ℕ)
      → idx ≡ cur / block_size
      → cur % block_size + k < block_size
      → sectors_at disk (addr idx) (cur % block_size + k) ≡ byte_at disk addr (cur + k)
  same_byte cur idx k here lt =
      let block : (cur + k) / block_size ≡ idx = omega arith in
      let place : (cur + k) % block_size ≡ cur % block_size + k = omega arith in
      rw (block, place) refl

  read_loop_lem :
      (n cnt cur idx : ℕ)
      → n + idx ≡ limit
      → (0 < min cnt (size - cur) → idx ≡ cur / block_size)
      → cur + min cnt (size - cur) ≤ block_size * limit
      → ((i : ℕ)
          → block_size * i < cur + min cnt (size - cur)
          → cur < block_size * (i + 1)
          → addr i ≢ 0)
      → read_loop n disk addr size cnt cur idx
        ≡ (slice (byte_at disk addr) cur (min cnt (size - cur)), cur + min cnt (size - cur))
  unfolding read_loop
  read_loop_lem zero cnt cur idx e at fits there =
      let nothing : min cnt (size - cur) ≡ 0 = elim (ℕ_discrete (min cnt (size - cur)) 0) [
        | yes none_left ↦ none_left
        | no more ↦ let here = at (omega arith) in absurd (omega arith)
      ] in
      rw nothing (ap (λ p. ([], p)) (omega arith))
  read_loop_lem (suc n) cnt cur idx e at fits there = elim (ℕ_discrete (min cnt (size - cur)) 0) [
    | yes nothing ↦
        let stop : ((cnt == 0) || (leb size cur || (addr idx == 0))) ≡ true =
          elim (ℕ_discrete cnt 0) [
            | yes none_wanted ↦ ground arith
            | no wanted ↦ let ended : size ≤ cur = omega arith in ground arith
          ] in
        rw (stop, nothing) (ap (λ p. ([], p)) (omega arith))
    | no more ↦
        let here : idx ≡ cur / block_size = at (omega arith) in
        let taken : addr idx ≢ 0 = there idx (omega arith) (omega arith) in
        let left : size - cur ≢ 0 = omega arith in
        let wanted : cnt ≢ 0 = omega arith in
        let go : ((cnt == 0) || (leb size cur || (addr idx == 0))) ≡ false = ground arith in
        let need : ℕ =
          min (min (min block_size cnt) (block_size - cur % block_size)) (size - cur) in
        let rest : ℕ = min (cnt - need) (size - (cur + need)) in
        let total : min cnt (size - cur) ≡ need + rest = omega arith in
        let ih =
          read_loop_lem n (cnt - need) (cur + need) (idx + 1) (omega arith)
            (λ some_left. omega arith) (omega arith)
            (λ i lo hi. there i (omega arith) (omega arith)) in
        rw (go, ih, total)
          (ap₂ (λ (l : List ℕ) (p : ℕ). (l, p))
            (ap (λ l. l ++ slice (byte_at disk addr) (cur + need) rest)
                (slice-same (sectors_at disk (addr idx)) (byte_at disk addr) (cur % block_size) cur
                  need (λ k lt. same_byte cur idx k here (omega arith)))
              ∙ sym (slice-add (byte_at disk addr) cur need rest))
            (omega arith))
  ]

-- Where the file has a block for each byte from the position on that is wanted and there, and these bytes lie below
-- 140 blocks, `file_read` copies exactly these bytes of the file, the wanted number or as many as the file has behind
-- the position, and moves the position behind them.
pub file_read_lem :
    (disk : Bytes) (sectors : List ℕ) (size pos cnt : ℕ)
    → pos + min cnt (size - pos) ≤ block_size * read_limit
    → ((i : ℕ)
        → block_size * i < pos + min cnt (size - pos)
        → pos < block_size * (i + 1)
        → addresses disk sectors i ≢ 0)
    → file_read disk sectors size pos cnt ≡ (
      slice (byte_at disk (addresses disk sectors)) pos (min cnt (size - pos)),
      pos + min cnt (size - pos),
    )
unfolding file_read
file_read_lem disk sectors size pos cnt fits there = elim (dec_le (pos / block_size) read_limit) [
  | yes le ↦
      read_loop_lem disk (addresses disk sectors) size read_limit (read_limit - pos / block_size)
        cnt pos (pos / block_size) (omega arith) (λ more. refl) fits there
  | no gt ↦ absurd (omega arith)
]
