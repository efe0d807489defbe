-- ===== src/Shell/Texts.antt =====
-- Characters that stand one behind the other in memory.
use mmzzos.Base.{
  ℕ, zero, suc, ◌+◌, ◌%◌, ◌≤◌, ◌<◌, ◌≡◌, ap, ◌∙◌, List, [], ◌∷◌, ◌++◌, length, take, All, arith,
}
use mmzzos.Mem.{Memory, store_byte}
use mmzzos.Strings.Text.{Chars}

abbrev pub Spans : Memory → ℕ → List ℕ → Type 0
Spans m at [] = Unit
Spans m at (c ∷ cs) = (m at ≡ c) × Spans m (at + 1) cs

abbrev pub IsByte : ℕ → Type 0
IsByte c = c < 256

pub store_byte_self : (m : Memory) (at v : ℕ) → store_byte m at v at ≡ v % 256
unfolding store_byte
store_byte_self m at v = ground arith

pub store_byte-below : (m : Memory) (at v x : ℕ) → x < at → store_byte m at v x ≡ m x
unfolding store_byte
store_byte-below m at v x h = ground arith

pub store_byte-above : (m : Memory) (at v x : ℕ) → at < x → store_byte m at v x ≡ m x
unfolding store_byte
store_byte-above m at v x h = ground arith

pub Spans-keep :
    (cs : List ℕ) (m m' : Memory) (at : ℕ)
    → ((x : ℕ) → x < at + length cs → m' x ≡ m x)
    → Spans m at cs
    → Spans m' at cs
Spans-keep [] m m' at same s = tt
Spans-keep (c ∷ cs) m m' at same s =
    (same at (omega arith) ∙ s.0, Spans-keep cs m m' (at + 1) (λ x h. same x (omega arith)) s.1)

pub Spans-append :
    (cs : List ℕ) (m : Memory) (at c : ℕ)
    → Spans m at cs
    → m (at + length cs) ≡ c
    → Spans m at (cs ++ c ∷ [])
Spans-append [] m at c s e = (ap m (omega arith) ∙ e, tt)
Spans-append (d ∷ cs) m at c s e = (s.0, Spans-append cs m (at + 1) c s.1 (ap m (omega arith) ∙ e))

pub Spans-take :
    (n : ℕ) (cs : List ℕ) (m : Memory) (at : ℕ) → Spans m at cs → Spans m at (take n cs)
Spans-take zero cs m at s = tt
Spans-take (suc n) [] m at s = tt
Spans-take (suc n) (c ∷ cs) m at s = (s.0, Spans-take n cs m (at + 1) s.1)

-- Characters that are followed by a 0 are a string.
pub Chars-span :
    (cs : List ℕ) (m : Memory) (at : ℕ)
    → All (λ c. 0 < c) cs
    → Spans m at cs
    → m (at + length cs) ≡ 0
    → Chars m at cs
Chars-span [] m at pos s e = ap m (omega arith) ∙ e
Chars-span (c ∷ cs) m at pos s e =
    (s.0, pos.0, Chars-span cs m (at + 1) pos.1 s.1 (ap m (omega arith) ∙ e))

pub Chars-above :
    (cs : List ℕ) (m m' : Memory) (at : ℕ)
    → ((x : ℕ) → at ≤ x → m' x ≡ m x)
    → Chars m at cs
    → Chars m' at cs
Chars-above [] m m' at same t = same at (omega arith) ∙ t
Chars-above (c ∷ cs) m m' at same t = (
  same at (omega arith) ∙ t.0,
  t.1,
  Chars-above cs m m' (at + 1) (λ x h. same x (omega arith)) t.2,
)

pub Chars-below :
    (cs : List ℕ) (m m' : Memory) (at : ℕ)
    → ((x : ℕ) → x < at + length cs + 1 → m' x ≡ m x)
    → Chars m at cs
    → Chars m' at cs
Chars-below [] m m' at same t = same at (omega arith) ∙ t
Chars-below (c ∷ cs) m m' at same t = (
  same at (omega arith) ∙ t.0,
  t.1,
  Chars-below cs m m' (at + 1) (λ x h. same x (omega arith)) t.2,
)
