-- ===== src/Shell/Turns.antt =====
-- What the turns of the loop of readline of shell/shell.c keep of the edited line.
use mmzzos.Base.{
  ℕ, ◌+◌, ◌-◌, ◌^◌, ◌≤◌, ◌<◌, ◌≡◌, ◌≢◌, refl, sym, ap, ◌∙◌, false, List, [], ◌∷◌, ◌++◌, length,
  length-append, length-take, take, ◌==◌, ltb, leb, if◌then◌else◌, arith, Bool-cases, inl, inr,
  ◌&&◌, ℕ_discrete,
}
use mmzzos.Mem.{Memory, store_byte}
use mmzzos.Mem.Setting.{forward_lem}
use mmzzos.Keys.Codes.{code, code_ctrl_l, code_ctrl_u}
use mmzzos.Shell.{Typing, on_char, clear_screen, clear_line, back_space, type_char, new_line}
use mmzzos.Shell.Texts.{
  Spans, Spans-keep, Spans-append, Spans-take, store_byte_self, store_byte-below,
}
use mmzzos.Shell.Lines.{edit, IsLine}

-- What the loop keeps.
pub record Holds (m : Memory) (buf count : ℕ) (line : List ℕ) (t : Typing) : Type 0 where
  pub str : t.str ≡ buf + length line
  pub len : t.len ≡ length line
  pub there : Spans t.memory buf line
  pub small : length line ≤ count
  pub inside : (x : ℕ) → t.memory x ≡ (if leb buf x && ltb x (buf + count) then t.memory x else m x)

store-inside :
    (m m' : Memory) (buf count at v : ℕ)
    → buf ≤ at
    → at < buf + count
    → ((x : ℕ) → m' x ≡ (if leb buf x && ltb x (buf + count) then m' x else m x))
    → (x : ℕ)
    → store_byte m' at v x
      ≡ (if leb buf x && ltb x (buf + count) then store_byte m' at v x else m x)
unfolding store_byte
store-inside m m' buf count at v low high inside x = ground (arith, inside x)

nonzero : (n : ℕ) → n ≢ 0 → (n == 0) ≡ false
nonzero n h = ground arith

module _ (m : Memory) (buf count : ℕ) (line : List ℕ) (t : Typing)
    (h : Holds m buf count line t) where
  at_end :
      length line < count
      → (v : ℕ) → (x : ℕ)
      → store_byte t.memory t.str v x
        ≡ (if leb buf x && ltb x (buf + count) then store_byte t.memory t.str v x else m x)
  at_end room v =
      store-inside m t.memory buf count t.str v (omega (arith, h.str)) (omega (arith, h.str))
        h.inside

  kept : (v : ℕ) → Spans (store_byte t.memory t.str v) buf line
  kept v =
      Spans-keep line t.memory (store_byte t.memory t.str v) buf
        (λ x lt. store_byte-below t.memory t.str v x (omega (arith, h.str))) h.there

  clear_screen-Holds : length line < count → Holds m buf count line (clear_screen buf t)
  unfolding clear_screen
  clear_screen-Holds room = record {
    str = h.str;
    len = h.len;
    there = kept 0;
    small = h.small;
    inside = at_end room 0;
  }

  clear_line-Holds : Holds m buf count [] (clear_line buf t)
  unfolding clear_line
  clear_line-Holds = record {
    str = omega arith;
    len = refl;
    there = tt;
    small = omega arith;
    inside = h.inside;
  }

  back_space-Holds : Holds m buf count (take (length line - 1) line) (back_space t)
  unfolding back_space
  back_space-Holds =
      let cut = length-take line (length line - 1) in
      let taken = Spans-take (length line - 1) line t.memory buf h.there in
      elim (ℕ_discrete t.len 0) [
        | yes e ↦ rw (ap (λ n. n == 0) e) (record {
          str = omega (arith, h.str, h.len, e, cut);
          len = omega (arith, h.len, e, cut);
          there = taken;
          small = omega (arith, h.small, cut);
          inside = h.inside;
        })
        | no ne ↦ rw (nonzero t.len ne) (record {
          str = omega (arith, h.str, h.len, ne, cut);
          len = omega (arith, h.len, ne, cut);
          there = taken;
          small = omega (arith, h.small, cut);
          inside = h.inside;
        })
      ]

  type_char-Holds :
      (ch : ℕ)
      → ch < 256
      → buf + count < 2 ^ 32
      → length line < count
      → Holds m buf count (line ++ ch ∷ []) (type_char ch t)
  unfolding type_char
  type_char-Holds ch byte fits room = record {
    str =
        forward_lem 1 t.str (omega (arith, h.str))
        ∙ omega (arith, h.str, length-append line (ch ∷ []));
    len = omega (arith, h.len, length-append line (ch ∷ []));
    there = Spans-append line (store_byte t.memory t.str ch) buf ch (kept ch) (
        ap (store_byte t.memory t.str ch) (sym h.str)
        ∙ store_byte_self t.memory t.str ch
        ∙ omega arith);
    small = omega (arith, length-append line (ch ∷ []));
    inside = at_end room ch;
  }

  pub new_line-IsLine :
      (left : List ℕ)
      → length line < count
      → IsLine m buf count (record { line = line; left = left }) (new_line left t)
  unfolding new_line
  new_line-IsLine left room = record {
    len = h.len;
    there = kept 0;
    unread = refl;
    ended = elim (Bool-cases (ltb t.len count)) [
      | inl e ↦ rw e (
          ap (store_byte t.memory t.str 0) (omega (arith, h.str, h.len))
          ∙ store_byte_self t.memory t.str 0)
      | inr e ↦ rw e refl
    ];
    inside = at_end room 0;
  }

pub on_char-Holds :
    (m : Memory) (buf count ch : ℕ) (line : List ℕ) (t : Typing)
    → buf + count < 2 ^ 32
    → ch < 256
    → length line < count
    → Holds m buf count line t
    → Holds m buf count (edit ch line) (on_char buf ch t)
unfolding on_char
on_char-Holds m buf count ch line t fits byte room h = elim (Bool-cases (ch == code code_ctrl_l)) [
  | inl e ↦ rw e (clear_screen-Holds m buf count line t h room)
  | inr e ↦ elim (Bool-cases (ch == code code_ctrl_u)) [
    | inl f ↦ rw (e, f) (clear_line-Holds m buf count line t h)
    | inr f ↦ elim (Bool-cases (ch == 8)) [
      | inl g ↦ rw (e, f, g) (back_space-Holds m buf count line t h)
      | inr g ↦ rw (e, f, g) (type_char-Holds m buf count line t h ch byte fits room)
    ]
  ]
]
