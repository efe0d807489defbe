-- ===== src/Dll/Shape.antt =====
-- What it means that a store holds a list, and how one relinking changes it.
use mmzzos.Base.{◌≡◌, sym, ap, subst, ◌∙◌, ◌≢◌, List, [], ◌∷◌, ◌++◌}
use mmzzos.Dll.{Addr, Store, Ends}

abbrev pub Fresh : Addr → List Addr → Type 0
Fresh a [] = Unit
Fresh a (x ∷ xs) = (a ≢ x) × Fresh a xs

abbrev pub Distinct : List Addr → Type 0
Distinct [] = Unit
Distinct (x ∷ xs) = Fresh x xs × Distinct xs

-- From `x` the links lead through `r` and back.
abbrev pub Linked : Store → Addr → List Addr → Type 0
Linked s x [] = Unit
Linked s x (y ∷ r) = (s.nxt x ≡ y) × (s.pre y ≡ x) × Linked s y r

-- The nodes of the list are `xs`, from front to back.
pub record IsList (l : Ends) (xs : List Addr) (s : Store) : Type 0 where
  pub links : Linked s l.head (xs ++ l.tail ∷ [])
  pub distinct : Distinct (l.head ∷ xs ++ l.tail ∷ [])

-- The last of `x` and `r`.
abbrev pub last : Addr → List Addr → Addr
last x [] = x
last x (y ∷ r) = last y r

pub Fresh-last : (a x : Addr) (r : List Addr) → a ≢ x → Fresh a r → a ≢ last x r
Fresh-last a x [] ne f = ne
Fresh-last a x (y ∷ r) ne f = Fresh-last a y r f.0 f.1

pub Fresh-append : (a : Addr) (u w : List Addr) → Fresh a u → Fresh a w → Fresh a (u ++ w)
Fresh-append a [] w f g = g
Fresh-append a (x ∷ u) w f g = (f.0, Fresh-append a u w f.1 g)

pub Fresh-split : (a : Addr) (u w : List Addr) → Fresh a (u ++ w) → Fresh a u × Fresh a w
Fresh-split a [] w f = (tt, f)
Fresh-split a (x ∷ u) w f = let (g, h) = Fresh-split a u w f.1 in ((f.0, g), h)

pub Distinct-insert :
    (n : Addr) (u w : List Addr) → Distinct (u ++ w) → Fresh n (u ++ w) → Distinct (u ++ n ∷ w)
Distinct-insert n [] w d f = (f, d)
Distinct-insert n (x ∷ u) w d f =
    let (g, h) = Fresh-split x u w d.0 in
    (Fresh-append x u (n ∷ w) g ((λ e. f.0 (sym e)), h), Distinct-insert n u w d.1 f.1)

pub Distinct-remove :
    (n : Addr) (u w : List Addr) → Distinct (u ++ n ∷ w) → Distinct (u ++ w) × Fresh n (u ++ w)
Distinct-remove n [] w d = (d.1, d.0)
Distinct-remove n (x ∷ u) w d =
    let (g, h) = Fresh-split x u (n ∷ w) d.0 in
    let (d', f) = Distinct-remove n u w d.1 in
    ((Fresh-append x u w g h.1, d'), ((λ e. h.0 (sym e)), f))

-- `s'` is `s` but for the links of `n`, the forward link of `p` and the backward link of `q`.
pub record Relinked (s s' : Store) (n p q : Addr) : Type 0 where
  pub nxt_same : (a : Addr) → a ≢ n → a ≢ p → s'.nxt a ≡ s.nxt a
  pub pre_same : (a : Addr) → a ≢ n → a ≢ q → s'.pre a ≡ s.pre a

module _ {s s' : Store} {n p q : Addr} (same : Relinked s s' n p q) where
  -- The part in front of the place.
  left :
      (x : Addr) (u : List Addr)
      → p ≡ last x u
      → Linked s x u
      → Distinct (x ∷ u)
      → Fresh n (x ∷ u)
      → Fresh q (x ∷ u)
      → Linked s' x u
  left x [] e k d f g = tt
  left x (y ∷ r) e k d f g = (
    same.nxt_same x (λ h. f.0 (sym h)) (λ h. Fresh-last x y r d.0.0 d.0.1 (h ∙ e)) ∙ k.0,
    same.pre_same y (λ h. f.1.0 (sym h)) (λ h. g.1.0 (sym h)) ∙ k.1,
    left y r e k.2 d.1 f.1 g.1,
  )

  -- The part behind the place.
  right :
      (x : Addr) (v : List Addr)
      → Linked s x v
      → Fresh p (x ∷ v)
      → Fresh n (x ∷ v)
      → Fresh q v
      → Linked s' x v
  right x [] k f g h = tt
  right x (y ∷ r) k f g h = (
    same.nxt_same x (λ e. g.0 (sym e)) (λ e. f.0 (sym e)) ∙ k.0,
    same.pre_same y (λ e. g.1.0 (sym e)) (λ e. h.0 (sym e)) ∙ k.1,
    right y r k.2 f.1 g.1 h.1,
  )

Linked-append :
    (s : Store) (x : Addr) (u : List Addr) (w : Addr) (v : List Addr)
    → Linked s x u
    → s.nxt (last x u) ≡ w
    → s.pre w ≡ last x u
    → Linked s w v
    → Linked s x (u ++ w ∷ v)
Linked-append s x [] w v k e e' k' = (e, e', k')
Linked-append s x (y ∷ r) w v k e e' k' = (k.0, k.1, Linked-append s y r w v k.2 e e' k')

pub Linked-split :
    (s : Store) (x : Addr) (u : List Addr) (w : Addr) (v : List Addr)
    → Linked s x (u ++ w ∷ v)
    → Linked s x u × (s.nxt (last x u) ≡ w) × (s.pre w ≡ last x u) × Linked s w v
Linked-split s x [] w v k = (tt, k.0, k.1, k.2)
Linked-split s x (y ∷ r) w v k =
    let (k', e, e', k'') = Linked-split s y r w v k.2 in ((k.0, k.1, k'), e, e', k'')

Distinct-left : (u w : List Addr) → Distinct (u ++ w) → Distinct u
Distinct-left [] w d = tt
Distinct-left (x ∷ u) w d = ((Fresh-split x u w d.0).0, Distinct-left u w d.1)

last-Fresh : (x : Addr) (u w : List Addr) → Distinct (x ∷ u ++ w) → Fresh (last x u) w
last-Fresh x [] w d = d.0
last-Fresh x (y ∷ u) w d = last-Fresh y u w d.1

Distinct-right : (u w : List Addr) → Distinct (u ++ w) → Distinct w
Distinct-right [] w d = d
Distinct-right (x ∷ u) w d = Distinct-right u w d.1

module _ {s s' : Store} {n p q : Addr} (same : Relinked s s' n p q) where
  -- The two parts of a path survive a relinking between them.
  parts :
      (h : Addr) (u v : List Addr)
      → p ≡ last h u
      → Linked s h u
      → Linked s q v
      → Distinct (h ∷ u ++ q ∷ v)
      → Fresh n (h ∷ u ++ q ∷ v)
      → Linked s' h u × Linked s' q v
  parts h u v e k k' d f =
      let (fl, fr) = Fresh-split n (h ∷ u) (q ∷ v) f in
      let gl : Fresh q (h ∷ u) = (Fresh-split q (h ∷ u) v (Distinct-remove q (h ∷ u) v d).1).0 in
      let dr : Distinct (q ∷ v) = Distinct-right (h ∷ u) (q ∷ v) d in
      (
        left same h u e k (Distinct-left (h ∷ u) (q ∷ v) d) fl gl,
        right same q v k' (subst (λ a. Fresh a (q ∷ v)) (sym e) (last-Fresh h u (q ∷ v) d)) fr dr.0,
      )

  -- `n` comes in between.
  pub insert-Linked :
      (h : Addr) (u v : List Addr)
      → p ≡ last h u
      → Linked s h (u ++ q ∷ v)
      → Distinct (h ∷ u ++ q ∷ v)
      → Fresh n (h ∷ u ++ q ∷ v)
      → (s'.nxt p ≡ n) × (s'.pre n ≡ p) × (s'.nxt n ≡ q) × (s'.pre q ≡ n)
      → Linked s' h (u ++ n ∷ q ∷ v)
  insert-Linked h u v e k d f new =
      let (kl, _, _, kr) = Linked-split s h u q v k in
      let (kl', kr') = parts h u v e kl kr d f in
      Linked-append s' h u n (q ∷ v) kl' (ap s'.nxt (sym e) ∙ new.0) (new.1 ∙ e) (new.2, new.3, kr')

  -- `n` goes out from between.
  pub remove-Linked :
      (h : Addr) (u v : List Addr)
      → p ≡ last h u
      → Linked s h (u ++ n ∷ q ∷ v)
      → Distinct (h ∷ u ++ n ∷ q ∷ v)
      → (s'.nxt p ≡ q) × (s'.pre q ≡ p)
      → Linked s' h (u ++ q ∷ v)
  remove-Linked h u v e k d new =
      let (kl, _, _, kr) = Linked-split s h u n (q ∷ v) k in
      let (d', f) = Distinct-remove n (h ∷ u) (q ∷ v) d in
      let (kl', kr') = parts h u v e kl kr.2 d' f in
      Linked-append s' h u q v kl' (ap s'.nxt (sym e) ∙ new.0) (new.1 ∙ e) kr'
