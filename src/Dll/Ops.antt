-- ===== src/Dll/Ops.antt =====
-- The list operations on the nodes that a list holds.
use mmzzos.Base.{◌≡◌, refl, sym, ap, subst, ◌∙◌, ◌≢◌, List, [], ◌∷◌, ◌++◌, arith}
use mathlib.Core.List.{append_assoc}
use mmzzos.Dll.{Addr, Store, Ends, update, guarded, push_front, push_back, remove}
use mmzzos.Dll.Shape.{
  Fresh, Distinct, Linked, IsList, last, Relinked, insert-Linked, remove-Linked, Linked-split,
  Distinct-insert, Distinct-remove, Fresh-split, Fresh-last,
}

-- What a node may be to be linked in: none of the list's.
abbrev pub IsNew : Ends → List Addr → Addr → Type 0
IsNew l xs n = Fresh n (l.head ∷ xs ++ l.tail ∷ [])

-- `n` has been linked in between `p` and `q`, and the interrupt flag is as it was.
pub record Inserted (s s' : Store) (n p q : Addr) : Type 0 where
  pub same : Relinked s s' n p q
  pub new : (s'.nxt p ≡ n) × (s'.pre n ≡ p) × (s'.nxt n ≡ q) × (s'.pre q ≡ n)
  pub interrupts : s'.interrupts ≡ s.interrupts

pub record Unlinked (s s' : Store) (n p q : Addr) : Type 0 where
  pub same : Relinked s s' n p q
  pub new : (s'.nxt p ≡ q) × (s'.pre q ≡ p)
  pub interrupts : s'.interrupts ≡ s.interrupts

module _ (l : Ends) (s : Store) where
  pub push_back-Inserted :
      (n p : Addr) → s.pre l.tail ≡ p → n ≢ l.tail → n ≢ p → Inserted s (push_back l n s) n p l.tail
  unfolding push_back guarded update
  push_back-Inserted n p e ne ne' = record {
    same = record { nxt_same = λ a h h'. ground arith; pre_same = λ a h h'. ground arith };
    new = ground arith;
    interrupts = ground arith;
  }

  pub push_front-Inserted :
      (n q : Addr)
      → s.nxt l.head ≡ q
      → n ≢ l.head
      → n ≢ q
      → Inserted s (push_front l n s) n l.head q
  unfolding push_front guarded update
  push_front-Inserted n q e ne ne' = record {
    same = record { nxt_same = λ a h h'. ground arith; pre_same = λ a h h'. ground arith };
    new = ground arith;
    interrupts = ground arith;
  }

  pub remove-Unlinked :
      (n p q : Addr) → s.pre n ≡ p → s.nxt n ≡ q → n ≢ p → n ≢ q → Unlinked s (remove n s) n p q
  unfolding remove guarded update
  remove-Unlinked n p q e e' ne ne' = record {
    same = record { nxt_same = λ a h h'. ground arith; pre_same = λ a h h'. ground arith };
    new = ground arith;
    interrupts = ground arith;
  }

-- The call leaves the list with the nodes `ys`, the interrupt flag as it was, and the links of all
-- nodes but `n` and those of the old list, whose nodes are `xs`.
pub record Leaves (l : Ends) (xs ys : List Addr) (n : Addr) (s s' : Store) : Type 0 where
  pub list : IsList l ys s'
  pub interrupts : s'.interrupts ≡ s.interrupts
  pub others :
      (a : Addr)
      → a ≢ n
      → Fresh a (l.head ∷ xs ++ l.tail ∷ [])
      → (s'.nxt a ≡ s.nxt a) × (s'.pre a ≡ s.pre a)

-- The node behind the end node, or the other end node.
abbrev pub first : List Addr → Addr → Addr
first [] t = t
first (x ∷ xs) t = x

rest : List Addr → Addr → List Addr
rest [] t = []
rest (x ∷ xs) t = xs ++ t ∷ []

first-rest : (w : List Addr) (t : Addr) → w ++ t ∷ [] ≡ first w t ∷ rest w t
unfolding rest
first-rest [] t = refl
first-rest (x ∷ w) t = refl

Fresh-first : (a : Addr) (w : List Addr) (t : Addr) → Fresh a (w ++ t ∷ []) → a ≢ first w t
Fresh-first a [] t f = f.0
Fresh-first a (x ∷ w) t f = f.0

-- The path through the nodes `u` and `w`, cut between them.
cut : (u w : List Addr) (t : Addr) → (u ++ w) ++ t ∷ [] ≡ u ++ first w t ∷ rest w t
cut u w t = append_assoc u w (t ∷ []) ∙ ap (λ r. u ++ r) (first-rest w t)

-- The same with `n` between them.
cut-with :
    (n : Addr) (u w : List Addr) (t : Addr) → (u ++ n ∷ w) ++ t ∷ [] ≡ u ++ n ∷ first w t ∷ rest w t
cut-with n u w t = append_assoc u (n ∷ w) (t ∷ []) ∙ ap (λ r. u ++ n ∷ r) (first-rest w t)

module _ (l : Ends) (s : Store) (u w : List Addr) where
  abbrev pub p : Addr
  p = last l.head u

  abbrev pub q : Addr
  q = first w l.tail

  -- The links at a place of the list.
  pub links-at : IsList l (u ++ w) s → (s.nxt p ≡ q) × (s.pre q ≡ p)
  links-at is =
      let k = subst (λ r. Linked s l.head r) (cut u w l.tail) is.links in
      let (_, e, e', _) = Linked-split s l.head u q (rest w l.tail) k in (e, e')

  -- A node that is fresh is neither side of the place.
  pub sides : (a : Addr) → Fresh a (l.head ∷ (u ++ w) ++ l.tail ∷ []) → (a ≢ p) × (a ≢ q)
  sides a f =
      let f' = subst (λ r. Fresh a (l.head ∷ r)) (cut u w l.tail) f in
      let (fu, fw) = Fresh-split a u (q ∷ rest w l.tail) f'.1 in
      (Fresh-last a l.head u f'.0 fu, fw.0)

  pub insert-Leaves :
      (n : Addr) (s' : Store)
      → Inserted s s' n p q
      → IsList l (u ++ w) s
      → IsNew l (u ++ w) n
      → Leaves l (u ++ w) (u ++ n ∷ w) n s s'
  insert-Leaves n s' ins is new =
      let k = subst (λ r. Linked s l.head r) (cut u w l.tail) is.links in
      let d = subst (λ r. Distinct (l.head ∷ r)) (cut u w l.tail) is.distinct in
      let f = subst (λ r. Fresh n (l.head ∷ r)) (cut u w l.tail) new in
      let k' = insert-Linked ins.same l.head u (rest w l.tail) refl k d f ins.new in
      let d' = Distinct-insert n (l.head ∷ u) (q ∷ rest w l.tail) d f in
      record {
        list = record {
          links = subst (λ r. Linked s' l.head r) (sym (cut-with n u w l.tail)) k';
          distinct = subst (λ r. Distinct (l.head ∷ r)) (sym (cut-with n u w l.tail)) d';
        };
        interrupts = ins.interrupts;
        others = λ a ne f.
            let (np, nq) = sides a f in (ins.same.nxt_same a ne np, ins.same.pre_same a ne nq);
      }

  -- The links of a node of the list, and the node beside its neighbours.
  pub links-of :
      (n : Addr) → IsList l (u ++ n ∷ w) s → (s.pre n ≡ p) × (s.nxt n ≡ q) × (n ≢ p) × (n ≢ q)
  links-of n is =
      let k = subst (λ r. Linked s l.head r) (cut-with n u w l.tail) is.links in
      let d = subst (λ r. Distinct (l.head ∷ r)) (cut-with n u w l.tail) is.distinct in
      let (_, _, e, e') = Linked-split s l.head u n (q ∷ rest w l.tail) k in
      let (_, f) = Distinct-remove n (l.head ∷ u) (q ∷ rest w l.tail) d in
      let (fu, fw) = Fresh-split n u (q ∷ rest w l.tail) f.1 in
      (e, e'.0, Fresh-last n l.head u f.0 fu, fw.0)

  pub remove-Leaves :
      (n : Addr) (s' : Store)
      → Unlinked s s' n p q
      → IsList l (u ++ n ∷ w) s
      → Leaves l (u ++ n ∷ w) (u ++ w) n s s'
  remove-Leaves n s' out is =
      let k = subst (λ r. Linked s l.head r) (cut-with n u w l.tail) is.links in
      let d = subst (λ r. Distinct (l.head ∷ r)) (cut-with n u w l.tail) is.distinct in
      let k' = remove-Linked out.same l.head u (rest w l.tail) refl k d out.new in
      let (d', _) = Distinct-remove n (l.head ∷ u) (q ∷ rest w l.tail) d in
      record {
        list = record {
          links = subst (λ r. Linked s' l.head r) (sym (cut u w l.tail)) k';
          distinct = subst (λ r. Distinct (l.head ∷ r)) (sym (cut u w l.tail)) d';
        };
        interrupts = out.interrupts;
        others = λ a ne f.
            let f' = subst (λ r. Fresh a (l.head ∷ r)) (cut-with n u w l.tail) f in
            let (fu, fw) = Fresh-split a u (n ∷ q ∷ rest w l.tail) f'.1 in
            (out.same.nxt_same a ne (Fresh-last a l.head u f'.0 fu), out.same.pre_same a ne fw.1.0);
      }
