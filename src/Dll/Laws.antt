-- ===== src/Dll/Laws.antt =====
-- Each operation of list.c on a store that holds a list.
use mathlib.Core.List.{append_assoc, append-nil}
use mmzzos.Base.{
  ℕ, zero, suc, ◌<◌, ◌≡◌, sym, subst, ◌≢◌, List, [], ◌∷◌, ◌++◌, arith, Bool, true, false, some,
  if◌then◌else◌, length, panic, Ensures, ==_refl,
}
use mmzzos.Dll.{
  Addr, Store, Ends, null, update, init, is_empty, push_front, push_back, remove, pop_front,
  pop_back, front, back, walk, traversal,
}
use mmzzos.Dll.Shape.{Distinct, Linked, IsList, last, Linked-split, Fresh-split}
use mmzzos.Dll.Ops.{
  IsNew, Leaves, push_back-Inserted, push_front-Inserted, remove-Unlinked, insert-Leaves,
  remove-Leaves, links-at, links-of, sides, first,
}

module _ (l : Ends) (s : Store) where
  -- `ListPushFront` of a new node puts it in front of the others.
  pub push_front_lem :
      (xs : List Addr) (n : Addr)
      → IsList l xs s
      → IsNew l xs n
      → Leaves l xs (n ∷ xs) n s (push_front l n s)
  push_front_lem xs n is new =
      let (np, nq) = sides l s [] xs n new in
      insert-Leaves l s [] xs n (push_front l n s)
        (push_front-Inserted l s n (first xs l.tail) (links-at l s [] xs is).0 np nq) is new

  -- `ListPushBack` of a new node puts it behind the others.
  pub push_back_lem :
      (xs : List Addr) (n : Addr)
      → IsList l xs s
      → IsNew l xs n
      → Leaves l xs (xs ++ n ∷ []) n s (push_back l n s)
  push_back_lem xs n is new =
      subst (λ ys. Leaves l ys (xs ++ n ∷ []) n s (push_back l n s)) (append-nil xs)
        (insert-Leaves l s xs [] n (push_back l n s)
          (push_back-Inserted l s n (last l.head xs) (links-at l s xs [] is').1 nq np) is' new')
    where
      is' : IsList l (xs ++ []) s
      is' = subst (λ ys. IsList l ys s) (sym (append-nil xs)) is

      new' : IsNew l (xs ++ []) n
      new' = subst (λ ys. IsNew l ys n) (sym (append-nil xs)) new

      np : n ≢ last l.head xs
      np = (sides l s xs [] n new').0

      nq : n ≢ l.tail
      nq = (sides l s xs [] n new').1

  -- `ListRemove` of any node of the list takes that node out and leaves the others in order.
  pub remove_lem :
      (u w : List Addr) (n : Addr)
      → IsList l (u ++ n ∷ w) s
      → Leaves l (u ++ n ∷ w) (u ++ w) n s (remove n s)
  remove_lem u w n is =
      let (e, e', np, nq) = links-of l s u w n is in
      remove-Leaves l s u w n (remove n s)
        (remove-Unlinked l s n (last l.head u) (first w l.tail) e e' np nq) is

  -- The first node is not the end node.
  head-ne-tail : (x : Addr) (xs : List Addr) → IsList l (x ∷ xs) s → x ≢ l.tail
  head-ne-tail x xs is = (Fresh-split x xs (l.tail ∷ []) is.distinct.1.0).1.0

  -- `ListEmpty` tells whether the list has a node.
  pub is_empty_lem :
      (xs : List Addr) → IsList l xs s → is_empty l s ≡ elim xs [ [] ↦ true | x ∷ _ ↦ false ]
  unfolding is_empty
  is_empty_lem [] is = rw is.links.0 (==_refl l.tail)
  is_empty_lem (x ∷ xs) is =
      let ne = head-ne-tail x xs is in let e = is.links.0 in rw e (ground arith)

  -- `ListPopFront` stops the machine on an empty list, and takes the first node out of any other.
  pub pop_front_lem :
      (IsList l [] s → pop_front l s ≡ panic)
      × ((x : Addr) (xs : List Addr)
          → IsList l (x ∷ xs) s
          → Ensures (Leaves l (x ∷ xs) xs x s) (pop_front l s))
  unfolding pop_front
  pop_front_lem = (
    λ is. rw (is_empty_lem [] is),
    λ x xs is. rw (is_empty_lem (x ∷ xs) is, is.links.0) (remove_lem [] xs x is),
  )

  -- `ListPopBack` stops the machine on an empty list, and takes the last node out of any other.
  pub pop_back_lem :
      (IsList l [] s → pop_back l s ≡ panic)
      × ((xs : List Addr) (x : Addr)
          → IsList l (xs ++ x ∷ []) s
          → Ensures (Leaves l (xs ++ x ∷ []) xs x s) (pop_back l s))
  unfolding pop_back
  pop_back_lem = (
    λ is. rw (is_empty_lem [] is),
    λ xs x is.
        rw (is_empty-snoc xs x is, tail-link xs x is)
          (subst (λ ys. Leaves l (xs ++ x ∷ []) ys x s (remove x s)) (append-nil xs)
            (remove_lem xs [] x is)),
  )
    where
      is_empty-snoc : (xs : List Addr) (x : Addr) → IsList l (xs ++ x ∷ []) s → is_empty l s ≡ false
      is_empty-snoc [] x is = is_empty_lem (x ∷ []) is
      is_empty-snoc (y ∷ xs) x is = is_empty_lem (y ∷ xs ++ x ∷ []) is

      tail-link : (xs : List Addr) (x : Addr) → IsList l (xs ++ x ∷ []) s → s.pre l.tail ≡ x
      tail-link xs x is =
          let k =
            subst (λ r. Linked s l.head r) (append_assoc xs (x ∷ []) (l.tail ∷ [])) is.links in
          let (_, _, _, e) = Linked-split s l.head xs x (l.tail ∷ []) k in e.1

  -- `ListFront` is the first node, and `NULL` for an empty list; it changes nothing.
  pub front_lem : (xs : List Addr) → IsList l xs s → front l s ≡ elim xs [ [] ↦ null | x ∷ _ ↦ x ]
  unfolding front
  front_lem [] is = rw (is_empty_lem [] is)
  front_lem (x ∷ xs) is = rw (is_empty_lem (x ∷ xs) is) is.links.0

  -- `ListBack` is the last node, and `NULL` for an empty list.
  pub back_lem :
      (xs : List Addr) → IsList l xs s → back l s ≡ elim xs [ [] ↦ null | x ∷ r ↦ last x r ]
  unfolding back
  back_lem [] is = rw (is_empty_lem [] is)
  back_lem (x ∷ xs) is =
      let k = subst (λ r. IsList l r s) (sym (append-nil (x ∷ xs))) is in
      rw (is_empty_lem (x ∷ xs) is) (links-at l s (x ∷ xs) [] k).1

  -- The first node that the callback accepts, `NULL` where it accepts none.
  abbrev pub find : (Addr → Bool) → List Addr → Addr
  find func [] = null
  find func (x ∷ xs) = if func x then x else find func xs

  walk_lem :
      (func : Addr → Bool) (a : Addr) (xs : List Addr) (fuel : ℕ)
      → Linked s a (xs ++ l.tail ∷ [])
      → Distinct (xs ++ l.tail ∷ [])
      → length xs < fuel
      → walk fuel l.tail func s (s.nxt a) ≡ some (find func xs)
  unfolding walk
  walk_lem func a xs zero k d lt = absurd (omega arith)
  walk_lem func a [] (suc fuel) k d lt = rw k.0 (rw (==_refl l.tail))
  walk_lem func a (x ∷ xs) (suc fuel) k d lt =
      let ne = (Fresh-split x xs (l.tail ∷ []) d.0).1.0 in
      rw k.0 (ground (arith, walk_lem func x xs fuel k.2 d.1 (omega arith)))

  -- `ListTraversal` ends, within one round for each node and one more, and returns the first node
  -- that the callback accepts, or `NULL`.
  pub traversal_lem :
      (func : Addr → Bool) (xs : List Addr) (fuel : ℕ)
      → IsList l xs s
      → length xs < fuel
      → traversal fuel l func s ≡ some (find func xs)
  unfolding traversal
  traversal_lem func [] fuel is lt = rw (is_empty_lem [] is)
  traversal_lem func (x ∷ xs) fuel is lt =
      rw (is_empty_lem (x ∷ xs) is) (walk_lem func l.head (x ∷ xs) fuel is.links is.distinct.1 lt)

  -- `ListInit` makes an empty list of two end nodes that differ.
  pub init_lem : l.head ≢ l.tail → IsList l [] (init l s)
  unfolding init update
  init_lem ne = record { links = ground arith; distinct = ground arith }
