-- ===== src/Dll.antt =====
-- lib/kernel/list.c: doubly linked lists through nodes that stand inside other structures.
-- The memory is seen through the two links of each node. A list has two end nodes of its own.
pub mod Shape
pub mod Ops
pub mod Laws
mod Tests
use mmzzos.Base.{
  ℕ, zero, suc, ◌≡◌, Bool, true, false, Option, none, some, ◌==◌, if◌then◌else◌, not, Result, ok,
  panic, ◌>>=◌, ◌>>◌, assert,
}

abbrev pub Addr : Type 0
Addr = ℕ

-- `interrupts` is the interrupt flag of the processor.
pub record Store : Type 0 where
  pub pre : Addr → Addr
  pub nxt : Addr → Addr
  pub interrupts : Bool

-- `struct List`: the addresses of `list->head` and `list->tail`.
pub record Ends : Type 0 where
  pub head : Addr
  pub tail : Addr

abbrev pub null : Addr
null = 0

unfoldable pub update : (Addr → Addr) → Addr → Addr → Addr → Addr
update f a v b = if b == a then v else f b

abbrev pub set_pre : Addr → Addr → Store → Store
set_pre a v s = record s { pre = update s.pre a v }

abbrev pub set_nxt : Addr → Addr → Store → Store
set_nxt a v s = record s { nxt = update s.nxt a v }

-- `bool status=interrupt_status(); interrupt_disable(); … if(status)interrupt_enable();`
unfoldable pub guarded : (Store → Store) → Store → Store
guarded body s =
    let s' = body (record s { interrupts = false }) in
    if s.interrupts then record s' { interrupts = true } else s'

unfoldable pub init : Ends → Store → Store
init l s =
    let s = set_nxt l.tail null s in
    let s = set_pre l.head null s in let s = set_nxt l.head l.tail s in set_pre l.tail l.head s

unfoldable pub is_empty : Ends → Store → Bool
is_empty l s = s.nxt l.head == l.tail

unfoldable pub push_front : Ends → Addr → Store → Store
push_front l node = guarded (λ s.
    let s = set_nxt node (s.nxt l.head) s in
    let s = set_pre node l.head s in let s = set_pre (s.nxt node) node s in set_nxt l.head node s)

unfoldable pub push_back : Ends → Addr → Store → Store
push_back l node = guarded (λ s.
    let s = set_nxt node l.tail s in
    let s = set_pre node (s.pre l.tail) s in
    let s = set_pre l.tail node s in set_nxt (s.pre node) node s)

-- The list is not used.
unfoldable pub remove : Addr → Store → Store
remove node =
    guarded
      (λ s. let s = set_pre (s.nxt node) (s.pre node) s in set_nxt (s.pre node) (s.nxt node) s)

unfoldable pub pop_front : Ends → Store → Result Store
pop_front l s = do assert (not (is_empty l s)); ok (remove (s.nxt l.head) s)

unfoldable pub pop_back : Ends → Store → Result Store
pop_back l s = do assert (not (is_empty l s)); ok (remove (s.pre l.tail) s)

unfoldable pub front : Ends → Store → Addr
front l s = if is_empty l s then null else s.nxt l.head

unfoldable pub back : Ends → Store → Addr
back l s = if is_empty l s then null else s.pre l.tail

-- The walk of `ListTraversal`, on fuel; `none` means that the fuel ran out.
walk : ℕ → Addr → (Addr → Bool) → Store → Addr → Option Addr
walk zero end func s elem = none
walk (suc fuel) end func s elem =
    let rest = walk fuel end func s (s.nxt elem) in
    if elem == end then some null else if func elem then some elem else rest

unfoldable pub traversal : ℕ → Ends → (Addr → Bool) → Store → Option Addr
unfolding walk
traversal fuel l func s =
    let elem = s.nxt l.head in if is_empty l s then some null else walk fuel l.tail func s elem
