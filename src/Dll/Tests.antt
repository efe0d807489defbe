-- ===== src/Dll/Tests.antt =====
-- A list of two nodes, and the theorems applied to it.
use mmzzos.Base.{◌≡◌, refl, [], ◌∷◌, arith, Bool, true, ◌==◌, if◌then◌else◌}
use mmzzos.Dll.{Addr, Store, Ends, push_front, update, guarded}
use mmzzos.Dll.Shape.{IsList}

abbrev ends : Ends
ends = record { head = 1; tail = 2 }

-- 1 ↔ 10 ↔ 11 ↔ 2
abbrev two : Store
two = record {
  pre = λ a. if a == 2 then 11 else if a == 11 then 10 else if a == 10 then 1 else 0;
  nxt = λ a. if a == 1 then 10 else if a == 10 then 11 else if a == 11 then 2 else 0;
  interrupts = true;
}

two-IsList : IsList ends (10 ∷ 11 ∷ []) two
two-IsList = record { links = omega arith; distinct = omega arith }

is_twelve : Addr → Bool
is_twelve a = a == 12

pushed_then_popped : (push_front ends 12 two).nxt 12 ≡ 10
unfolding push_front guarded update
pushed_then_popped = refl
