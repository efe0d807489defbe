-- ===== src/Mem/Tests.antt =====
-- Blocks of a small memory, and the theorems on memset, memcpy and memcmp applied to them.
use mmzzos.Base.{◌%◌, ◌≡◌, refl, arith, inl}
use mmzzos.Mem.{Memory, memcpy, memcmp, less}
use mmzzos.Mem.Copying.{Copied}
use mmzzos.Mem.Moving.{memcpy_lem}

abbrev counting : Memory
counting x = x % 251

memcpy_lem_example : Copied 3 99 9 counting (memcpy counting 3 99 9).0
memcpy_lem_example =
    memcpy_lem counting 3 99 9 (λ x. omega arith) (omega arith) (omega arith) (inl (omega arith))

memcmp-less : memcmp 9 counting 3 99 ≡ less
unfolding memcmp
memcmp-less = refl
