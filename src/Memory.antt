-- ===== src/Memory.antt =====
-- src/memory/memory.c, and `kmalloc`, `kzalloc` and `kfree` of src/memory/heap/kheap.c. The memory
-- is a byte for each address.
pub mod Blocks
mod Tests
use custom_peach_os.Prelude.{
  ℕ, zero, suc, ◌+◌, ◌-◌, ◌%◌, ◌^◌, Bool, Option, none, some, ltb, ◌==◌, if◌then◌else◌,
}
use custom_peach_os.Prelude.Int.{ℤ, pos, negsuc, ltb_ℤ}
use custom_peach_os.Heap
use custom_peach_os.Heap.{Heap}

abbrev pub Mem : Type 0
Mem = ℕ → ℕ

abbrev pub store : Mem → ℕ → ℕ → Mem
store mem p v a = if a == p then v else mem a

-- A `char` is signed.
abbrev pub signed8 : ℕ → ℤ
signed8 c = if ltb c 128 then pos c else negsuc (255 - c)

unfoldable pub memset_loop : ℕ → Mem → ℕ → ℕ → Mem
memset_loop zero mem p c = mem
memset_loop (suc rounds) mem p c = memset_loop rounds (store mem p (c % 2 ^ 8)) (p + 1) c

pub memset : Mem → ℕ → ℕ → ℕ → Mem
memset mem ptr c size = memset_loop size mem ptr c

-- `count` is the number of rounds left.
unfoldable pub memcmp : Mem → ℕ → ℕ → ℕ → ℤ
memcmp mem s1 s2 zero = pos 0
memcmp mem s1 s2 (suc count) =
    let rest = memcmp mem (s1 + 1) (s2 + 1) count in
    if mem s1 == mem s2
    then rest
    else (if ltb_ℤ (signed8 (mem s1)) (signed8 (mem s2)) then negsuc 0 else pos 1)

unfoldable pub memcpy : Mem → ℕ → ℕ → ℕ → Mem
memcpy mem dest src zero = mem
memcpy mem dest src (suc len) = memcpy (store mem dest (mem src)) (dest + 1) (src + 1) len

-- The kernel's heap and the memory that it hands out.
pub record Kernel : Type 0 where
  pub heap : Heap
  pub mem : Mem

unfoldable pub kmalloc : Kernel → ℕ → Option (ℕ × Kernel)
kmalloc k size = elim (Heap.malloc k.heap size) [
  | none ↦ none
  | some (ptr, heap) ↦ some (ptr, record k { heap = heap })
]

unfoldable pub kzalloc : Kernel → ℕ → Option (ℕ × Kernel)
kzalloc k size = elim (kmalloc k size) [
  | none ↦ none
  | some (ptr, k') ↦
      if ptr == 0 then some (0, k') else some (ptr, record k' { mem = memset k'.mem ptr 0 size })
]

unfoldable pub kfree : Kernel → ℕ → Option Kernel
kfree k ptr = elim (Heap.free k.heap ptr) [
  | none ↦ none
  | some heap ↦ some (record k { heap = heap })
]
