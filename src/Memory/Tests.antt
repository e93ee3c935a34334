-- ===== src/Memory/Tests.antt =====
-- Memory blocks at small inputs, and their theorems at inputs that meet their hypotheses.
use custom_peach_os.Prelude.{
  ℕ, zero, suc, ◌<◌, ◌≡◌, refl, inl, some, [], ◌∷◌, arith, length, if◌then◌else◌,
}
use custom_peach_os.Prelude.Int.{negsuc}
use custom_peach_os.Heap.{align_value_to_upper}
use custom_peach_os.Heap.Search.{Run}
use custom_peach_os.Heap.Alloc.{blocks_for, IsPlaced, address_of}
use custom_peach_os.Heap.Whole.{IsWhole}
use custom_peach_os.Memory.{Mem, memcmp, Kernel, kzalloc, kfree}
use custom_peach_os.Memory.Blocks.{inside, kzalloc-free}

-- Each byte is its address.
abbrev ramp : Mem
ramp a = a

-- A byte over 127 is a negative `char`.
memcmp_signed : memcmp ramp 200 100 1 ≡ negsuc 0
unfolding memcmp
memcmp_signed = refl

-- A heap of two free blocks.
abbrev kernel : Kernel
kernel = record { heap = record { entries = 0 ∷ 0 ∷ []; saddr = 0x0100_0000 }; mem = ramp }

kernel-IsPlaced : IsPlaced kernel.heap
kernel-IsPlaced = record { not_null = omega arith; in_space = omega arith; offsets = omega arith }

kernel-IsWhole : IsWhole kernel.heap.entries
kernel-IsWhole zero lt = inl refl
kernel-IsWhole (suc zero) lt = inl refl
kernel-IsWhole (suc (suc k)) lt = absurd (omega arith)

Run-at_0 : Run kernel.heap.entries 0 2
Run-at_0 zero le lt = refl
Run-at_0 (suc zero) le lt = refl
Run-at_0 (suc (suc k)) le lt = absurd (omega arith)

kernel-Run : Run kernel.heap.entries 0 (blocks_for 5000)
unfolding align_value_to_upper
kernel-Run = Run-at_0

kernel-some_block : 0 < blocks_for 5000
unfolding align_value_to_upper
kernel-some_block = omega arith

kzalloc-free_example :
    (s : ℕ) × (k' : Kernel) × (kzalloc kernel 5000 ≡ some (address_of kernel.heap s, k'))
    × (s < length kernel.heap.entries)
    × ((a : ℕ) → k'.mem a ≡ (if inside (address_of kernel.heap s) 5000 a then 0 else kernel.mem a))
    × (kfree k' (address_of kernel.heap s) ≡ some (record k' { heap = kernel.heap }))
kzalloc-free_example =
    kzalloc-free kernel 5000 0 kernel-IsPlaced kernel-IsWhole kernel-some_block kernel-Run
