-- ===== src/Memory/Blocks.antt =====
-- The byte loops of memory.c, and `kzalloc` and `kfree` together.
use custom_peach_os.Prelude.{
  ℕ, zero, suc, ◌+◌, ◌-◌, ◌%◌, ◌^◌, ◌≤◌, ◌<◌, length, ◌≡◌, refl, sym, ap, ◌∙◌, ◌⊎◌, inl, inr, ◌↔◌,
  Bool, ◌&&◌, some, arith, ltb, leb, ◌==◌, if◌then◌else◌, Bool-cases,
}
use custom_peach_os.Prelude.Int.{pos}
use custom_peach_os.Heap
use custom_peach_os.Heap.{Heap}
use custom_peach_os.Heap.Search.{Run}
use custom_peach_os.Heap.Alloc.{blocks_for, IsPlaced, address_of, Allocates, malloc_lem}
use custom_peach_os.Heap.Whole.{IsWhole, free-malloc}
use custom_peach_os.Memory.{
  Mem, store, memset_loop, memset, memcmp, memcpy, Kernel, kmalloc, kzalloc, kfree,
}

abbrev pub inside : ℕ → ℕ → ℕ → Bool
inside p n a = leb p a && ltb a (p + n)

memset_loop-at :
    (n : ℕ) (mem : Mem) (p c a : ℕ)
    → memset_loop n mem p c a ≡ (if inside p n a then c % 2 ^ 8 else mem a)
unfolding memset_loop
memset_loop-at zero mem p c a = ground arith
memset_loop-at (suc n) mem p c a =
    ground (arith, memset_loop-at n (store mem p (c % 2 ^ 8)) (p + 1) c a)

-- `memset` writes the low byte of `c` to the `size` bytes from `ptr` on, and nowhere else.
pub memset_lem :
    (mem : Mem) (ptr c size a : ℕ)
    → memset mem ptr c size a ≡ (if inside ptr size a then c % 2 ^ 8 else mem a)
unfolding memset
memset_lem mem ptr c size a = memset_loop-at size mem ptr c a

shift : (mem : Mem) (s k : ℕ) → mem (s + 1 + k) ≡ mem (s + suc k)
shift mem s k = ap mem (omega arith)

same_head : (mem : Mem) (s1 s2 : ℕ) → mem (s1 + 0) ≡ mem (s2 + 0) → mem s1 ≡ mem s2
same_head mem s1 s2 h =
    ap mem {x = s1} {y = s1 + 0} (omega arith) ∙ h ∙ ap mem {x = s2 + 0} {y = s2} (omega arith)

same_step :
    (mem : Mem) (s1 s2 count : ℕ)
    → mem s1 ≡ mem s2
    → ((k : ℕ) → k < count → mem (s1 + 1 + k) ≡ mem (s2 + 1 + k))
    → (k : ℕ) → k < suc count
    → mem (s1 + k) ≡ mem (s2 + k)
same_step mem s1 s2 count e h zero lt =
    ap mem {x = s1 + 0} {y = s1} (omega arith) ∙ e ∙ ap mem {x = s2} {y = s2 + 0} (omega arith)
same_step mem s1 s2 count e h (suc k) lt = sym (shift mem s1 k) ∙ h k (omega arith) ∙ shift mem s2 k

-- `memcmp` returns 0 exactly when the two blocks hold the same bytes.
pub memcmp_zero :
    (mem : Mem) (s1 s2 count : ℕ)
    → (memcmp mem s1 s2 count ≡ pos 0) ↔ ((k : ℕ) → k < count → mem (s1 + k) ≡ mem (s2 + k))
unfolding memcmp
memcmp_zero mem s1 s2 zero = (λ e k lt. absurd (omega arith), λ h. refl)
memcmp_zero mem s1 s2 (suc count) = elim (Bool-cases (mem s1 == mem s2)) [
  | inr ne ↦ (
    λ e. absurd (ground arith),
    λ h. absurd (ground (arith, same_head mem s1 s2 (h 0 (omega arith)))),
  )
  | inl eq ↦ rw eq (
    λ e. same_step mem s1 s2 count (ground arith) ((memcmp_zero mem (s1 + 1) (s2 + 1) count).0 e),
    λ h.
        (memcmp_zero mem (s1 + 1) (s2 + 1) count).1
          (λ k lt. shift mem s1 k ∙ h (suc k) (omega arith) ∙ sym (shift mem s2 k)),
  )
]

memcpy_step :
    (mem : Mem) (dest src len a : ℕ)
    → (dest ≤ src) ⊎ (src + suc len ≤ dest)
    → (if inside (dest + 1) len a
        then store mem dest (mem src) (src + 1 + (a - (dest + 1)))
        else store mem dest (mem src) a)
      ≡ (if inside dest (suc len) a then mem (src + (a - dest)) else mem a)
memcpy_step mem dest src len a apart = ground (
  arith,
  ap mem {x = src} {y = src + (dest - dest)} (omega arith),
  λ (lt : dest < a). ap mem {x = src + 1 + (a - (dest + 1))} {y = src + (a - dest)} (omega arith),
)

-- If the destination starts at or before the source, or behind it, `memcpy` copies the `len` bytes
-- from `src` on as they were before the call, and writes nowhere else.
pub memcpy_lem :
    (mem : Mem) (dest src len a : ℕ)
    → (dest ≤ src) ⊎ (src + len ≤ dest)
    → memcpy mem dest src len a ≡ (if inside dest len a then mem (src + (a - dest)) else mem a)
unfolding memcpy
memcpy_lem mem dest src zero a apart = ground arith
memcpy_lem mem dest src (suc len) a apart =
    memcpy_lem (store mem dest (mem src)) (dest + 1) (src + 1) len a (omega arith)
    ∙ memcpy_step mem dest src len a apart

kzalloc_of :
    (k : Kernel) (size ptr : ℕ) {h : Heap}
    → Heap.malloc k.heap size ≡ some (ptr, h)
    → 0 < ptr
    → kzalloc k size ≡ some (ptr, record { heap = h; mem = memset k.mem ptr 0 size })
unfolding kzalloc kmalloc
kzalloc_of k size ptr done pos_p = ground arith

-- `kzalloc`, where the heap has room: the address of the new blocks, whose first `size` bytes are
-- zero. No other byte changes.
pub kzalloc_lem :
    (k : Kernel) (size t : ℕ)
    → IsPlaced k.heap
    → 0 < blocks_for size
    → Run k.heap.entries t (blocks_for size)
    → (s : ℕ) × (k' : Kernel) × (kzalloc k size ≡ some (address_of k.heap s, k'))
      × Allocates k.heap (blocks_for size) s k'.heap
      × ((a : ℕ) → k'.mem a ≡ (if inside (address_of k.heap s) size a then 0 else k.mem a))
kzalloc_lem k size t p pos_n run =
    let (s, h', done, le, alloc) = malloc_lem k.heap size t p pos_n run in
    (
      s,
      record { heap = h'; mem = memset k.mem (address_of k.heap s) 0 size },
      kzalloc_of k size (address_of k.heap s) done (omega (arith, p.not_null)),
      alloc,
      λ a. memset_lem k.mem (address_of k.heap s) 0 size a,
    )

kfree_of :
    (k : Kernel) (ptr : ℕ) {h : Heap}
    → Heap.free k.heap ptr ≡ some h
    → kfree k ptr ≡ some (record k { heap = h })
unfolding kfree
kfree_of k ptr done = rw (done, kfree)

-- On a heap that lies in the address space and whose table is whole, for a request of at least one
-- block, and where enough blocks in a row are free, `kzalloc` returns the address of one of the
-- heap's blocks, with the first `size` bytes zeroed and no other byte changed, and `kfree` of it
-- gives back the heap as it was.
pub kzalloc-free :
    (k : Kernel) (size t : ℕ)
    → IsPlaced k.heap
    → IsWhole k.heap.entries
    → 0 < blocks_for size
    → Run k.heap.entries t (blocks_for size)
    → (s : ℕ) × (k' : Kernel) × (kzalloc k size ≡ some (address_of k.heap s, k'))
      × (s < length k.heap.entries)
      × ((a : ℕ) → k'.mem a ≡ (if inside (address_of k.heap s) size a then 0 else k.mem a))
      × (kfree k' (address_of k.heap s) ≡ some (record k' { heap = k.heap }))
kzalloc-free k size t p whole pos_n run =
    let (s, h', done, lt, freed) = free-malloc k.heap size t p whole pos_n run in
    let k' : Kernel = record { heap = h'; mem = memset k.mem (address_of k.heap s) 0 size } in
    (
      s,
      k',
      kzalloc_of k size (address_of k.heap s) done (omega (arith, p.not_null)),
      lt,
      λ a. memset_lem k.mem (address_of k.heap s) 0 size a,
      kfree_of k' (address_of k.heap s) freed,
    )
