-- ===== src/Process/Alloc.antt =====
-- `process_malloc` and `process_free`.
use custom_peach_os.Prelude.{
  ℕ, zero, suc, ◌+◌, ◌≤◌, ◌<◌, ◌≡◌, ◌≢◌, refl, none, some, true, false, [], ◌∷◌, arith, length,
  get_or, set, length-set, get_or-set_self, if◌then◌else◌, ◌^◌,
}
use custom_peach_os.Prelude.Int.{pos}
use custom_peach_os.Memory.{Kernel, kzalloc, kfree}
use custom_peach_os.Memory.Blocks.{inside, kzalloc-free}
use custom_peach_os.Heap.Search.{Run}
use custom_peach_os.Heap.Alloc.{blocks_for, IsPlaced, address_of, free-null}
use custom_peach_os.Heap.Whole.{IsWhole}
use custom_peach_os.Process.{
  Allocations, find_free_loop, process_find_free_allocation_index, process_malloc,
  process_is_process_pointer, process_allocation_unjoin, process_free,
}

-- The process owns no entry with the address.
abbrev pub Lacks : Allocations → ℕ → Type 0
Lacks [] ptr = Unit
Lacks (p ∷ own) ptr = (p ≢ ptr) × Lacks own ptr

pub is_process_pointer-Lacks :
    (own : Allocations) (ptr : ℕ) → Lacks own ptr → process_is_process_pointer own ptr ≡ false
unfolding process_is_process_pointer
is_process_pointer-Lacks [] ptr l = refl
is_process_pointer-Lacks (p ∷ own) ptr l = ground (arith, is_process_pointer-Lacks own ptr l.1)

is_process_pointer-at :
    (own : Allocations) (ptr i : ℕ)
    → i < length own
    → get_or own i 0 ≡ ptr
    → process_is_process_pointer own ptr ≡ true
unfolding process_is_process_pointer
is_process_pointer-at [] ptr i lt e = absurd (omega arith)
is_process_pointer-at (p ∷ own) ptr zero lt e = ground arith
is_process_pointer-at (p ∷ own) ptr (suc i) lt e =
    ground (arith, is_process_pointer-at own ptr i (omega arith) e)

-- `process_free` of an address that the process does not own changes nothing.
pub process_free-Lacks :
    (k : Kernel) (own : Allocations) (ptr : ℕ)
    → Lacks own ptr
    → process_free k own ptr ≡ some (k, own)
unfolding process_free
process_free-Lacks k own ptr l = rw (is_process_pointer-Lacks own ptr l, process_free)

find_free_loop-first :
    (own : Allocations) (i k : ℕ)
    → k < length own
    → get_or own k 0 ≡ 0
    → ((j : ℕ) → j < k → get_or own j 0 ≢ 0)
    → find_free_loop own i ≡ pos (i + k)
unfolding find_free_loop
find_free_loop-first [] i k lt e taken = absurd (omega arith)
find_free_loop-first (p ∷ own) i zero lt e taken = ground arith
find_free_loop-first (p ∷ own) i (suc k) lt e taken = ground (
  arith,
  taken 0 (omega arith),
  find_free_loop-first own (i + 1) k (omega arith) e (λ j lt'. taken (suc j) (omega arith)),
)

unjoin-Lacks :
    (own : Allocations) (ptr : ℕ) → Lacks own ptr → process_allocation_unjoin own ptr ≡ own
unfolding process_allocation_unjoin
unjoin-Lacks [] ptr l = refl
unjoin-Lacks (p ∷ own) ptr l = ground (arith, unjoin-Lacks own ptr l.1)

unjoin-set :
    (own : Allocations) (ptr i : ℕ)
    → i < length own
    → get_or own i 0 ≡ 0
    → Lacks own ptr
    → process_allocation_unjoin (set own i ptr) ptr ≡ own
unfolding process_allocation_unjoin
unjoin-set [] ptr i lt e l = absurd (omega arith)
unjoin-set (p ∷ own) ptr zero lt e l = ground (arith, unjoin-Lacks own ptr l.1)
unjoin-set (p ∷ own) ptr (suc i) lt e l = ground (arith, unjoin-set own ptr i (omega arith) e l.1)

-- `process_malloc` where the heap has room and entry `i` is the first that is empty: it returns
-- the zeroed block and enters its address there.
process_malloc_of :
    (k k' : Kernel) (own : Allocations) (size ptr i : ℕ)
    → kzalloc k size ≡ some (ptr, k')
    → 0 < ptr
    → i < length own
    → get_or own i 0 ≡ 0
    → ((j : ℕ) → j < i → get_or own j 0 ≢ 0)
    → process_malloc k own size ≡ some (ptr, k', set own i ptr)
unfolding process_malloc process_find_free_allocation_index
process_malloc_of k k' own size ptr i done pos_p lt e taken =
    rw (done, process_malloc) (ground (arith, find_free_loop-first own 0 i lt e taken))

process_free_of :
    (k k' : Kernel) (own : Allocations) (ptr i : ℕ)
    → i < length own
    → get_or own i 0 ≡ 0
    → Lacks own ptr
    → kfree k ptr ≡ some k'
    → process_free k (set own i ptr) ptr ≡ some (k', own)
unfolding process_free
process_free_of k k' own ptr i lt e lacks freed = rw (
  is_process_pointer-at (set own i ptr) ptr i (omega (arith, lt, length-set own i ptr))
      (get_or-set_self own i ptr 0 lt),
  freed,
  unjoin-set own ptr i lt e lacks,
  process_free,
)

-- On a heap that lies in the address space and whose table is whole, for a request of at least one
-- block, where enough blocks in a row are free, entry `i` is the process's first empty one and the
-- process owns no block of the heap yet, `process_malloc` returns the address of a block whose
-- first `size` bytes are zeroed and enters it at `i`; `process_free` of it gives back the heap and
-- the entries as they were.
pub process_free-malloc :
    (k : Kernel) (own : Allocations) (size t i : ℕ)
    → IsPlaced k.heap
    → IsWhole k.heap.entries
    → 0 < blocks_for size
    → Run k.heap.entries t (blocks_for size)
    → i < length own
    → get_or own i 0 ≡ 0
    → ((j : ℕ) → j < i → get_or own j 0 ≢ 0)
    → ((s : ℕ) → s < length k.heap.entries → Lacks own (address_of k.heap s))
    → (s : ℕ) × (k' : Kernel) × (process_malloc k own size
        ≡ some (address_of k.heap s, k', set own i (address_of k.heap s)))
      × ((a : ℕ) → k'.mem a ≡ (if inside (address_of k.heap s) size a then 0 else k.mem a))
      × (process_free k' (set own i (address_of k.heap s)) (address_of k.heap s)
          ≡ some (record k' { heap = k.heap }, own))
process_free-malloc k own size t i p whole pos_n run lt e taken lacks =
    let (s, k', done, in_table, zeroed, freed) = kzalloc-free k size t p whole pos_n run in
    let pos_p : 0 < address_of k.heap s = omega (arith, p.not_null) in
    (
      s,
      k',
      process_malloc_of k k' own size (address_of k.heap s) i done pos_p lt e taken,
      zeroed,
      process_free_of k' (record k' { heap = k.heap }) own (address_of k.heap s) i lt e
          (lacks s in_table) freed,
    )

-- `process_free` of a null pointer, while the process has an empty entry and the heap starts
-- between one block and 2^31, reads and writes before the heap's table.
pub process_free-null :
    (k : Kernel) (own : Allocations) (i : ℕ)
    → i < length own
    → get_or own i 0 ≡ 0
    → 4096 ≤ k.heap.saddr
    → k.heap.saddr ≤ 2 ^ 31
    → process_free k own 0 ≡ none
unfolding process_free kfree
process_free-null k own i lt e lo hi =
    rw (is_process_pointer-at own 0 i lt e, process_free) (rw (free-null k.heap lo hi, kfree))
