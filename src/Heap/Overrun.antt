-- ===== src/Heap/Overrun.antt =====
-- `heap_malloc` where no run of free blocks is long enough.
use Prim.Native.Nat.{pred}
use custom_peach_os.Prelude.{ℕ, suc, ◌<◌, ◌≡◌, refl, ◌∙◌, true, false, none, some, arith, length}
use custom_peach_os.Prelude.Int.{ℤ}
use custom_peach_os.Heap.{Heap, get_start_block, malloc_blocks, malloc}
use custom_peach_os.Heap.Search.{free_at, Run, NoRoom, short, refused, get_start_block-NoRoom}
use custom_peach_os.Heap.Mark.{mark_blocks_taken_faults}
use custom_peach_os.Heap.Alloc.{blocks_for}

overruns_of :
    (h : Heap) (n : ℕ) (answer : ℤ)
    → get_start_block h n ≡ answer
    → 0 < n
    → ((k : ℕ) → suc k ≡ length h.entries → free_at h.entries k ≡ true)
    → 0 < length h.entries
    → NoRoom h.entries n answer
    → malloc_blocks h n ≡ none
unfolding malloc_blocks
overruns_of h n answer found pos_n last some_blocks (short s bc e end pos_bc lt run) =
    rw (found ∙ e, malloc_blocks)
      (rw (mark_blocks_taken_faults h s n pos_n (omega arith), malloc_blocks))
overruns_of h n answer found pos_n last some_blocks (refused e taken) =
    let k : ℕ = pred (length h.entries) in cc (last k (omega arith), taken k (omega arith))

refused_of :
    (h : Heap) (n : ℕ) (answer : ℤ)
    → get_start_block h n ≡ answer
    → ((k : ℕ) → suc k ≡ length h.entries → free_at h.entries k ≡ false)
    → 0 < length h.entries
    → NoRoom h.entries n answer
    → malloc_blocks h n ≡ some (0, h)
unfolding malloc_blocks
refused_of h n answer found last some_blocks (short s bc e end pos_bc lt run) =
    let k : ℕ = pred (length h.entries) in
    cc (run k (omega arith) (omega arith), last k (omega arith))
refused_of h n answer found last some_blocks (refused e taken) = rw (found ∙ e, malloc_blocks)

-- `heap_malloc` for at least one block, and for more blocks than are free in any row, where the
-- last block of the table is free, writes entries behind the end of the table.
pub malloc_overruns :
    (h : Heap) (size : ℕ)
    → 0 < blocks_for size
    → ((t : ℕ) → ¬ Run h.entries t (blocks_for size))
    → ((k : ℕ) → suc k ≡ length h.entries → free_at h.entries k ≡ true)
    → 0 < length h.entries
    → malloc h size ≡ none
unfolding malloc
malloc_overruns h size pos_n no_room last some_blocks =
    overruns_of h (blocks_for size) (get_start_block h (blocks_for size)) refl pos_n last
      some_blocks (get_start_block-NoRoom h (blocks_for size) pos_n no_room)

-- `heap_malloc` for at least one block, and for more blocks than are free in any row, where the
-- last block of the table is taken, returns a null pointer and leaves the heap as it was.
pub malloc_refuses :
    (h : Heap) (size : ℕ)
    → 0 < blocks_for size
    → ((t : ℕ) → ¬ Run h.entries t (blocks_for size))
    → ((k : ℕ) → suc k ≡ length h.entries → free_at h.entries k ≡ false)
    → 0 < length h.entries
    → malloc h size ≡ some (0, h)
unfolding malloc
malloc_refuses h size pos_n no_room last some_blocks =
    refused_of h (blocks_for size) (get_start_block h (blocks_for size)) refl last some_blocks
      (get_start_block-NoRoom h (blocks_for size) pos_n no_room)
