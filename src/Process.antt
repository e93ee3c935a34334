-- ===== src/Process.antt =====
-- The memory of a process, and the table of processes, of src/task/process.c. A process is what
-- `process_malloc`, `process_free` and the slots use of it; the kernel's memory is that of Memory.
pub mod Alloc
pub mod Slots
pub mod Mapping
pub mod Load
mod Tests
use custom_peach_os.Prelude.{
  ℕ, zero, suc, ◌+◌, Bool, true, false, not, ◌||◌, Option, none, some, List, [], ◌∷◌, leb, ◌==◌,
  if◌then◌else◌, get_or, set,
}
use custom_peach_os.Prelude.Int.{ℤ, pos, negsuc, is_zero}
use custom_peach_os.Status.{enomem, eistkn, all_ok, max_processes}
use custom_peach_os.Memory.{Kernel, kzalloc, kfree}

-- The `allocations` array; 0 is an empty entry.
abbrev pub Allocations : Type 0
Allocations = List ℕ

-- The loop from index `i` on.
unfoldable pub find_free_loop : Allocations → ℕ → ℤ
find_free_loop [] i = enomem
find_free_loop (p ∷ rest) i =
    let more = find_free_loop rest (i + 1) in if p == 0 then pos i else more

unfoldable pub process_find_free_allocation_index : Allocations → ℤ
unfolding find_free_loop
process_find_free_allocation_index allocations = find_free_loop allocations 0

-- `none` is a fault of the heap.
unfoldable pub process_malloc : Kernel → Allocations → ℕ → Option (ℕ × Kernel × Allocations)
process_malloc k allocations size = elim (kzalloc k size) [
  | none ↦ none
  | some (ptr, k') ↦
      if ptr == 0
      then some (0, k', allocations)
      else elim (process_find_free_allocation_index allocations) [
        | negsuc e ↦ some (0, k', allocations)
        | pos index ↦ some (ptr, k', set allocations index ptr)
      ]
]

unfoldable pub process_is_process_pointer : Allocations → ℕ → Bool
process_is_process_pointer [] ptr = false
process_is_process_pointer (p ∷ rest) ptr = p == ptr || process_is_process_pointer rest ptr

unfoldable pub process_allocation_unjoin : Allocations → ℕ → Allocations
process_allocation_unjoin [] ptr = []
process_allocation_unjoin (p ∷ rest) ptr =
    (if p == ptr then 0 else p) ∷ process_allocation_unjoin rest ptr

unfoldable pub process_free : Kernel → Allocations → ℕ → Option (Kernel × Allocations)
process_free k allocations ptr =
    if not (process_is_process_pointer allocations ptr)
    then some (k, allocations)
    else elim (kfree k ptr) [
      | none ↦ none
      | some k' ↦ some (k', process_allocation_unjoin allocations ptr)
    ]

-- The table of processes; an entry is the address of a `struct process`, or 0.
abbrev pub Processes : Type 0
Processes = List ℕ

unfoldable pub process_get : Processes → ℤ → ℕ
process_get processes (negsuc n) = 0
process_get processes (pos process_id) =
    if leb max_processes process_id then 0 else get_or processes process_id 0

-- The code that is returned when no slot is free is not negated.
unfoldable pub free_slot_loop : Processes → ℕ → ℤ
free_slot_loop [] i = pos 8
free_slot_loop (p ∷ rest) i =
    let more = free_slot_loop rest (i + 1) in if p == 0 then pos i else more

unfoldable pub process_get_free_slot : Processes → ℤ
unfolding free_slot_loop
process_get_free_slot processes = free_slot_loop processes 0

-- `load` is the part of `process_load_for_slot` behind its first test: it loads the program and
-- answers with a code, and with the process's address if it comes to the end. `none` is a fault; where
-- the slot is not free the code reads through a pointer that is not set.
module _ {S : Type 0} (load : S → ℕ → Option (ℤ × Option ℕ × S)) where
  unfoldable pub process_load_for_slot : S → Processes → ℕ → Option (ℤ × Option ℕ × S × Processes)
  process_load_for_slot s processes process_slot =
      if not (process_get processes (pos process_slot) == 0)
      then none
      else elim (load s process_slot) [
        | none ↦ none
        | some (res, none, s') ↦ some (res, none, s', processes)
        | some (res, some process, s') ↦
            some (res, some process, s', set processes process_slot process)
      ]

  unfoldable pub process_load : S → Processes → Option (ℤ × Option ℕ × S × Processes)
  process_load s processes = elim (process_get_free_slot processes) [
    | negsuc e ↦ some (eistkn, none, s, processes)
    | pos process_slot ↦ process_load_for_slot s processes process_slot
  ]

  -- The process that is current, at the end. The caller's pointer is null before the call.
  unfoldable pub process_load_switch :
      S → Processes → (current : ℕ) → Option (ℤ × S × Processes × ℕ)
  process_load_switch s processes current = elim (process_load s processes) [
    | none ↦ none
    | some (res, none, s', processes') ↦
        some (res, s', processes', if is_zero res then 0 else current)
    | some (res, some process, s', processes') ↦
        some (res, s', processes', if is_zero res then process else current)
  ]
