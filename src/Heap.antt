-- ===== src/Heap.antt =====
-- src/memory/heap/heap.c and kheap.c: the block allocator. `struct heap_table` is the list of its
-- entries, and `table->total` is the length of that list. Addresses are 32-bit numbers. `none` is a
-- read or write of the table outside its entries.
pub mod Search
pub mod Mark
pub mod Alloc
pub mod Whole
pub mod Overrun
pub mod Create
mod Tests
use custom_peach_os.Prelude.{
  ℕ, zero, suc, ◌+◌, ◌-◌, ◌*◌, ◌/◌, ◌%◌, ◌^◌, Bool, true, false, not, ◌||◌, Option, none, some,
  List, [], ◌∷◌, bit_and, bit_or, ltb, ◌==◌, if◌then◌else◌, length, get_or, set, replicate,
}
use custom_peach_os.Prelude.Int.{ℤ, pos, negsuc, is_neg, div_trunc, signed32}
use custom_peach_os.Status.{all_ok, einvarg, enomem}

abbrev pub block_size : ℕ
block_size = 4096

abbrev pub heap_size_bytes : ℕ
heap_size_bytes = 104_857_600

abbrev pub heap_address : ℕ
heap_address = 0x0100_0000

abbrev pub entry_taken : ℕ
entry_taken = 0x01

abbrev pub entry_free : ℕ
entry_free = 0x00

abbrev pub has_next : ℕ
has_next = 0b1000_0000

abbrev pub is_first : ℕ
is_first = 0b0100_0000

pub record Heap : Type 0 where
  pub entries : List ℕ
  pub saddr : ℕ

-- `total` is what `table->total` says, which `heap_create` compares with the size of the pool.
unfoldable pub validate_table : ℕ → ℕ → ℕ → ℤ
validate_table start end total =
    if not ((end + 2 ^ 32 - start) % 2 ^ 32 / block_size == total) then einvarg else all_ok

unfoldable pub validate_alignment : ℕ → Bool
validate_alignment ptr = ptr % block_size == 0

-- On an error of alignment `heap` is left as it was; on one of size its fields are set already.
pub create : Heap → ℕ → ℕ → List ℕ → ℤ × Heap
unfolding validate_table validate_alignment
create heap start end table =
    if not (validate_alignment start) || not (validate_alignment end)
    then (einvarg, heap)
    else (let res = validate_table start end (length table) in
        if is_neg res
        then (res, record { entries = table; saddr = start })
        else (res, record { entries = replicate (length table) entry_free; saddr = start }))

unfoldable pub align_value_to_upper : ℕ → ℕ
align_value_to_upper val =
    if val % block_size == 0 then val else (val - val % block_size + block_size) % 2 ^ 32

abbrev pub get_entry_type : ℕ → ℕ
get_entry_type entry = bit_and entry 0x0f

abbrev pub is_minus_one : ℤ → Bool
is_minus_one (negsuc zero) = true
is_minus_one _ = false

-- The loop of `heap_get_start_block` over the entries from index `i` on.
unfoldable pub start_loop : ℕ → List ℕ → ℕ → ℕ → ℤ → ℤ
start_loop total_blocks [] i bc bs = bs
start_loop total_blocks (entry ∷ rest) i bc bs =
    let bs' = if is_minus_one bs then pos i else bs in
    let reset = start_loop total_blocks rest (i + 1) 0 (negsuc 0) in
    let more = start_loop total_blocks rest (i + 1) (bc + 1) bs' in
    if not (get_entry_type entry == entry_free)
    then reset
    else (if bc + 1 == total_blocks then bs' else more)

unfoldable pub get_start_block : Heap → ℕ → ℤ
get_start_block heap total_blocks =
    let bs = start_loop total_blocks heap.entries 0 0 (negsuc 0) in
    if is_minus_one bs then enomem else bs

unfoldable pub block_to_address : Heap → ℕ → ℕ
block_to_address heap block = (heap.saddr + block * block_size) % 2 ^ 32

-- `rounds` blocks are left, the one at index `i` first. Where `rounds` are left behind it, `end_block`
-- is `i + rounds`, and `i != end_block - 1` is `rounds != 1`.
unfoldable pub taken_loop : ℕ → ℕ → ℕ → List ℕ → Option (List ℕ)
taken_loop zero i entry entries = some entries
taken_loop (suc rounds) i entry entries =
    let next = if rounds == 1 then entry_taken else bit_or entry_taken has_next in
    let rest = taken_loop rounds (i + 1) next (set entries i entry) in
    if ltb i (length entries) then rest else none

unfoldable pub mark_blocks_taken : Heap → ℕ → ℕ → Option Heap
unfolding taken_loop
mark_blocks_taken heap start_block total_blocks =
    let first = bit_or entry_taken is_first in
    let entry = if ltb 1 total_blocks then bit_or first has_next else first in
    elim (taken_loop total_blocks start_block entry heap.entries) [
      | none ↦ none
      | some entries ↦ some (record heap { entries = entries })
    ]

-- The address and the new heap; address 0 is a failure.
unfoldable pub malloc_blocks : Heap → ℕ → Option (ℕ × Heap)
malloc_blocks heap total_blocks = elim (get_start_block heap total_blocks) [
  | negsuc e ↦ some (0, heap)
  | pos start_block ↦ elim (mark_blocks_taken heap start_block total_blocks) [
    | none ↦ none
    | some heap' ↦ some (block_to_address heap start_block, heap')
  ]
]

-- The blocks before `i` are passed over; `rest` holds the entries from `i` on.
unfoldable pub free_loop : List ℕ → List ℕ
free_loop [] = []
free_loop (entry ∷ rest) =
    let more = free_loop rest in
    if bit_and entry has_next == 0 then entry_free ∷ rest else entry_free ∷ more

unfoldable pub free_from : ℕ → List ℕ → List ℕ
unfolding free_loop
free_from zero entries = free_loop entries
free_from (suc i) [] = []
free_from (suc i) (entry ∷ rest) = entry ∷ free_from i rest

-- A negative index reads before the table.
unfoldable pub mark_blocks_free : Heap → ℤ → Option Heap
unfolding free_from
mark_blocks_free heap (pos starting_block) =
    some (record heap { entries = free_from starting_block heap.entries })
mark_blocks_free heap (negsuc n) = none

unfoldable pub address_to_block : Heap → ℕ → ℤ
address_to_block heap address =
    div_trunc (signed32 ((address + 2 ^ 32 - heap.saddr) % 2 ^ 32)) block_size

unfoldable pub malloc : Heap → ℕ → Option (ℕ × Heap)
malloc heap size = malloc_blocks heap (align_value_to_upper size / block_size)

unfoldable pub free : Heap → ℕ → Option Heap
free heap ptr = mark_blocks_free heap (address_to_block heap ptr)

abbrev pub heap_table_address : ℕ
heap_table_address = 0x7e00

-- The bytes of the memory from an address on.
unfoldable pub bytes_from : (memory : ℕ → ℕ) (address total : ℕ) → List ℕ
bytes_from memory address zero = []
bytes_from memory address (suc total) = memory address ∷ bytes_from memory (address + 1) total

-- The table's entries are the bytes that stand in memory at its address, as many as there are blocks.
-- A negative code is printed only.
pub kheap_init : Heap → (memory : ℕ → ℕ) → ℤ × Heap
unfolding bytes_from
kheap_init heap memory =
    let total_table_entries = heap_size_bytes / block_size in
    create heap heap_address (heap_address + heap_size_bytes)
      (bytes_from memory heap_table_address total_table_entries)
