-- ===== src/Paging.antt =====
-- src/memory/paging/paging.c: page directories and tables in memory. The memory is the 32-bit word
-- at each address that is a multiple of 4, and a `struct paging_4gb_chunk` is the address of its
-- directory. Flags are not negative.
pub mod Frame
pub mod Entries
pub mod Range
pub mod Chunk
mod Tests
use custom_peach_os.Prelude.{
  ℕ, zero, suc, ◌+◌, ◌-◌, ◌*◌, ◌/◌, ◌%◌, ◌^◌, Bool, not, ◌||◌, Option, none, some, ltb, ◌==◌,
  if◌then◌else◌, bit_and, bit_or,
}
use custom_peach_os.Prelude.Int.{ℤ, pos, is_neg}
use custom_peach_os.Status.{einvarg, all_ok}

abbrev pub page_size : ℕ
page_size = 4096

abbrev pub total_entries_per_table : ℕ
total_entries_per_table = 1024

abbrev pub Words : Type 0
Words = ℕ → ℕ

abbrev pub store : Words → ℕ → ℕ → Words
store mem p v a = if a == p then v else mem a

unfoldable pub paging_is_aligned : ℕ → Bool
paging_is_aligned addr = addr % page_size == 0

-- The directory's and the table's index, if the address is aligned.
unfoldable pub paging_get_indexes : ℕ → Option (ℕ × ℕ)
unfolding paging_is_aligned
paging_get_indexes virtual_address =
    if not (paging_is_aligned virtual_address)
    then none
    else some (
      virtual_address / (total_entries_per_table * page_size),
      virtual_address % (total_entries_per_table * page_size) / page_size,
    )

unfoldable pub paging_align_address : ℕ → ℕ
paging_align_address ptr =
    if not (ptr % page_size == 0) then (ptr + page_size - ptr % page_size) % 2 ^ 32 else ptr

unfoldable pub paging_align_to_lower_page : ℕ → ℕ
paging_align_to_lower_page addr = addr - addr % page_size

-- The table that a directory's entry points to.
abbrev pub table_of : ℕ → ℕ
table_of entry = bit_and entry 0xffff_f000

unfoldable pub paging_set : Words → ℕ → ℕ → ℕ → ℤ × Words
unfolding paging_get_indexes paging_is_aligned
paging_set mem directory virt val =
    if not (paging_is_aligned virt) then (einvarg, mem) else elim (paging_get_indexes virt) [
      | none ↦ (einvarg, mem)
      | some (directory_index, table_index) ↦ (
        all_ok,
        store mem (table_of (mem (directory + 4 * directory_index)) + 4 * table_index) val,
      )
    ]

-- The indices stay 0 if the address is not aligned.
unfoldable pub paging_get : Words → ℕ → ℕ → ℕ
unfolding paging_get_indexes
paging_get mem directory virt = elim (paging_get_indexes virt) [
  | none ↦ mem (table_of (mem (directory + 4 * 0)) + 4 * 0)
  | some (directory_index, table_index) ↦
      mem (table_of (mem (directory + 4 * directory_index)) + 4 * table_index)
]

unfoldable pub paging_map : Words → ℕ → ℕ → ℕ → ℕ → ℤ × Words
paging_map mem directory virt phys flags =
    if not (virt % page_size == 0) || not (phys % page_size == 0)
    then (einvarg, mem)
    else paging_set mem directory virt (bit_or phys flags)

-- `count` rounds are left, and `res` is the last result.
unfoldable pub map_range_loop : ℤ → Words → ℕ → ℕ → ℕ → ℕ → ℕ → ℤ × Words
map_range_loop res mem directory virt phys zero flags = (res, mem)
map_range_loop res mem directory virt phys (suc count) flags =
    let (res', mem') = paging_map mem directory virt phys flags in
    let rest =
      map_range_loop res' mem' directory ((virt + page_size) % 2 ^ 32) ((phys + page_size) % 2 ^ 32)
        count flags in
    if is_neg res' then (res', mem') else rest

unfoldable pub paging_map_range : Words → ℕ → ℕ → ℕ → ℕ → ℕ → ℤ × Words
unfolding map_range_loop
paging_map_range mem directory virt phys count flags =
    map_range_loop all_ok mem directory virt phys count flags

unfoldable pub paging_map_to : Words → ℕ → ℕ → ℕ → ℕ → ℕ → ℤ × Words
paging_map_to mem directory virt phys phys_end flags =
    if not (virt % page_size == 0)
    then (einvarg, mem)
    else (if not (phys % page_size == 0)
        then (einvarg, mem)
        else (if ltb phys_end phys
            then (einvarg, mem)
            else (if not (phys_end % page_size == 0)
                then (einvarg, mem)
                else paging_map_range mem directory virt phys ((phys_end - phys) / page_size)
                    flags)))
