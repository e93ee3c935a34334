-- ===== src/Paging/Chunk.antt =====
-- The making and the freeing of a `struct paging_4gb_chunk` in src/memory/paging/paging.c. The heap
-- itself is not looked at here: `alloc n` is the address that the call number `n` of `kzalloc` gives,
-- and what is freed is the list of the addresses that are passed to `kfree`. Memory is taken to be
-- there, as in the code, which does not test for it.
pub mod Table
pub mod Round
pub mod Fresh
use custom_peach_os.Prelude.{
  ℕ, zero, suc, ◌+◌, ◌*◌, ◌%◌, ◌^◌, List, [], ◌∷◌, ◌++◌, ltb, leb, ◌&&◌, if◌then◌else◌, bit_or,
}
use custom_peach_os.Paging.{page_size, total_entries_per_table, Words, store, table_of}

abbrev pub is_writable : ℕ
is_writable = 0b0000_0010

-- The memory after `kzalloc` gave `size` bytes at an address.
abbrev pub zeroed : Words → ℕ → ℕ → Words
zeroed mem p size a = if leb p a && ltb a (p + size) then 0 else mem a

-- The loop over the entries of a table, the one at index `b` first.
unfoldable pub table_loop : Words → (table offset flags b rounds : ℕ) → Words
table_loop mem table offset flags b zero = mem
table_loop mem table offset flags b (suc rounds) =
    table_loop (store mem (table + 4 * b) (bit_or ((offset + b * page_size) % 2 ^ 32) flags)) table
      offset flags (b + 1) rounds

module _ (alloc : ℕ → ℕ) (flags : ℕ) where
  -- The loop over the entries of the directory, the one at index `i` first; the directory came from
  -- call 0.
  unfoldable pub directory_loop : Words → (offset i rounds : ℕ) → Words
  unfolding table_loop
  directory_loop mem offset i zero = mem
  directory_loop mem offset i (suc rounds) =
      let table = alloc (i + 1) in
      let mem' =
        table_loop (zeroed mem table (4 * total_entries_per_table)) table offset flags 0
          total_entries_per_table in
      directory_loop (store mem' (alloc 0 + 4 * i) (bit_or (bit_or table flags) is_writable))
        ((offset + total_entries_per_table * page_size) % 2 ^ 32) (i + 1) rounds

-- The memory, and the address of the directory. The flags are a `uint8_t`.
unfoldable pub paging_new_4gb : (alloc : ℕ → ℕ) (flags : ℕ) → Words → Words × ℕ
unfolding directory_loop
paging_new_4gb alloc flags mem = (
  directory_loop alloc (flags % 2 ^ 8) (zeroed mem (alloc 0) (4 * total_entries_per_table)) 0 0
      total_entries_per_table,
  alloc 0,
)

-- The tables from index `i` on.
unfoldable pub free_loop : Words → (directory i rounds : ℕ) → List ℕ
free_loop mem directory i zero = []
free_loop mem directory i (suc rounds) =
    table_of (mem (directory + 4 * i)) ∷ free_loop mem directory (i + 1) rounds

-- `chunk` is the address of the structure that points to the directory.
unfoldable pub paging_free_4gb : Words → (directory chunk : ℕ) → List ℕ
unfolding free_loop
paging_free_4gb mem directory chunk = free_loop mem directory 0 1024 ++ directory ∷ chunk ∷ []
