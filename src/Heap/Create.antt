-- ===== src/Heap/Create.antt =====
-- `heap_create` and `kheap_init`: which pools are accepted.
use custom_peach_os.Prelude.{
  ℕ, zero, suc, ◌+◌, ◌-◌, ◌*◌, ◌%◌, ◌^◌, ◌≤◌, ◌<◌, ◌≡◌, refl, ap, ◌↔◌, inl, true, List, arith,
  length, replicate, length-replicate, get_or-replicate,
}
use custom_peach_os.Status.{all_ok}
use custom_peach_os.Heap.{
  Heap, block_size, validate_table, validate_alignment, create, kheap_init, heap_address,
  heap_size_bytes, heap_table_address, bytes_from,
}
use custom_peach_os.Heap.Search.{free_at, Run}
use custom_peach_os.Heap.Alloc.{IsPlaced}
use custom_peach_os.Heap.Whole.{IsWhole}

-- For a start that is not behind the end, both below 2^32, `heap_create` accepts a pool exactly
-- when both ends stand on block boundaries and the table has an entry for each block between them.
pub create_accepts :
    (h : Heap) (start end : ℕ) (table : List ℕ)
    → start ≤ end
    → end < 2 ^ 32
    → ((create h start end table).0 ≡ all_ok) ↔ (
        (start % block_size ≡ 0)
        × (end % block_size ≡ 0)
        × (length table * block_size ≡ end - start))
unfolding create validate_table validate_alignment
create_accepts h start end table le lt = (ground arith, ground arith)

free_at-replicate : (n k : ℕ) → k < n → free_at (replicate n 0) k ≡ true
free_at-replicate zero k lt = absurd (omega arith)
free_at-replicate (suc n) zero lt = refl
free_at-replicate (suc n) (suc k) lt = free_at-replicate n k (omega arith)

abbrev cleared : List ℕ → ℕ → Heap
cleared table start = record { entries = replicate (length table) 0; saddr = start }

create-cleared :
    (h : Heap) (start end : ℕ) (table : List ℕ)
    → (create h start end table).0 ≡ all_ok
    → (create h start end table).1 ≡ cleared table start
unfolding create validate_table validate_alignment
create-cleared h start end table e = ground arith

-- An accepted heap stands at the pool's address, its table is whole, and all its blocks are free.
pub create-IsWhole :
    (h : Heap) (start end : ℕ) (table : List ℕ)
    → (create h start end table).0 ≡ all_ok
    → let h' = (create h start end table).1 in
      (h'.saddr ≡ start)
      × (length h'.entries ≡ length table)
      × IsWhole h'.entries
      × Run h'.entries 0 (length table)
create-IsWhole h start end table e = rw (create-cleared h start end table e) (
  refl,
  length-replicate (length table) 0,
  λ k lt. inl (get_or-replicate (length table) k 0),
  λ k le lt. free_at-replicate (length table) k (omega arith),
)

length-bytes_from :
    (memory : ℕ → ℕ) (address total : ℕ) → length (bytes_from memory address total) ≡ total
unfolding bytes_from
length-bytes_from memory address zero = refl
length-bytes_from memory address (suc total) = ap suc (length-bytes_from memory (address + 1) total)

-- Whatever stands in memory, `kheap_init` succeeds and sets up a heap that lies in the address
-- space, whose table is whole and whose 25600 blocks are free.
pub kheap_init_lem :
    (h : Heap) (memory : ℕ → ℕ)
    → ((kheap_init h memory).0 ≡ all_ok)
      × IsPlaced (kheap_init h memory).1
      × IsWhole (kheap_init h memory).1.entries
      × Run (kheap_init h memory).1.entries 0 25_600
unfolding kheap_init
kheap_init_lem h memory =
    let table : List ℕ = bytes_from memory heap_table_address 25_600 in
    let len = length-bytes_from memory heap_table_address 25_600 in
    let end = heap_address + heap_size_bytes in
    let accepted =
      (create_accepts h heap_address end table (omega arith) (omega arith)).1 (omega arith) in
    let (base, long, whole, run) = create-IsWhole h heap_address end table accepted in
    (
      accepted,
      record {
        not_null = omega (arith, base);
        in_space = omega (arith, base, long);
        offsets = omega (arith, long);
      },
      whole,
      λ k le lt. run k le (omega arith),
    )
