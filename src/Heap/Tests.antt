-- ===== src/Heap/Tests.antt =====
-- The allocator at small tables, and its theorems at inputs that meet their hypotheses.
use custom_peach_os.Prelude.{
  ℕ, zero, suc, ◌+◌, ◌≢◌, ap, false, ◌≤◌, ◌<◌, ◌≡◌, refl, ◌⊎◌, inl, inr, true, none, some, List, [],
  ◌∷◌, arith, length, get_or,
}
use custom_peach_os.Status.{all_ok}
use custom_peach_os.Heap.{
  Heap, start_loop, get_start_block, mark_blocks_taken, align_value_to_upper, block_to_address,
  malloc_blocks, malloc, mark_blocks_free, address_to_block, free, kheap_init,
}
use custom_peach_os.Heap.Search.{free_at, Run}
use custom_peach_os.Heap.Mark.{Holds, chain_entry}
use custom_peach_os.Heap.Alloc.{blocks_for, IsPlaced, address_of}
use custom_peach_os.Heap.Whole.{IsWhole, free-malloc, malloc-IsWhole, free-IsWhole}
use custom_peach_os.Heap.Overrun.{malloc_overruns, malloc_refuses}
use custom_peach_os.Heap.Create.{kheap_init_lem}

-- One block taken, two free, an allocation of two, and one free.
abbrev pool : Heap
pool = record { entries = 0x41 ∷ 0 ∷ 0 ∷ 0xc1 ∷ 0x01 ∷ 0 ∷ []; saddr = 0x0100_0000 }

malloc-pool :
    malloc pool 5000
    ≡ some (0x0100_1000, record pool { entries = 0x41 ∷ 0xc1 ∷ 0x01 ∷ 0xc1 ∷ 0x01 ∷ 0 ∷ [] })
unfolding malloc malloc_blocks get_start_block start_loop mark_blocks_taken align_value_to_upper
    block_to_address
malloc-pool = refl

free-pool : free pool 0x0100_3000 ≡ some (record pool { entries = 0x41 ∷ 0 ∷ 0 ∷ 0 ∷ 0 ∷ 0 ∷ [] })
unfolding free mark_blocks_free address_to_block
free-pool = refl

-- Three blocks in a row are nowhere free, but the answer starts at the last block.
malloc-pool_overruns : malloc pool 12_288 ≡ none
unfolding malloc malloc_blocks get_start_block start_loop mark_blocks_taken align_value_to_upper
malloc-pool_overruns = refl

-- A size within a block of the address space's end wraps to no block at all.
malloc_wraps : malloc pool 0xffff_f001 ≡ some (0x0100_5000, pool)
unfolding malloc malloc_blocks get_start_block start_loop mark_blocks_taken align_value_to_upper
    block_to_address
malloc_wraps = refl

pool-IsPlaced : IsPlaced pool
pool-IsPlaced = record { not_null = omega arith; in_space = omega arith; offsets = omega arith }

pool-some_block : 0 < blocks_for 5000
unfolding align_value_to_upper
pool-some_block = omega arith

Run-at_1 : Run pool.entries 1 2
Run-at_1 zero le lt = absurd (omega arith)
Run-at_1 (suc zero) le lt = refl
Run-at_1 (suc (suc zero)) le lt = refl
Run-at_1 (suc (suc (suc k))) le lt = absurd (omega arith)

pool-Run : Run pool.entries 1 (blocks_for 5000)
unfolding align_value_to_upper
pool-Run = Run-at_1

entry_0 : (k : ℕ) → k < 1 → get_or pool.entries (0 + k) 0 ≡ chain_entry 1 k
entry_0 zero lt = refl
entry_0 (suc k) lt = absurd (omega arith)

entry_3 : (k : ℕ) → k < 2 → get_or pool.entries (3 + k) 0 ≡ chain_entry 2 k
entry_3 zero lt = refl
entry_3 (suc zero) lt = refl
entry_3 (suc (suc k)) lt = absurd (omega arith)

pool-Holds_0 : Holds pool.entries 0 1
pool-Holds_0 = record { some_block = omega arith; fits = omega arith; entry = entry_0 }

pool-Holds_3 : Holds pool.entries 3 2
pool-Holds_3 = record { some_block = omega arith; fits = omega arith; entry = entry_3 }

pool-IsWhole : IsWhole pool.entries
pool-IsWhole zero lt = inr (0, 1, pool-Holds_0, omega arith, omega arith)
pool-IsWhole (suc zero) lt = inl refl
pool-IsWhole (suc (suc zero)) lt = inl refl
pool-IsWhole (suc (suc (suc zero))) lt = inr (3, 2, pool-Holds_3, omega arith, omega arith)
pool-IsWhole (suc (suc (suc (suc zero)))) lt = inr (3, 2, pool-Holds_3, omega arith, omega arith)
pool-IsWhole (suc (suc (suc (suc (suc zero))))) lt = inl refl
pool-IsWhole (suc (suc (suc (suc (suc (suc k)))))) lt = absurd (omega arith)

free-malloc_example :
    (s : ℕ) × (h' : Heap) × (malloc pool 5000 ≡ some (address_of pool s, h'))
    × (s < length pool.entries)
    × (free h' (address_of pool s) ≡ some pool)
free-malloc_example = free-malloc pool 5000 1 pool-IsPlaced pool-IsWhole pool-some_block pool-Run

malloc-IsWhole_example :
    (s : ℕ) × (h' : Heap) × (malloc pool 5000 ≡ some (address_of pool s, h'))
    × IsWhole h'.entries
    × ((u m : ℕ)
        → Holds pool.entries u m
        → Holds h'.entries u m × ((s + blocks_for 5000 ≤ u) ⊎ (u + m ≤ s)))
malloc-IsWhole_example =
    malloc-IsWhole pool 5000 1 pool-IsPlaced pool-IsWhole pool-some_block pool-Run

free-IsWhole_example :
    (h' : Heap) × (free pool (address_of pool 3) ≡ some h')
    × IsWhole h'.entries
    × ((u m : ℕ) → Holds pool.entries u m → 3 ≢ u → Holds h'.entries u m)
free-IsWhole_example = free-IsWhole pool 3 2 pool-IsPlaced pool-IsWhole pool-Holds_3

pool-some_blocks : 0 < blocks_for 12_288
unfolding align_value_to_upper
pool-some_blocks = omega arith

no_three : (t : ℕ) → ¬ Run pool.entries t 3
no_three zero run = cc (run 0 (omega arith) (omega arith))
no_three (suc zero) run = cc (run 3 (omega arith) (omega arith))
no_three (suc (suc zero)) run = cc (run 3 (omega arith) (omega arith))
no_three (suc (suc (suc zero))) run = cc (run 3 (omega arith) (omega arith))
no_three (suc (suc (suc (suc zero)))) run = cc (run 4 (omega arith) (omega arith))
no_three (suc (suc (suc (suc (suc zero))))) run = cc (run 6 (omega arith) (omega arith))
no_three (suc (suc (suc (suc (suc (suc t)))))) run =
    cc (run (suc (suc (suc (suc (suc (suc t)))))) (omega arith) (omega arith))

pool-no_Run : (t : ℕ) → ¬ Run pool.entries t (blocks_for 12_288)
unfolding align_value_to_upper
pool-no_Run = no_three

pool-last : (k : ℕ) → suc k ≡ length pool.entries → free_at pool.entries k ≡ true
pool-last k e = ap (free_at pool.entries) {x = k} {y = 5} (omega arith)

malloc_overruns_example : malloc pool 12_288 ≡ none
malloc_overruns_example =
    malloc_overruns pool 12_288 pool-some_blocks pool-no_Run pool-last (omega arith)

-- One free block in front of one that is taken.
abbrev tight : Heap
tight = record { entries = 0 ∷ 0x41 ∷ []; saddr = 0x0100_0000 }

tight-no_two : (t : ℕ) → ¬ Run tight.entries t 2
tight-no_two zero run = cc (run 1 (omega arith) (omega arith))
tight-no_two (suc zero) run = cc (run 1 (omega arith) (omega arith))
tight-no_two (suc (suc t)) run = cc (run (suc (suc t)) (omega arith) (omega arith))

tight-no_Run : (t : ℕ) → ¬ Run tight.entries t (blocks_for 5000)
unfolding align_value_to_upper
tight-no_Run = tight-no_two

tight-last : (k : ℕ) → suc k ≡ length tight.entries → free_at tight.entries k ≡ false
tight-last k e = ap (free_at tight.entries) {x = k} {y = 1} (omega arith)

malloc_refuses_example : malloc tight 5000 ≡ some (0, tight)
malloc_refuses_example =
    malloc_refuses tight 5000 pool-some_block tight-no_Run tight-last (omega arith)

abbrev two_entries : List ℕ
two_entries = 0 ∷ 0 ∷ []

abbrev big_memory : ℕ → ℕ
big_memory a = 7

kheap_init_lem_example :
    ((kheap_init pool big_memory).0 ≡ all_ok)
    × IsPlaced (kheap_init pool big_memory).1
    × IsWhole (kheap_init pool big_memory).1.entries
    × Run (kheap_init pool big_memory).1.entries 0 25_600
kheap_init_lem_example = kheap_init_lem pool big_memory
