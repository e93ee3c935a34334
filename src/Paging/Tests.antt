-- ===== src/Paging/Tests.antt =====
-- A directory whose tables stand in a row, and the theorems at it.
use custom_peach_os.Prelude.{
  [], ◌∷◌, ◌++◌, ◌^◌, ◌%◌, ℕ, ◌+◌, ◌-◌, ◌*◌, ◌/◌, ◌<◌, ◌≡◌, ◌∙◌, arith, ◌==◌, if◌then◌else◌,
}
use custom_peach_os.Status.{all_ok}
use custom_peach_os.Paging.{Words, table_of, paging_set, paging_get, paging_map_to}
use custom_peach_os.Paging.Chunk.{paging_new_4gb, paging_free_4gb}
use custom_peach_os.Paging.Chunk.Round.{IsAllocator}
use custom_peach_os.Paging.Chunk.Fresh.{
  tables_of, paging_new_4gb_lem, paging_free_4gb-paging_new_4gb,
}
use custom_peach_os.Paging.Frame.{table_of_lem}
use custom_peach_os.Paging.Entries.{IsChunk, entry, paging_get-set}
use custom_peach_os.Paging.Range.{Maps, paging_map_to-Maps}

abbrev directory : ℕ
directory = 0x1000

-- Entry `i` of the directory is table `i` from 0x100000 on, with flags 7.
abbrev tables : Words
tables a = 0x10_0007 + (a - 0x1000) / 4 * 4096

table_at : (i : ℕ) → i < 1024 → table_of (entry tables directory i) ≡ 0x10_0000 + i * 4096
table_at i lt = table_of_lem (entry tables directory i) (omega arith) ∙ omega arith

tables-IsChunk : IsChunk tables directory
tables-IsChunk = record {
  aligned = omega arith;
  word = λ i lt. omega arith;
  apart = λ i lt e. omega (arith, table_at i lt);
  distinct = λ i j lt lt' e. omega (arith, table_at i lt, table_at j lt', e);
}

paging_get-set_example :
    paging_get (paging_set tables directory 0x40_0000 0x5007).1 directory 0x40_1000
    ≡ (if 0x40_1000 == 0x40_0000 then 0x5007 else paging_get tables directory 0x40_1000)
paging_get-set_example =
    paging_get-set tables-IsChunk 0x40_0000 0x5007 (omega arith) 0x40_1000 (omega arith)
      (omega arith) (omega arith)

paging_map_to-Maps_example :
    ((paging_map_to tables directory 0x40_0000 0x50_0000 0x50_3000 7).0 ≡ all_ok)
    × Maps tables directory 0x40_0000 0x50_0000
        ((0x50_3000 - 0x50_0000) / 4096)
        7
        (paging_map_to tables directory 0x40_0000 0x50_0000 0x50_3000 7).1
paging_map_to-Maps_example =
    paging_map_to-Maps tables directory 0x40_0000 0x50_0000 0x50_3000 7 tables-IsChunk (omega arith)
      (omega arith) (omega arith) (omega arith) (omega arith) (omega arith) (omega arith)

-- Pages in a row from 0x200000 on.
abbrev alloc : ℕ → ℕ
alloc n = 0x20_0000 + n * 4096

alloc-IsAllocator : IsAllocator alloc
alloc-IsAllocator = record {
  aligned = λ n le. omega arith;
  below = λ n le. omega arith;
  distinct = λ n m le le' e. omega (arith, e);
}

paging_new_4gb_lem_example :
    IsChunk (paging_new_4gb alloc 5 tables).0 (paging_new_4gb alloc 5 tables).1
    × ((page : ℕ)
        → page < 2 ^ 32
        → page % 4096 ≡ 0
        → paging_get (paging_new_4gb alloc 5 tables).0 (paging_new_4gb alloc 5 tables).1 page
          ≡ page + 5)
paging_new_4gb_lem_example = paging_new_4gb_lem alloc 5 tables alloc-IsAllocator

paging_free_4gb-paging_new_4gb_example :
    paging_free_4gb (paging_new_4gb alloc 5 tables).0 (paging_new_4gb alloc 5 tables).1 0x70_0000
    ≡ tables_of alloc 0 1024 ++ 0x20_0000 ∷ 0x70_0000 ∷ []
paging_free_4gb-paging_new_4gb_example =
    paging_free_4gb-paging_new_4gb alloc 5 tables 0x70_0000 alloc-IsAllocator
