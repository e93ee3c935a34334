-- ===== src/Paging/Chunk/Fresh.antt =====
-- A new chunk is well formed, maps each page to itself, and is freed as it was made.
use custom_peach_os.Prelude.{
  ℕ, zero, suc, ◌+◌, ◌*◌, ◌/◌, ◌%◌, ◌^◌, ◌<◌, ◌≡◌, refl, sym, ap, ◌∙◌, arith, List, [], ◌∷◌, ◌++◌,
  bit_or,
}
use mathlib.Core.Path.{subst}
use custom_peach_os.Paging.{Words, table_of, paging_get}
use custom_peach_os.Paging.Frame.{table_of_lem, or_flags}
use custom_peach_os.Paging.Entries.{entry, IsChunk, paging_get-slot}
use custom_peach_os.Paging.Chunk.{
  zeroed, directory_loop, paging_new_4gb, free_loop, paging_free_4gb,
}
use custom_peach_os.Paging.Chunk.Table.{or_two}
use custom_peach_os.Paging.Chunk.Round.{IsAllocator, round, Filled, round-Filled}

module _ (alloc : ℕ → ℕ) (flags : ℕ) (ok : IsAllocator alloc) (small : flags < 4096) where
  directory_loop-Filled :
      (mem : Words) (offset i rounds : ℕ)
      → i + rounds ≡ 1024
      → offset ≡ i * 4_194_304 % 2 ^ 32
      → Filled alloc flags mem i
      → Filled alloc flags (directory_loop alloc flags mem offset i rounds) 1024
  unfolding directory_loop
  directory_loop-Filled mem offset i zero e at filled =
      subst (Filled alloc flags mem) {x = i} {y = 1024} (omega arith) filled
  directory_loop-Filled mem offset i (suc rounds) e at filled =
      directory_loop-Filled (round alloc flags mem offset i) ((offset + 1024 * 4096) % 2 ^ 32)
        (i + 1) rounds (omega arith) (omega arith)
        (round-Filled alloc flags ok mem offset i (omega arith) (omega arith) filled)

  new-Filled :
      (mem : Words)
      → Filled alloc flags (directory_loop alloc flags (zeroed mem (alloc 0) 4096) 0 0 1024) 1024
  new-Filled mem =
      directory_loop-Filled (zeroed mem (alloc 0) 4096) 0 0 1024 (omega arith) (omega arith)
        (record {
          tables = λ j lt. absurd (omega arith);
          pages = λ j k lt lt'. absurd (omega arith);
        })

  entry-word :
      (mem : Words) (i : ℕ)
      → i < 1024
      → Filled alloc flags mem 1024
      → entry mem (alloc 0) i ≡ (alloc (i + 1) + flags) / 4 * 4 + 2 + (alloc (i + 1) + flags) % 2
  entry-word mem i lt filled =
      filled.tables i lt
      ∙ ap (λ e. bit_or e 2)
          (or_flags (alloc (i + 1)) flags (ok.aligned (i + 1) (omega arith)) small)
      ∙ or_two (alloc (i + 1) + flags)

  entry-table :
      (mem : Words) (i : ℕ)
      → i < 1024
      → Filled alloc flags mem 1024
      → (entry mem (alloc 0) i < 2 ^ 32) × (table_of (entry mem (alloc 0) i) ≡ alloc (i + 1))
  entry-table mem i lt filled =
      let word = entry-word mem i lt filled in
      let al = ok.aligned (i + 1) (omega arith) in
      let below = ok.below (i + 1) (omega arith) in
      let fits : entry mem (alloc 0) i < 2 ^ 32 = omega (arith, word, al, below, small) in
      (fits, table_of_lem (entry mem (alloc 0) i) fits ∙ omega (arith, word, al, small))

  Filled-IsChunk : (mem : Words) → Filled alloc flags mem 1024 → IsChunk mem (alloc 0)
  Filled-IsChunk mem filled = record {
    aligned = ok.aligned 0 (omega arith);
    word = λ i lt. (entry-table mem i lt filled).0;
    apart = λ i lt e. absurd (
        omega (
          arith,
          ok.distinct (i + 1) 0 (omega arith) (omega arith)
              (sym (entry-table mem i lt filled).1 ∙ e),
        ));
    distinct = λ i j lt lt' e. omega (
      arith,
      ok.distinct (i + 1) (j + 1) (omega arith) (omega arith)
          (sym (entry-table mem i lt filled).1 ∙ e ∙ (entry-table mem j lt' filled).1),
    );
  }

  Filled-identity :
      (mem : Words) (page : ℕ)
      → page < 2 ^ 32
      → page % 4096 ≡ 0
      → Filled alloc flags mem 1024
      → paging_get mem (alloc 0) page ≡ page + flags
  Filled-identity mem page lt al filled =
      let i : ℕ = page / 4_194_304 in
      let k : ℕ = page % 4_194_304 / 4096 in
      paging_get-slot mem (alloc 0) page al
      ∙ ap (λ t. mem (t + 4 * k)) (entry-table mem i (omega arith) filled).1
      ∙ filled.pages i k (omega arith) (omega arith)
      ∙ ap (λ p. bit_or p flags) {x = (i * 4_194_304 + k * 4096) % 2 ^ 32} {y = page} (omega arith)
      ∙ or_flags page flags al small

-- The addresses of the tables from the one at index `i` on.
abbrev pub tables_of : (ℕ → ℕ) → (i rounds : ℕ) → List ℕ
tables_of alloc i zero = []
tables_of alloc i (suc rounds) = alloc (i + 1) ∷ tables_of alloc (i + 1) rounds

free_loop-tables_of :
    (alloc : ℕ → ℕ) (flags : ℕ) (mem : Words) (i rounds : ℕ)
    → IsAllocator alloc
    → flags < 4096
    → Filled alloc flags mem 1024
    → i + rounds ≡ 1024
    → free_loop mem (alloc 0) i rounds ≡ tables_of alloc i rounds
unfolding free_loop
free_loop-tables_of alloc flags mem i zero ok small filled e = refl
free_loop-tables_of alloc flags mem i (suc rounds) ok small filled e = cc (
  (entry-table alloc flags ok small mem i (omega arith) filled).1,
  free_loop-tables_of alloc flags mem (i + 1) rounds ok small filled (omega arith),
)

-- If the calls of `kzalloc` give 1025 pages of their own, then the chunk that `paging_new_4gb` makes
-- is well formed, and each of the 2^20 pages of the address space has its own address with the low
-- eight bits of the flags as its entry.
pub paging_new_4gb_lem :
    (alloc : ℕ → ℕ) (flags : ℕ) (mem : Words)
    → IsAllocator alloc
    → IsChunk (paging_new_4gb alloc flags mem).0 (paging_new_4gb alloc flags mem).1
      × ((page : ℕ)
          → page < 2 ^ 32
          → page % 4096 ≡ 0
          → paging_get (paging_new_4gb alloc flags mem).0 (paging_new_4gb alloc flags mem).1 page
            ≡ page + flags % 2 ^ 8)
unfolding paging_new_4gb
paging_new_4gb_lem alloc flags mem ok =
    let byte : ℕ = flags % 2 ^ 8 in
    let small : byte < 4096 = omega arith in
    let filled = new-Filled alloc byte ok small mem in
    (
      Filled-IsChunk alloc byte ok small _ filled,
      λ page lt al. Filled-identity alloc byte ok small _ page lt al filled,
    )

-- Under the same conditions `paging_free_4gb` of that chunk passes to `kfree` just the addresses
-- that were allocated for it: the 1024 tables in order, the directory and the chunk itself.
pub paging_free_4gb-paging_new_4gb :
    (alloc : ℕ → ℕ) (flags : ℕ) (mem : Words) (chunk : ℕ)
    → IsAllocator alloc
    → paging_free_4gb (paging_new_4gb alloc flags mem).0 (paging_new_4gb alloc flags mem).1 chunk
      ≡ tables_of alloc 0 1024 ++ alloc 0 ∷ chunk ∷ []
unfolding paging_free_4gb paging_new_4gb
paging_free_4gb-paging_new_4gb alloc flags mem chunk ok =
    let byte : ℕ = flags % 2 ^ 8 in
    let small : byte < 4096 = omega arith in
    ap (λ l. l ++ alloc 0 ∷ chunk ∷ [])
      (free_loop-tables_of alloc byte _ 0 1024 ok small (new-Filled alloc byte ok small mem)
        (omega arith))
