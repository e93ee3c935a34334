-- ===== src/Paging/Chunk/Round.antt =====
-- What one round of the loop over the directory does.
use custom_peach_os.Prelude.{
  ℕ, ◌+◌, ◌*◌, ◌%◌, ◌^◌, ◌≤◌, ◌<◌, ◌≡◌, ◌≢◌, ap, ◌∙◌, ◌⊎◌, inl, inr, arith, bit_or, ltb, ◌==◌,
  Bool-cases, ==_iff, false,
}
use custom_peach_os.Paging.{Words, store}
use custom_peach_os.Paging.Chunk.Table.{table_loop-inside, table_loop-outside}
use custom_peach_os.Paging.Chunk.{zeroed, table_loop}

-- The calls that are made give pages of their own.
pub record IsAllocator (alloc : ℕ → ℕ) : Type 0 where
  pub aligned : (n : ℕ) → n ≤ 1024 → alloc n % 4096 ≡ 0
  pub below : (n : ℕ) → n ≤ 1024 → alloc n < 2 ^ 32
  pub distinct : (n m : ℕ) → n ≤ 1024 → m ≤ 1024 → alloc n ≡ alloc m → n ≡ m

-- Two pages, by their addresses.
abbrev pub Apart : ℕ → ℕ → Type 0
Apart p q = (p + 4096 ≤ q) ⊎ (q + 4096 ≤ p)

pages-Apart : (p q : ℕ) → p % 4096 ≡ 0 → q % 4096 ≡ 0 → p ≢ q → Apart p q
pages-Apart p q al al' ne = elim (Bool-cases (ltb p q)) [
  | inl lt ↦ inl (ground arith)
  | inr ge ↦ inr (omega (arith, strict ge))
]
  where
    strict : ltb p q ≡ false → q < p
    strict ge = ground arith

-- The memory after one round of the loop over the directory.
abbrev pub round : (ℕ → ℕ) → ℕ → Words → ℕ → ℕ → Words
round alloc flags mem offset i =
    store (table_loop (zeroed mem (alloc (i + 1)) 4096) (alloc (i + 1)) offset flags 0 1024)
      (alloc 0 + 4 * i) (bit_or (bit_or (alloc (i + 1)) flags) 2)

-- The first `i` tables stand where the directory says, and map their pages to themselves.
pub record Filled (alloc : ℕ → ℕ) (flags : ℕ) (mem : Words) (i : ℕ) : Type 0 where
  pub tables : (j : ℕ) → j < i → mem (alloc 0 + 4 * j) ≡ bit_or (bit_or (alloc (j + 1)) flags) 2
  pub pages :
      (j k : ℕ)
      → j < i
      → k < 1024
      → mem (alloc (j + 1) + 4 * k) ≡ bit_or ((j * 4_194_304 + k * 4096) % 2 ^ 32) flags

-- A word of another page, and not the new entry of the directory, is kept by the round.
round-kept :
    (alloc : ℕ → ℕ) (flags : ℕ) (mem : Words) (offset i a page : ℕ)
    → page ≤ a
    → a < page + 4096
    → Apart (alloc (i + 1)) page
    → a ≢ alloc 0 + 4 * i
    → round alloc flags mem offset i a ≡ mem a
round-kept alloc flags mem offset i a page lo hi (inl before) ne = ground (
  arith,
  table_loop-outside (zeroed mem (alloc (i + 1)) 4096) (alloc (i + 1)) offset flags 0 1024 a
      (inr (omega arith)),
)
round-kept alloc flags mem offset i a page lo hi (inr behind) ne = ground (
  arith,
  table_loop-outside (zeroed mem (alloc (i + 1)) 4096) (alloc (i + 1)) offset flags 0 1024 a
      (inl (omega arith)),
)

module _ (alloc : ℕ → ℕ) (flags : ℕ) (ok : IsAllocator alloc) where
  pub alloc-Apart : (n m : ℕ) → n ≤ 1024 → m ≤ 1024 → n ≢ m → Apart (alloc n) (alloc m)
  alloc-Apart n m le le' ne =
      pages-Apart (alloc n) (alloc m) (ok.aligned n le) (ok.aligned m le')
        (λ e. ne (ok.distinct n m le le' e))

  round-table :
      (mem : Words) (offset i j : ℕ)
      → i < 1024
      → j < i + 1
      → Filled alloc flags mem i
      → round alloc flags mem offset i (alloc 0 + 4 * j) ≡ bit_or (bit_or (alloc (j + 1)) flags) 2
  round-table mem offset i j lt hi filled = elim (Bool-cases (j == i)) [
    | inl new ↦
        let at : j ≡ i = (==_iff j i).0 new in
        ground (arith, ap (λ n. bit_or (bit_or (alloc (n + 1)) flags) 2) at)
    | inr old ↦
        let ne : j ≢ i = ground arith in
        round-kept alloc flags mem offset i (alloc 0 + 4 * j) (alloc 0) (omega arith) (omega arith)
          (alloc-Apart (i + 1) 0 (omega arith) (omega arith) (λ e. absurd (omega (arith, e))))
          (λ e. ne (omega (arith, e)))
        ∙ filled.tables j (omega (arith, ne))
  ]

  round-page :
      (mem : Words) (offset i j k : ℕ)
      → i < 1024
      → offset ≡ i * 4_194_304
      → j < i + 1
      → k < 1024
      → Filled alloc flags mem i
      → round alloc flags mem offset i (alloc (j + 1) + 4 * k)
        ≡ bit_or ((j * 4_194_304 + k * 4096) % 2 ^ 32) flags
  round-page mem offset i j k lt at hi lt' filled =
      elim (alloc-Apart (j + 1) 0 (omega arith) (omega arith) (λ e. absurd (omega (arith, e)))) [
        | inl before ↦ kept_or_new (λ e. absurd (omega (arith, e, before)))
        | inr behind ↦ kept_or_new (λ e. absurd (omega (arith, e, behind)))
      ]
    where
      kept_or_new :
          alloc (j + 1) + 4 * k ≢ alloc 0 + 4 * i
          → round alloc flags mem offset i (alloc (j + 1) + 4 * k)
            ≡ bit_or ((j * 4_194_304 + k * 4096) % 2 ^ 32) flags
      kept_or_new apart = elim (Bool-cases (j == i)) [
        | inl new ↦
            let same : j ≡ i = (==_iff j i).0 new in
            ground (
              arith,
              ap (λ n. alloc (n + 1) + 4 * k) same,
              ap (λ t. bit_or ((t + k * 4096) % 2 ^ 32) flags) {x = offset} {y = j * 4_194_304}
                  (omega arith),
              table_loop-inside (zeroed mem (alloc (i + 1)) 4096) (alloc (i + 1)) offset flags 0
                  1024 k (omega arith) (omega arith),
            )
        | inr old ↦
            let ne : j ≢ i = ground arith in
            round-kept alloc flags mem offset i (alloc (j + 1) + 4 * k) (alloc (j + 1))
              (omega arith) (omega arith)
              (alloc-Apart (i + 1) (j + 1) (omega arith) (omega arith) (λ e. ne (omega (arith, e))))
              apart
            ∙ filled.pages j k (omega (arith, ne)) lt'
      ]

  pub round-Filled :
      (mem : Words) (offset i : ℕ)
      → i < 1024
      → offset ≡ i * 4_194_304
      → Filled alloc flags mem i
      → Filled alloc flags (round alloc flags mem offset i) (i + 1)
  round-Filled mem offset i lt at filled = record {
    tables = λ j hi. round-table mem offset i j lt hi filled;
    pages = λ j k hi lt'. round-page mem offset i j k lt at hi lt' filled;
  }
