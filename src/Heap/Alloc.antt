-- ===== src/Heap/Alloc.antt =====
-- `heap_malloc` and `heap_free`: what a client of the allocator may rely on.
use custom_peach_os.Prelude.{
  ℕ, zero, suc, ◌+◌, ◌-◌, ◌*◌, ◌/◌, ◌^◌, ◌≤◌, ◌<◌, ◌≡◌, ◌≢◌, refl, ap, ◌∙◌, ◌⊎◌, inl, inr, true,
  false, none, some, List, [], ◌∷◌, ◌&&◌, arith, ltb, leb, leb→le, if◌then◌else◌, Bool-cases,
  length, get_or,
}
use custom_peach_os.Prelude.Int.{pos}
use custom_peach_os.Heap.{
  Heap, block_size, get_entry_type, align_value_to_upper, get_start_block, block_to_address,
  malloc_blocks, mark_blocks_taken, malloc, address_to_block, mark_blocks_free, free,
}
use custom_peach_os.Heap.Search.{free_at, Run, get_start_block_finds}
use custom_peach_os.Heap.Mark.{
  Holds, mark_blocks_taken_marks, mark_blocks_free_clears, Holds-disjoint,
}

free_at-get_or : (es : List ℕ) (k : ℕ) → free_at es k ≡ true → get_entry_type (get_or es k 0) ≡ 0
free_at-get_or [] k f = cc
free_at-get_or (e ∷ es) zero f = ground arith
free_at-get_or (e ∷ es) (suc k) f = free_at-get_or es k f

pub free_at-past : (es : List ℕ) (k : ℕ) → length es ≤ k → free_at es k ≡ false
free_at-past [] k h = refl
free_at-past (e ∷ es) zero h = absurd (omega arith)
free_at-past (e ∷ es) (suc k) h = free_at-past es k (omega arith)

-- The number of blocks that a request of `size` bytes takes.
abbrev pub blocks_for : ℕ → ℕ
blocks_for size = align_value_to_upper size / block_size

-- The blocks lie in the address space, below the sign bit of an offset, and not at address 0.
pub record IsPlaced (h : Heap) : Type 0 where
  pub not_null : 0 < h.saddr
  pub in_space : h.saddr + length h.entries * block_size ≤ 2 ^ 32
  pub offsets : length h.entries * block_size ≤ 2 ^ 31

abbrev pub address_of : Heap → ℕ → ℕ
address_of h s = h.saddr + s * block_size

-- A request whose size is at least one block below 2^32 is rounded up to whole blocks, and by less
-- than one block.
pub blocks_for_bounds :
    (size : ℕ)
    → size + block_size ≤ 2 ^ 32
    → (size ≤ blocks_for size * block_size) × (blocks_for size * block_size < size + block_size)
unfolding align_value_to_upper
blocks_for_bounds size h = ground arith

-- Blocks and their addresses correspond.
pub address_to_block_of :
    (h : Heap) (s : ℕ)
    → IsPlaced h
    → s < length h.entries
    → (block_to_address h s ≡ address_of h s) × (address_to_block h (address_of h s) ≡ pos s)
unfolding block_to_address address_to_block
address_to_block_of h s p lt = ground arith

-- What an allocation of `n` blocks at block `s` does to the heap.
pub record Allocates (h : Heap) (n s : ℕ) (h' : Heap) : Type 0 where
  pub were_free : Run h.entries s n
  pub holds : Holds h'.entries s n
  pub saddr_same : h'.saddr ≡ h.saddr
  pub length_same : length h'.entries ≡ length h.entries
  pub others : (k : ℕ) → (k < s) ⊎ (s + n ≤ k) → get_or h'.entries k 0 ≡ get_or h.entries k 0

-- What freeing the `n` blocks at block `s` does to the heap.
pub record Releases (h : Heap) (n s : ℕ) (h' : Heap) : Type 0 where
  pub saddr_same : h'.saddr ≡ h.saddr
  pub length_same : length h'.entries ≡ length h.entries
  pub cleared :
      (k : ℕ)
      → get_or h'.entries k 0 ≡ (if leb s k && ltb k (s + n) then 0 else get_or h.entries k 0)

pub Run-fits : (es : List ℕ) (s n : ℕ) → 0 < n → Run es s n → s + n ≤ length es
Run-fits es s n pos_n run = elim (Bool-cases (leb (s + n) (length es))) [
  | inl le ↦ leb→le _ _ le
  | inr gt ↦
      cc (free_at-past es (s + n - 1) (ground arith), run (s + n - 1) (omega arith) (omega arith))
]

pub malloc_blocks_of :
    (h : Heap) (n s : ℕ) {h' : Heap}
    → get_start_block h n ≡ pos s
    → mark_blocks_taken h s n ≡ some h'
    → malloc_blocks h n ≡ some (block_to_address h s, h')
unfolding malloc_blocks
malloc_blocks_of h n s found done = rw (found, malloc_blocks) (rw (done, malloc_blocks))

-- On a heap that lies in the address space, for a request of at least one block, and where the
-- blocks from `t` on are a free run as long as the request takes, `heap_malloc` allocates free
-- blocks that start at `t` or before, returns the address of the first of them, enters the
-- allocation in the table and changes no other entry.
pub malloc_lem :
    (h : Heap) (size t : ℕ)
    → IsPlaced h
    → 0 < blocks_for size
    → Run h.entries t (blocks_for size)
    → (s : ℕ) × (h' : Heap) × (malloc h size ≡ some (address_of h s, h'))
      × (s ≤ t)
      × Allocates h (blocks_for size) s h'
unfolding malloc
malloc_lem h size t p pos_n run =
    let (s, found, r, le) = get_start_block_finds h (blocks_for size) t pos_n run in
    let fits = Run-fits h.entries s (blocks_for size) pos_n r in
    let (h', done, holds, base, len, others) =
      mark_blocks_taken_marks h s (blocks_for size) pos_n fits in
    (
      s,
      h',
      rw (
        malloc_blocks_of h (blocks_for size) s found done,
        (address_to_block_of h s p (omega (arith, fits))).0,
      ),
      le,
      record {
        were_free = r;
        holds = holds;
        saddr_same = base;
        length_same = len;
        others = others;
      },
    )

-- On a heap that lies in the address space, `heap_free` of the address of an allocation clears the
-- entries of its blocks and changes no other entry.
pub free_lem :
    (h : Heap) (s n : ℕ)
    → IsPlaced h
    → Holds h.entries s n
    → (h' : Heap) × (free h (address_of h s) ≡ some h') × Releases h n s h'
unfolding free
free_lem h s n p v =
    let (h', done, base, len, at) = mark_blocks_free_clears h s n v in
    (
      h',
      rw ((address_to_block_of h s p (omega (arith, v.some_block, v.fits))).1) done,
      record { saddr_same = base; length_same = len; cleared = at },
    )

-- An allocation's blocks are not free.
pub Holds-taken :
    (es : List ℕ) (s n k : ℕ) → Holds es s n → s ≤ k → k < s + n → free_at es k ≡ false
Holds-taken es s n k v le lt = elim (Bool-cases (free_at es k)) [
  | inr f ↦ f
  | inl f ↦ absurd (
      ground (
        arith,
        free_at-get_or es k f,
        v.entry (k - s) (omega arith),
        ap (λ i. get_or es i 0) {x = s + (k - s)} {y = k} (omega arith),
      ))
]

-- So free blocks and an allocation's do not overlap.
Run-apart :
    (es : List ℕ) (s n t m : ℕ) → Run es s n → Holds es t m → 0 < n → (s + n ≤ t) ⊎ (t + m ≤ s)
Run-apart es s n t m run v pos_n = elim (Bool-cases (leb s t)) [
  | inl le ↦ elim (Bool-cases (leb (s + n) t)) [
    | inl out ↦ inl (leb→le _ _ out)
    | inr over ↦ absurd (
        ground (
          arith,
          run t (ground arith) (ground arith),
          v.some_block,
          Holds-taken es t m t v (omega arith) (omega (arith, v.some_block)),
        ))
  ]
  | inr gt ↦ elim (Bool-cases (leb (t + m) s)) [
    | inl out ↦ inr (leb→le _ _ out)
    | inr over ↦ absurd (
        ground (
          arith,
          run s (omega arith) (omega arith),
          Holds-taken es t m s v (ground arith) (ground arith),
        ))
  ]
]

-- A new allocation shares no block with one that was there, and leaves it as it was.
pub Allocates-keeps :
    (h h' : Heap) (n s t m : ℕ)
    → Allocates h n s h'
    → Holds h.entries t m
    → Holds h'.entries t m × ((s + n ≤ t) ⊎ (t + m ≤ s))
Allocates-keeps h h' n s t m a v =
    let apart = Run-apart h.entries s n t m a.were_free v a.holds.some_block in
    (
      record {
        some_block = v.some_block;
        fits = omega (arith, v.fits, a.length_same);
        entry = λ k lt. a.others (t + k) (ground (arith, apart)) ∙ v.entry k lt;
      },
      apart,
    )

-- Freeing one allocation leaves every other as it was.
pub Releases-keeps :
    (h h' : Heap) (n s t m : ℕ)
    → Releases h n s h'
    → Holds h.entries s n
    → Holds h.entries t m
    → s ≢ t
    → Holds h'.entries t m
Releases-keeps h h' n s t m r v w ne = record {
  some_block = w.some_block;
  fits = omega (arith, w.fits, r.length_same);
  entry = λ k lt.
      r.cleared (t + k) ∙ ground (arith, Holds-disjoint h.entries s n t m v w ne, w.entry k lt);
}

-- Freeing address 0 reads before the table.
pub free-null : (h : Heap) → block_size ≤ h.saddr → h.saddr ≤ 2 ^ 31 → free h 0 ≡ none
unfolding free mark_blocks_free address_to_block
free-null h lo hi = ground arith
