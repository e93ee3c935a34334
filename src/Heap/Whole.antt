-- ===== src/Heap/Whole.antt =====
-- The table as a whole, whose entries are clear or belong to an allocation; malloc and free as a pair.
use custom_peach_os.Prelude.{
  ℕ, ◌+◌, ◌*◌, ◌≤◌, ◌<◌, ◌≡◌, ◌≢◌, sym, ap, ◌∙◌, ◌⊎◌, inl, inr, some, List, ◌&&◌, arith, ltb, leb,
  ltb→lt, ◌==◌, ==_iff, Bool-cases, true, length, get_or, eq_of_get_or,
}
use mathlib.Core.Path.{subst}
use custom_peach_os.Heap.{Heap, block_size, malloc, free}
use custom_peach_os.Heap.Search.{free_at, Run}
use custom_peach_os.Heap.Mark.{Holds, Holds-unique}
use custom_peach_os.Heap.Alloc.{
  blocks_for, IsPlaced, address_of, free_at-past, Holds-taken, Allocates, Releases, malloc_lem,
  free_lem, Allocates-keeps, Releases-keeps,
}

-- Every entry is free and clear, or belongs to an allocation.
abbrev pub Covered : List ℕ → ℕ → Type 0
Covered es k = (s : ℕ) × (n : ℕ) × Holds es s n × (s ≤ k) × (k < s + n)

abbrev pub IsWhole : List ℕ → Type 0
IsWhole es = (k : ℕ) → k < length es → (get_or es k 0 ≡ 0) ⊎ Covered es k

-- `heap_malloc` keeps the table whole.
pub Allocates-IsWhole :
    (h h' : Heap) (n s : ℕ) → Allocates h n s h' → IsWhole h.entries → IsWhole h'.entries
Allocates-IsWhole h h' n s a whole k lt = elim (Bool-cases (leb s k && ltb k (s + n))) [
  | inl inside ↦ inr (s, n, a.holds, ground arith, ground arith)
  | inr outside ↦ elim (whole k (omega (arith, a.length_same))) [
    | inl clear ↦ inl (a.others k (ground arith) ∙ clear)
    | inr (t, m, v, le, lt') ↦ inr (t, m, (Allocates-keeps h h' n s t m a v).0, le, lt')
  ]
]

-- `heap_free` of an allocation keeps the table whole.
pub Releases-IsWhole :
    (h h' : Heap) (n s : ℕ)
    → Releases h n s h'
    → Holds h.entries s n
    → IsWhole h.entries
    → IsWhole h'.entries
Releases-IsWhole h h' n s r v whole k lt = elim (Bool-cases (leb s k && ltb k (s + n))) [
  | inl inside ↦ inl (r.cleared k ∙ rw inside)
  | inr outside ↦ elim (whole k (omega (arith, r.length_same))) [
    | inl clear ↦ inl (r.cleared k ∙ rw outside clear)
    | inr (t, m, w, le, lt') ↦ elim (Bool-cases (s == t)) [
      | inl same ↦ absurd (
          ground (
            arith,
            Holds-unique h.entries s n m v
                (subst (λ i. Holds h.entries i m) (sym ((==_iff s t).0 same)) w),
          ))
      | inr other ↦ inr (t, m, Releases-keeps h h' n s t m r v w (ground arith), le, lt')
    ]
  ]
]

Run-clear : (es : List ℕ) (k : ℕ) → IsWhole es → free_at es k ≡ true → get_or es k 0 ≡ 0
Run-clear es k whole f = elim (Bool-cases (ltb k (length es))) [
  | inr past ↦ cc (free_at-past es k (ground arith), f)
  | inl lt ↦ elim (whole k (ltb→lt _ _ lt)) [
    | inl clear ↦ clear
    | inr (t, m, v, le, lt') ↦ cc (Holds-taken es t m k v le lt', f)
  ]
]

Releases-Allocates :
    (h h' h'' : Heap) (n s : ℕ)
    → IsWhole h.entries
    → Allocates h n s h'
    → Releases h' n s h''
    → h'' ≡ h
Releases-Allocates h h' h'' n s whole a r = ground (
  arith,
  r.saddr_same,
  a.saddr_same,
  eq_of_get_or h''.entries h.entries 0 (r.length_same ∙ a.length_same) (λ k lt.
      r.cleared k
      ∙ ground (
        arith,
        a.others k,
        λ (le : s ≤ k) (kl : k < s + n). Run-clear h.entries k whole (a.were_free k le kl),
      )),
)

-- On a heap that lies in the address space and whose table is whole, for a request of at least one
-- block, and where enough blocks in a row are free, `heap_malloc` returns the address of a block of
-- the heap, and `heap_free` of it gives back the heap as it was.
pub free-malloc :
    (h : Heap) (size t : ℕ)
    → IsPlaced h
    → IsWhole h.entries
    → 0 < blocks_for size
    → Run h.entries t (blocks_for size)
    → (s : ℕ) × (h' : Heap) × (malloc h size ≡ some (address_of h s, h'))
      × (s < length h.entries)
      × (free h' (address_of h s) ≡ some h)
free-malloc h size t p whole pos_n run =
    let (s, h', done, le, a) = malloc_lem h size t p pos_n run in
    let placed : IsPlaced h' = record {
      not_null = omega (arith, p.not_null, a.saddr_same);
      in_space = omega (arith, p.in_space, a.saddr_same, a.length_same);
      offsets = omega (arith, p.offsets, a.length_same);
    } in
    let (h'', freed, r) = free_lem h' s (blocks_for size) placed a.holds in
    (
      s,
      h',
      done,
      omega (arith, a.holds.some_block, a.holds.fits, a.length_same),
      ap (λ b. free h' (b + s * block_size)) (sym a.saddr_same)
          ∙ freed
          ∙ ap some (Releases-Allocates h h' h'' (blocks_for size) s whole a r),
    )

-- On a heap that lies in the address space and whose table is whole, for a request of at least one
-- block, and where enough blocks in a row are free, `heap_malloc` keeps the table whole, and every
-- allocation that was there is left as it was and shares no block with the new one.
pub malloc-IsWhole :
    (h : Heap) (size t : ℕ)
    → IsPlaced h
    → IsWhole h.entries
    → 0 < blocks_for size
    → Run h.entries t (blocks_for size)
    → (s : ℕ) × (h' : Heap) × (malloc h size ≡ some (address_of h s, h'))
      × IsWhole h'.entries
      × ((u m : ℕ)
          → Holds h.entries u m
          → Holds h'.entries u m × ((s + blocks_for size ≤ u) ⊎ (u + m ≤ s)))
malloc-IsWhole h size t p whole pos_n run =
    let (s, h', done, le, a) = malloc_lem h size t p pos_n run in
    (
      s,
      h',
      done,
      Allocates-IsWhole h h' (blocks_for size) s a whole,
      λ u m v. Allocates-keeps h h' (blocks_for size) s u m a v,
    )

-- On a heap that lies in the address space and whose table is whole, `heap_free` of the address of
-- an allocation succeeds, keeps the table whole and leaves every other allocation as it was.
pub free-IsWhole :
    (h : Heap) (s n : ℕ)
    → IsPlaced h
    → IsWhole h.entries
    → Holds h.entries s n
    → (h' : Heap) × (free h (address_of h s) ≡ some h')
      × IsWhole h'.entries
      × ((u m : ℕ) → Holds h.entries u m → s ≢ u → Holds h'.entries u m)
free-IsWhole h s n p whole v =
    let (h', done, r) = free_lem h s n p v in
    (
      h',
      done,
      Releases-IsWhole h h' n s r v whole,
      λ u m w ne. Releases-keeps h h' n s u m r v w ne,
    )
