-- ===== src/Heap/Mark.antt =====
-- The entries of an allocation, for `heap_mark_blocks_taken` and `heap_mark_blocks_free`.
use custom_peach_os.Prelude.{
  ℕ, zero, suc, ◌+◌, ◌-◌, ◌≤◌, ◌<◌, ◌≡◌, ◌≢◌, refl, ap, ◌∙◌, ◌⊎◌, inl, inr, ◌&&◌, ◌||◌, none, some,
  List, [], ◌∷◌, arith, ltb, leb, ◌==◌, ==_iff, if◌then◌else◌, Bool-cases, bit_and, lt→ltb, leb→le,
  ltb→lt, length, get_or, set, length-set, get_or-set_self, get_or-set_ne,
}
use custom_peach_os.Prelude.Int.{pos}
use custom_peach_os.Heap.{
  Heap, has_next, taken_loop, mark_blocks_taken, free_loop, free_from, mark_blocks_free,
}

-- The entry of the block at offset `k` of an allocation of `n` blocks.
abbrev pub chain_entry : ℕ → ℕ → ℕ
chain_entry n k =
    if k == 0 then (if n == 1 then 0x41 else 0xc1) else (if k + 1 == n then 0x01 else 0x81)

-- An allocation of `n` blocks starts at block `s`.
pub record Holds (es : List ℕ) (s n : ℕ) : Type 0 where
  pub some_block : 0 < n
  pub fits : s + n ≤ length es
  pub entry : (k : ℕ) → k < n → get_or es (s + k) 0 ≡ chain_entry n k

-- What the loop leaves at index `k`.
abbrev marked : List ℕ → ℕ → ℕ → ℕ → ℕ → ℕ
marked es i rounds entry k =
    if ltb k i || leb (i + rounds) k
    then get_or es k 0
    else (if k == i then entry else (if k + 1 == i + rounds then 0x01 else 0x81))

get_or-set :
    (es : List ℕ) (i k v : ℕ)
    → i < length es
    → get_or (set es i v) k 0 ≡ (if k == i then v else get_or es k 0)
get_or-set es i k v lt = elim (Bool-cases (k == i)) [
  | inl e ↦ rw ((==_iff k i).0 e, get_or-set_self es i v 0 lt) (ground arith)
  | inr ne ↦ rw (get_or-set_ne es i k v 0 (ground arith), ne)
]

marked_step :
    (es : List ℕ) (i rounds entry k : ℕ)
    → i < length es
    → marked (set es i entry) (i + 1) rounds (if rounds == 1 then 0x01 else 0x81) k
      ≡ marked es i (suc rounds) entry k
marked_step es i rounds entry k lt = ground (arith, get_or-set es i k entry lt)

taken_loop_marks :
    (rounds i entry : ℕ) (es : List ℕ)
    → i + rounds ≤ length es
    → (es' : List ℕ) × (taken_loop rounds i entry es ≡ some es')
      × (length es' ≡ length es)
      × ((k : ℕ) → get_or es' k 0 ≡ marked es i rounds entry k)
unfolding taken_loop
taken_loop_marks zero i entry es h = (es, refl, refl, λ k. ground arith)
taken_loop_marks (suc rounds) i entry es h =
    let next : ℕ = if rounds == 1 then 0x01 else 0x81 in
    let (es', done, len, at) =
      taken_loop_marks rounds (i + 1) next (set es i entry)
        (omega (arith, length-set es i entry)) in
    (
      es',
      rw (lt→ltb i (length es) (omega arith)) done,
      len ∙ length-set es i entry,
      λ k. at k ∙ marked_step es i rounds entry k (omega arith),
    )

-- A write past the table's end is a fault.
taken_loop_faults :
    (rounds i entry : ℕ) (es : List ℕ)
    → 0 < rounds
    → length es < i + rounds
    → taken_loop rounds i entry es ≡ none
unfolding taken_loop
taken_loop_faults zero i entry es h lt = absurd (omega arith)
taken_loop_faults (suc rounds) i entry es h lt = elim (Bool-cases (ltb i (length es))) [
  | inr out ↦ rw out
  | inl inside ↦ rw inside (
      taken_loop_faults rounds (i + 1) _ (set es i entry) (ground arith)
        (omega (arith, length-set es i entry)))
]

-- Room for the blocks is what the marking needs. It writes one allocation, and nothing else.
pub mark_blocks_taken_marks :
    (h : Heap) (s n : ℕ)
    → 0 < n
    → s + n ≤ length h.entries
    → (h' : Heap) × (mark_blocks_taken h s n ≡ some h')
      × Holds h'.entries s n
      × (h'.saddr ≡ h.saddr)
      × (length h'.entries ≡ length h.entries)
      × ((k : ℕ) → (k < s) ⊎ (s + n ≤ k) → get_or h'.entries k 0 ≡ get_or h.entries k 0)
unfolding mark_blocks_taken
mark_blocks_taken_marks h s n pos_n fits =
    let first : ℕ = if ltb 1 n then 0xc1 else 0x41 in
    let (es', done, len, at) = taken_loop_marks n s first h.entries fits in
    (
      record h { entries = es' },
      rw (done, mark_blocks_taken),
      record { some_block = pos_n; fits = omega arith; entry = λ k lt. at (s + k) ∙ ground arith },
      refl,
      len,
      λ k out. at k ∙ ground arith,
    )

pub mark_blocks_taken_faults :
    (h : Heap) (s n : ℕ) → 0 < n → length h.entries < s + n → mark_blocks_taken h s n ≡ none
unfolding mark_blocks_taken
mark_blocks_taken_faults h s n pos_n lt =
    rw
      (taken_loop_faults n s (if ltb 1 n then 0xc1 else 0x41) h.entries pos_n lt, mark_blocks_taken)

-- Up to offset `n` only the last entry lacks the flag for more.
abbrev Links : List ℕ → ℕ → Type 0
Links es n = (k : ℕ) → k < n → (bit_and (get_or es k 0) has_next == 0) ≡ (k + 1 == n)

free_loop_clears :
    (es : List ℕ) (n k : ℕ)
    → 0 < n
    → n ≤ length es
    → Links es n
    → get_or (free_loop es) k 0 ≡ (if ltb k n then 0 else get_or es k 0)
unfolding free_loop
free_loop_clears [] n k pos_n fits links = absurd (omega arith)
free_loop_clears (e ∷ es) n zero pos_n fits links = ground arith
free_loop_clears (e ∷ es) n (suc k) pos_n fits links = elim (Bool-cases (n == 1)) [
  | inl one ↦ ground (arith, links 0 pos_n)
  | inr more ↦ ground (
    arith,
    links 0 pos_n,
    free_loop_clears es (n - 1) k (ground arith) (omega arith)
        (λ j lt. links (suc j) (omega arith) ∙ ground arith),
  )
]

length-free_loop : (es : List ℕ) → length (free_loop es) ≡ length es
unfolding free_loop
length-free_loop [] = refl
length-free_loop (e ∷ es) = ground (arith, length-free_loop es)

length-free_from : (s : ℕ) (es : List ℕ) → length (free_from s es) ≡ length es
unfolding free_from
length-free_from zero es = length-free_loop es
length-free_from (suc s) [] = refl
length-free_from (suc s) (e ∷ es) = ap suc (length-free_from s es)

free_from_clears :
    (s : ℕ) (es : List ℕ) (n k : ℕ)
    → 0 < n
    → s + n ≤ length es
    → ((j : ℕ) → j < n → (bit_and (get_or es (s + j) 0) has_next == 0) ≡ (j + 1 == n))
    → get_or (free_from s es) k 0 ≡ (if leb s k && ltb k (s + n) then 0 else get_or es k 0)
unfolding free_from
free_from_clears zero es n k pos_n fits links = ground (
  arith,
  free_loop_clears es n k pos_n (omega arith) (λ j lt.
      ap (λ i. bit_and (get_or es i 0) has_next == 0) {x = j} {y = 0 + j} (omega arith)
      ∙ links j lt),
)
free_from_clears (suc s) [] n k pos_n fits links = absurd (omega arith)
free_from_clears (suc s) (e ∷ es) n zero pos_n fits links = ground arith
free_from_clears (suc s) (e ∷ es) n (suc k) pos_n fits links = ground (
  arith,
  free_from_clears s es n k pos_n (omega arith) (λ j lt.
      ap (λ i. bit_and (get_or (e ∷ es) i 0) has_next == 0) {x = suc (s + j)} {y = suc s + j}
        (omega arith)
      ∙ links j lt),
)

chain_entry_links : (n k : ℕ) → k < n → (bit_and (chain_entry n k) has_next == 0) ≡ (k + 1 == n)
chain_entry_links n k lt = ground arith

-- Freeing an allocation's first block frees its blocks, and changes no other entry.
pub mark_blocks_free_clears :
    (h : Heap) (s n : ℕ)
    → Holds h.entries s n
    → (h' : Heap) × (mark_blocks_free h (pos s) ≡ some h')
      × (h'.saddr ≡ h.saddr)
      × (length h'.entries ≡ length h.entries)
      × ((k : ℕ)
          → get_or h'.entries k 0 ≡ (if leb s k && ltb k (s + n) then 0 else get_or h.entries k 0))
unfolding mark_blocks_free
mark_blocks_free_clears h s n v = (
  record h { entries = free_from s h.entries },
  refl,
  refl,
  length-free_from s h.entries,
  λ k.
      free_from_clears s h.entries n k v.some_block v.fits
        (λ j lt. ap (λ (e : ℕ). bit_and e has_next == 0) (v.entry j lt) ∙ chain_entry_links n j lt),
)

-- Two allocations that start at different blocks share none.
Holds-before : (es : List ℕ) (s n t m : ℕ) → Holds es s n → Holds es t m → s < t → s + n ≤ t
Holds-before es s n t m v w lt = elim (Bool-cases (leb (s + n) t)) [
  | inl le ↦ leb→le (s + n) t le
  | inr gt ↦ absurd (
      ground (
        arith,
        v.entry (t - s) (ground arith),
        w.entry 0 w.some_block,
        ap (λ i. get_or es i 0) {x = s + (t - s)} {y = t + 0} (omega arith),
      ))
]

pub Holds-disjoint :
    (es : List ℕ) (s n t m : ℕ) → Holds es s n → Holds es t m → s ≢ t → (s + n ≤ t) ⊎ (t + m ≤ s)
Holds-disjoint es s n t m v w ne = elim (Bool-cases (ltb s t)) [
  | inl lt ↦ inl (Holds-before es s n t m v w (ltb→lt s t lt))
  | inr ge ↦ inr (Holds-before es t m s n w v (ground arith))
]

-- A block starts at most one allocation.
Holds-unique_le : (es : List ℕ) (s n m : ℕ) → Holds es s n → Holds es s m → n < m → ⊥
Holds-unique_le es s n m v w lt = ground (
  arith,
  v.some_block,
  v.entry (n - 1) (omega (arith, v.some_block)),
  w.entry (n - 1) (omega arith),
)

pub Holds-unique : (es : List ℕ) (s n m : ℕ) → Holds es s n → Holds es s m → n ≡ m
Holds-unique es s n m v w =
    ground (arith, Holds-unique_le es s n m v w, Holds-unique_le es s m n w v)
