-- ===== src/Heap/Search.antt =====
-- The search of `heap_get_start_block`.
use custom_peach_os.Prelude.{
  ℕ, zero, suc, ◌+◌, ◌-◌, ◌≤◌, ◌<◌, ◌≡◌, refl, sym, ap, ◌∙◌, inl, inr, Bool, true, false, List, [],
  ◌∷◌, arith, ◌==◌, ==_iff, leb, leb→le, if◌then◌else◌, Bool-cases, length,
}
use custom_peach_os.Prelude.Int.{ℤ, pos, negsuc}
use mathlib.Core.Path.{subst, subst₂}
use custom_peach_os.Status.{enomem}
use custom_peach_os.Heap.{
  Heap, is_minus_one, get_entry_type, entry_free, start_loop, get_start_block,
}

-- Block `k` stands in the table, and its entry is free.
abbrev pub free_at : List ℕ → ℕ → Bool
free_at [] k = false
free_at (entry ∷ rest) zero = get_entry_type entry == entry_free
free_at (entry ∷ rest) (suc k) = free_at rest k

-- The `n` blocks from `t` on are free.
abbrev pub Run : List ℕ → ℕ → ℕ → Type 0
Run es t n = (k : ℕ) → t ≤ k → k < t + n → free_at es k ≡ true

-- What holds at the head of the loop: `bc` free blocks have been seen, from `bs` up to `i`.
abbrev Started : List ℕ → ℕ → ℕ → ℤ → Type 0
Started es i bc (pos b) = (b + bc ≡ i) × (0 < bc) × ((k : ℕ) → b ≤ k → k < i → free_at es k ≡ true)
Started es i bc (negsuc m) = (m ≡ 0) × (bc ≡ 0) × ((k : ℕ) → suc k ≡ i → free_at es k ≡ false)

abbrev Suffix : List ℕ → ℕ → List ℕ → Type 0
Suffix es i rest = (k : ℕ) → free_at rest k ≡ free_at es (i + k)

abbrev Before : ℤ → ℕ → ℕ → Type 0
Before (pos b) i t = b ≤ t
Before (negsuc m) i t = i ≤ t

Suffix-tail :
    (es : List ℕ) (i e : ℕ) (rest : List ℕ) → Suffix es i (e ∷ rest) → Suffix es (i + 1) rest
Suffix-tail es i e rest h k =
    h (suc k) ∙ ap (free_at es) {x = i + suc k} {y = i + 1 + k} (omega arith)

Suffix-head :
    (es : List ℕ) (i e : ℕ) (rest : List ℕ)
    → Suffix es i (e ∷ rest)
    → free_at es i ≡ (get_entry_type e == entry_free)
Suffix-head es i e rest h = ap (free_at es) {x = i} {y = i + 0} (omega arith) ∙ sym (h 0)

-- No free block stands at or behind the end of the table.
past_end : (es : List ℕ) (i k : ℕ) → Suffix es i [] → i ≤ k → free_at es k ≡ false
past_end es i k h le = ap (free_at es) {x = k} {y = i + (k - i)} (omega arith) ∙ sym (h (k - i))

not_Run_past : (es : List ℕ) (i t n : ℕ) → Suffix es i [] → 0 < n → i < t + n → ¬ Run es t n
not_Run_past es i t n h pos_n lt run =
    cc (past_end es i (t + n - 1) h (omega arith), run (t + n - 1) (omega arith) (omega arith))

Run_extend :
    (es : List ℕ) (b i : ℕ)
    → ((k : ℕ) → b ≤ k → k < i → free_at es k ≡ true)
    → free_at es i ≡ true
    → (k : ℕ) → b ≤ k
    → k < i + 1
    → free_at es k ≡ true
Run_extend es b i h f k le lt = elim (Bool-cases (k == i)) [
  | inl e ↦ rw ((==_iff k i).0 e) f
  | inr ne ↦ h k le (ground arith)
]

-- The three ways through the loop's body.
module _ (n e : ℕ) (rest : List ℕ) (i bc : ℕ) (bs : ℤ) where
  loop_taken :
      (get_entry_type e == entry_free) ≡ false
      → start_loop n (e ∷ rest) i bc bs ≡ start_loop n rest (i + 1) 0 (negsuc 0)
  unfolding start_loop
  loop_taken h = rw h

  loop_hit :
      (get_entry_type e == entry_free) ≡ true
      → (bc + 1 == n) ≡ true
      → start_loop n (e ∷ rest) i bc bs ≡ (if is_minus_one bs then pos i else bs)
  unfolding start_loop
  loop_hit h g = rw (h, g)

  loop_more :
      (get_entry_type e == entry_free) ≡ true
      → (bc + 1 == n) ≡ false
      → start_loop n (e ∷ rest) i bc bs
        ≡ start_loop n rest (i + 1) (bc + 1) (if is_minus_one bs then pos i else bs)
  unfolding start_loop
  loop_more h g = rw (h, g)

module _ (es : List ℕ) (i : ℕ) where
  -- A free entry starts a run, or makes it longer.
  Started-more :
      (bc : ℕ) (bs : ℤ)
      → Started es i bc bs
      → free_at es i ≡ true
      → (b : ℕ) × ((if is_minus_one bs then pos i else bs) ≡ pos b)
        × (b + bc ≡ i)
        × ((k : ℕ) → b ≤ k → k < i + 1 → free_at es k ≡ true)
        × ((t : ℕ) → Before bs i t → b ≤ t)
  Started-more bc (pos b) st f = (b, refl, st.0, Run_extend es b i st.2 f, λ t h. h)
  Started-more bc (negsuc zero) st f =
      (i, refl, omega arith, Run_extend es i i (λ k le lt. absurd (omega arith)) f, λ t h. h)
  Started-more bc (negsuc (suc m)) st f = absurd (omega (arith, st.0))

  -- A taken entry forgets the run.
  Started_reset : free_at es i ≡ false → (k : ℕ) → suc k ≡ i + 1 → free_at es k ≡ false
  Started_reset f k e = ap (free_at es) {x = k} {y = i} (omega arith) ∙ f

  Before-lt : (n bc : ℕ) (bs : ℤ) (t : ℕ) → bc < n → Started es i bc bs → Before bs i t → i < t + n
  Before-lt n bc (pos b) t lt st h = omega (arith, st.0)
  Before-lt n bc (negsuc m) t lt st h = omega arith

  Run-skips : (n t : ℕ) → free_at es i ≡ false → Run es t n → i < t + n → i + 1 ≤ t
  Run-skips n t f run lt = elim (Bool-cases (leb t i)) [
    | inl le ↦ cc (run i (leb→le t i le) lt, f)
    | inr gt ↦ ground arith
  ]

-- From the head of the loop a run that is not yet passed is found, at the first place.
start_loop_finds :
    (n : ℕ) (es rest : List ℕ) (i bc : ℕ) (bs : ℤ) (t : ℕ)
    → bc < n
    → Started es i bc bs
    → Suffix es i rest
    → Run es t n
    → Before bs i t
    → (s : ℕ) × (start_loop n rest i bc bs ≡ pos s) × Run es s n × (s ≤ t)
start_loop_finds n es [] i bc bs t lt st suf run bef =
    absurd (not_Run_past es i t n suf (omega arith) (Before-lt es i n bc bs t lt st bef) run)
start_loop_finds n es (e ∷ rest) i bc bs t lt st suf run bef =
    let tail = Suffix-tail es i e rest suf in
    elim (Bool-cases (get_entry_type e == entry_free)) [
      | inl free ↦
          let (b, eb, len, wide, first) =
            Started-more es i bc bs st (Suffix-head es i e rest suf ∙ free) in
          elim (Bool-cases (bc + 1 == n)) [
            | inl hit ↦ (
              b,
              loop_hit n e rest i bc bs free hit ∙ eb,
              λ k le kl. wide k le (ground arith),
              first t bef,
            )
            | inr more ↦
                let (s, found, r, le) =
                  start_loop_finds n es rest (i + 1) (bc + 1) (pos b) t (ground arith)
                    (omega arith, omega arith, wide) tail run (first t bef) in
                (
                  s,
                  loop_more n e rest i bc bs free more
                      ∙ ap (start_loop n rest (i + 1) (bc + 1)) eb
                      ∙ found,
                  r,
                  le,
                )
          ]
      | inr taken ↦
          let f = Suffix-head es i e rest suf ∙ taken in
          let (s, found, r, le) =
            start_loop_finds n es rest (i + 1) 0 (negsuc 0) t (omega arith)
              (refl, refl, Started_reset es i f) tail run
              (Run-skips es i n t f run (Before-lt es i n bc bs t lt st bef)) in
          (s, loop_taken n e rest i bc bs taken ∙ found, r, le)
    ]

-- If there is no run of `n` blocks the loop ends at the end of the table, in a state that `Started`
-- describes.
start_loop_ends :
    (n : ℕ) (es rest : List ℕ) (i bc : ℕ) (bs : ℤ)
    → bc < n
    → Started es i bc bs
    → Suffix es i rest
    → ((t : ℕ) → ¬ Run es t n)
    → (bc' : ℕ) × (bc' < n) × Started es (i + length rest) bc' (start_loop n rest i bc bs)
unfolding start_loop
start_loop_ends n es [] i bc bs lt st suf none_fits =
    (bc, lt, subst (λ k. Started es k bc bs) {x = i} {y = i + 0} (omega arith) st)
start_loop_ends n es (e ∷ rest) i bc bs lt st suf none_fits =
    let tail = Suffix-tail es i e rest suf in
    let long : i + 1 + length rest ≡ i + length (e ∷ rest) = omega arith in
    elim (Bool-cases (get_entry_type e == entry_free)) [
      | inl free ↦
          let (b, eb, len, wide, first) =
            Started-more es i bc bs st (Suffix-head es i e rest suf ∙ free) in
          elim (Bool-cases (bc + 1 == n)) [
            | inl hit ↦ absurd (none_fits b (λ k le kl. wide k le (ground arith)))
            | inr more ↦
                let (bc', lt', st') =
                  start_loop_ends n es rest (i + 1) (bc + 1) (pos b) (ground arith)
                    (omega arith, omega arith, wide) tail none_fits in
                (
                  bc',
                  lt',
                  subst₂ (λ k r. Started es k bc' r) long
                      (sym (
                        loop_more n e rest i bc bs free more
                        ∙ ap (start_loop n rest (i + 1) (bc + 1)) eb))
                      st',
                )
          ]
      | inr taken ↦
          let f = Suffix-head es i e rest suf ∙ taken in
          let (bc', lt', st') =
            start_loop_ends n es rest (i + 1) 0 (negsuc 0) (omega arith)
              (refl, refl, Started_reset es i f) tail none_fits in
          (
            bc',
            lt',
            subst₂ (λ k r. Started es k bc' r) long (sym (loop_taken n e rest i bc bs taken)) st',
          )
    ]

-- With room for `n` blocks, the block returned starts a run of `n` free blocks, and none starts
-- before it.
pub get_start_block_finds :
    (h : Heap) (n t : ℕ)
    → 0 < n
    → Run h.entries t n
    → (s : ℕ) × (get_start_block h n ≡ pos s) × Run h.entries s n × (s ≤ t)
unfolding get_start_block
get_start_block_finds h n t pos_n run =
    let (s, found, r, le) =
      start_loop_finds n h.entries h.entries 0 0 (negsuc 0) t pos_n
        (refl, refl, λ k e. absurd (omega arith))
        (λ k. ap (free_at h.entries) {x = k} {y = 0 + k} (omega arith)) run (omega arith) in
    (s, rw found, r, le)

-- What `heap_get_start_block` answers where no `n` blocks in a row are free.
pub data NoRoom (es : List ℕ) (n : ℕ) (answer : ℤ) : Type 0 where
  -- The free blocks at the end of the table, fewer than `n`.
  short :
      (s bc : ℕ)
      → answer ≡ pos s
      → s + bc ≡ length es
      → 0 < bc
      → bc < n
      → Run es s bc
      → NoRoom es n answer
  -- The last block is taken.
  refused :
      answer ≡ enomem → ((k : ℕ) → suc k ≡ length es → free_at es k ≡ false) → NoRoom es n answer

NoRoom-of :
    (es : List ℕ) (n bc i : ℕ) (bs : ℤ)
    → i ≡ length es
    → bc < n
    → Started es i bc bs
    → NoRoom es n (if is_minus_one bs then enomem else bs)
NoRoom-of es n bc i (pos s) e lt st =
    short s bc refl (omega (arith, st.0)) st.1 lt (λ k le kl. st.2 k le (omega (arith, st.0)))
NoRoom-of es n bc i (negsuc zero) e lt st = refused refl (λ k ke. st.2 k (omega arith))
NoRoom-of es n bc i (negsuc (suc m)) e lt st = absurd (omega (arith, st.0))

pub get_start_block-NoRoom :
    (h : Heap) (n : ℕ)
    → 0 < n
    → ((t : ℕ) → ¬ Run h.entries t n)
    → NoRoom h.entries n (get_start_block h n)
unfolding get_start_block
get_start_block-NoRoom h n pos_n none_fits =
    let (bc, lt, st) =
      start_loop_ends n h.entries h.entries 0 0 (negsuc 0) pos_n
        (refl, refl, λ k e. absurd (omega arith))
        (λ k. ap (free_at h.entries) {x = k} {y = 0 + k} (omega arith)) none_fits in
    NoRoom-of h.entries n bc (0 + length h.entries) (start_loop n h.entries 0 0 (negsuc 0))
      (omega arith) lt st
