-- ===== src/Task/Copy/Strings.antt =====
-- `strncpy` through pointers that the page tables translate.
use custom_peach_os.Prelude.{
  ℕ, zero, suc, ◌+◌, ◌-◌, ◌^◌, ◌≤◌, ◌<◌, ◌≡◌, ◌≢◌, refl, sym, ap, ◌∙◌, ◌⊎◌, inl, inr, Option, some,
  [], ◌∷◌, ◌++◌, arith, ◌==◌, ==_iff, if◌then◌else◌, Bool-cases, length, length-append, get_or,
}
use custom_peach_os.CString.{Bytes, cstr}
use custom_peach_os.Memory.{Mem, store}
use custom_peach_os.Memory.Blocks.{inside}
use custom_peach_os.Task.Copy.{advance, strncpy_loop, strncpy}

-- The `n` bytes at the places `at 0`, `at 1` and so on.
abbrev pub seen : Mem → (ℕ → ℕ) → ℕ → Bytes
seen mem at zero = []
seen mem at (suc n) = mem (at 0) ∷ seen mem (λ i. at (suc i)) n

abbrev pub write_bytes : Mem → ℕ → Bytes → Mem
write_bytes mem p [] = mem
write_bytes mem p (c ∷ s) = write_bytes (store mem p c) (p + 1) s

-- Another place, or behind the last of `n` bytes.
abbrev pub Outside : ℕ → ℕ → ℕ → Type 0
Outside d n a = (a < d) ⊎ (d + n < a)

pub seen_same :
    (mem mem' : Mem) (at : ℕ → ℕ) (n : ℕ)
    → ((i : ℕ) → i < n → mem' (at i) ≡ mem (at i))
    → seen mem' at n ≡ seen mem at n
seen_same mem mem' at zero h = refl
seen_same mem mem' at (suc n) h =
    cc (h 0 (omega arith), seen_same mem mem' (λ i. at (suc i)) n (λ i lt. h (suc i) (omega arith)))

module _ (tr : ℕ → Option ℕ) where
  loop_write :
      (mem : Mem) (dest src rounds d a : ℕ)
      → tr dest ≡ some d
      → tr src ≡ some a
      → mem a ≢ 0
      → strncpy_loop tr mem dest src (suc rounds)
        ≡ strncpy_loop tr (store mem d (mem a)) (advance dest 1) (advance src 1) rounds
  unfolding strncpy_loop
  loop_write mem dest src rounds d a to from ne = ground arith

  loop_end :
      (mem : Mem) (dest src rounds d a : ℕ)
      → tr dest ≡ some d
      → tr src ≡ some a
      → mem a ≡ 0
      → strncpy_loop tr mem dest src (suc rounds) ≡ some (store mem d 0)
  unfolding strncpy_loop
  loop_end mem dest src rounds d a to from e = ground arith

  loop_done :
      (mem : Mem) (dest src d : ℕ)
      → tr dest ≡ some d
      → strncpy_loop tr mem dest src 0 ≡ some (store mem d 0)
  unfolding strncpy_loop
  loop_done mem dest src d to = ground arith

  place : (p i a : ℕ) → p + suc i < 2 ^ 32 → tr (p + suc i) ≡ some a → tr (advance p 1 + i) ≡ some a
  place p i a lt h = ap tr {x = advance p 1 + i} {y = p + suc i} (omega arith) ∙ h

  -- Where the pages of both strings are there and no byte that is read is one that is written, the
  -- loop writes the string that is seen and a NUL.
  strncpy_loop-writes :
      (rounds : ℕ) (mem : Mem) (dest src d : ℕ) (at : ℕ → ℕ)
      → dest + rounds < 2 ^ 32
      → src + rounds < 2 ^ 32
      → ((i : ℕ) → i ≤ rounds → tr (dest + i) ≡ some (d + i))
      → ((i : ℕ) → i < rounds → tr (src + i) ≡ some (at i))
      → ((i : ℕ) → i < rounds → Outside d rounds (at i))
      → strncpy_loop tr mem dest src rounds
        ≡ some (write_bytes mem d (cstr (seen mem at rounds) ++ (0 ∷ [])))
  strncpy_loop-writes zero mem dest src d at ld ls to from apart = loop_done mem dest src d (
      ap tr {x = dest} {y = dest + 0} (omega arith)
      ∙ to 0 (omega arith)
      ∙ ap some {x = d + 0} {y = d} (omega arith))
  strncpy_loop-writes (suc n) mem dest src d at ld ls to from apart =
      let here : tr dest ≡ some d =
        ap tr {x = dest} {y = dest + 0} (omega arith)
        ∙ to 0 (omega arith)
        ∙ ap some {x = d + 0} {y = d} (omega arith) in
      let there : tr src ≡ some (at 0) =
        ap tr {x = src} {y = src + 0} (omega arith) ∙ from 0 (omega arith) in
      elim (Bool-cases (mem (at 0) == 0)) [
        | inl e ↦ rw e (loop_end mem dest src n d (at 0) here there ((==_iff (mem (at 0)) 0).0 e))
        | inr e ↦ rw e (
            loop_write mem dest src n d (at 0) here there (ground arith)
            ∙ strncpy_loop-writes n (store mem d (mem (at 0))) (advance dest 1) (advance src 1)
                (d + 1) (λ i. at (suc i)) (omega arith) (omega arith)
                (λ i le. place dest i (d + 1 + i) (omega arith) (
                  to (suc i) (omega arith) ∙ ap some {x = d + suc i} {y = d + 1 + i} (omega arith)))
                (λ i lt. place src i (at (suc i)) (omega arith) (from (suc i) (omega arith)))
                (λ i lt. omega (arith, apart (suc i) (omega arith)))
            ∙ ap (λ s. some (write_bytes (store mem d (mem (at 0))) (d + 1) (cstr s ++ (0 ∷ []))))
                (seen_same mem (store mem d (mem (at 0))) (λ i. at (suc i)) n
                  (λ i lt. ground (arith, apart (suc i) (omega arith)))))
      ]

  -- Where the pages of both strings are there and no byte that is read is one that is written,
  -- `strncpy` writes the string that is seen, cut to `count - 1` bytes, and a NUL.
  pub strncpy-writes :
      (mem : Mem) (dest src count d : ℕ) (at : ℕ → ℕ)
      → dest + count ≤ 2 ^ 32
      → src + count ≤ 2 ^ 32
      → 0 < count
      → ((i : ℕ) → i < count → tr (dest + i) ≡ some (d + i))
      → ((i : ℕ) → i < count → tr (src + i) ≡ some (at i))
      → ((i : ℕ) → i < count → Outside d (count - 1) (at i))
      → strncpy tr mem dest src count
        ≡ some (write_bytes mem d (cstr (seen mem at (count - 1)) ++ (0 ∷ [])))
  unfolding strncpy
  strncpy-writes mem dest src count d at ld ls pos_n to from apart =
      strncpy_loop-writes (count - 1) mem dest src d at (omega arith) (omega arith)
        (λ i le. to i (omega arith)) (λ i lt. from i (omega arith)) (λ i lt. apart i (omega arith))

pub write_bytes-at :
    (s : Bytes) (mem : Mem) (p a : ℕ)
    → write_bytes mem p s a ≡ (if inside p (length s) a then get_or s (a - p) 0 else mem a)
write_bytes-at [] mem p a = ground arith
write_bytes-at (c ∷ s) mem p a = ground (
  arith,
  write_bytes-at s (store mem p c) (p + 1) a,
  λ (lt : p < a). ap (λ i. get_or (c ∷ s) i 0) {x = suc (a - (p + 1))} {y = a - p} (omega arith),
  λ (e : a ≡ p). ap (λ i. get_or (c ∷ s) i 0) {x = 0} {y = a - p} (omega arith),
)

abbrev pub NoNul : Bytes → Type 0
NoNul [] = Unit
NoNul (c ∷ s) = (c ≢ 0) × NoNul s

pub cstr-NoNul : (s : Bytes) → NoNul (cstr s)
cstr-NoNul [] = tt
cstr-NoNul (c ∷ s) = elim (Bool-cases (c == 0)) [
  | inl e ↦ rw e tt
  | inr e ↦ rw e (ground arith, cstr-NoNul s)
]

pub length-cstr-seen : (mem : Mem) (at : ℕ → ℕ) (n : ℕ) → length (cstr (seen mem at n)) ≤ n
length-cstr-seen mem at zero = omega arith
length-cstr-seen mem at (suc n) = ground (arith, length-cstr-seen mem (λ i. at (suc i)) n)

-- A string that stands at the places, with a NUL behind it, is seen.
pub cstr-seen :
    (s : Bytes) (mem : Mem) (at : ℕ → ℕ) (n : ℕ)
    → NoNul s
    → length s ≤ n
    → ((i : ℕ) → i ≤ length s → mem (at i) ≡ get_or s i 0)
    → cstr (seen mem at n) ≡ s
cstr-seen [] mem at zero ok le h = refl
cstr-seen [] mem at (suc n) ok le h = rw (h 0 (omega arith)) refl
cstr-seen (c ∷ s) mem at zero ok le h = absurd (omega arith)
cstr-seen (c ∷ s) mem at (suc n) ok le h = ground (
  arith,
  ok.0,
  h 0 (omega arith),
  cstr-seen s mem (λ i. at (suc i)) n ok.1 (omega arith) (λ i lt. h (suc i) (omega arith)),
)

pub get_or-terminated : (s : Bytes) (i : ℕ) → get_or (s ++ (0 ∷ [])) i 0 ≡ get_or s i 0
get_or-terminated [] zero = refl
get_or-terminated [] (suc i) = refl
get_or-terminated (c ∷ s) zero = refl
get_or-terminated (c ∷ s) (suc i) = get_or-terminated s i

-- The string that is written, with its NUL, stands where it was written.
pub write_bytes-inside :
    (s : Bytes) (mem : Mem) (p i : ℕ)
    → i ≤ length s
    → write_bytes mem p (s ++ (0 ∷ [])) (p + i) ≡ get_or s i 0
write_bytes-inside s mem p i le =
    write_bytes-at (s ++ (0 ∷ [])) mem p (p + i)
    ∙ ground (
      arith,
      length-append s (0 ∷ []),
      ap (λ k. get_or (s ++ (0 ∷ [])) k 0) {x = p + i - p} {y = i} (omega arith),
      get_or-terminated s i,
    )

-- Elsewhere nothing changes.
pub write_bytes-outside :
    (s : Bytes) (mem : Mem) (p a : ℕ)
    → (a < p) ⊎ (p + length s < a)
    → write_bytes mem p (s ++ (0 ∷ [])) a ≡ mem a
write_bytes-outside s mem p a out =
    write_bytes-at (s ++ (0 ∷ [])) mem p a ∙ ground (arith, length-append s (0 ∷ []))

-- What is written does not depend on the memory under it.
pub write_bytes-over :
    (s : Bytes) (mem mem' : Mem) (p a : ℕ)
    → mem a ≡ mem' a
    → write_bytes mem p s a ≡ write_bytes mem' p s a
write_bytes-over s mem mem' p a e =
    write_bytes-at s mem p a ∙ rw e (sym (write_bytes-at s mem' p a))
