-- ===== src/Fat/Directory/Names.antt =====
-- The name of a directory item as a string.
use custom_peach_os.Prelude.{
  ℕ, zero, suc, ◌+◌, ◌-◌, ◌<◌, ◌≡◌, ◌≢◌, refl, sym, ap, ◌∙◌, ◌⊎◌, inl, inr, some, [], ◌∷◌, ◌++◌,
  arith, set, replicate, length, length-append, drop,
}
use mathlib.Core.List.{append_assoc}
use custom_peach_os.CString.{Bytes}
use custom_peach_os.Fat.Directory.{fat16_to_proper_string, fat16_get_full_relative_filename}

-- Bytes that neither end nor pad a field.
abbrev pub KeptBytes : Bytes → Type 0
KeptBytes [] = Unit
KeptBytes (c ∷ s) = (c ≢ 0x00) × (c ≢ 0x20) × KeptBytes s

abbrev pub Stops : ℕ → Type 0
Stops c = (c ≡ 0x00) ⊎ (c ≡ 0x20)

set-length : (pre post : Bytes) (b c : ℕ) → set (pre ++ b ∷ post) (length pre) c ≡ pre ++ c ∷ post
set-length [] post b c = refl
set-length (x ∷ pre) post b c = ap (λ l. x ∷ l) (set-length pre post b c)

snoc_append : (pre post : Bytes) (c : ℕ) → pre ++ c ∷ post ≡ (pre ++ c ∷ []) ++ post
snoc_append [] post c = refl
snoc_append (x ∷ pre) post c = ap (λ l. x ∷ l) (snoc_append pre post c)

inside : (pre post : Bytes) (b : ℕ) → length pre < length (pre ++ b ∷ post)
inside pre post b = omega (arith, length-append pre (b ∷ post))

-- The loop over a field that is stopped writes the bytes before the stop over the zeros.
kept_step :
    (out out' : Bytes) (i j : ℕ) (c : ℕ) (s : Bytes)
    → c ≢ 0x00
    → c ≢ 0x20
    → i < length out
    → fat16_to_proper_string (set out i c) (i + 1) s ≡ some (out', j)
    → fat16_to_proper_string out i (c ∷ s) ≡ some (out', j)
unfolding fat16_to_proper_string
kept_step out out' i j c s some_byte no_space fits rest = ground arith

space_step :
    (out : Bytes) (i c : ℕ) (s : Bytes)
    → c ≡ 0x20
    → i < length out
    → fat16_to_proper_string out i (c ∷ s) ≡ some (set out i 0x00, i)
unfolding fat16_to_proper_string
space_step out i c s space fits = ground arith

fat16_to_proper_string-kept :
    (pre name rest post : Bytes) (stop : ℕ)
    → KeptBytes name
    → Stops stop
    → fat16_to_proper_string
        (pre ++ (replicate (length name) 0x00 ++ 0x00 ∷ post))
        (length pre)
        (name ++ stop ∷ rest)
      ≡ some (pre ++ (name ++ 0x00 ∷ post), length pre + length name)
unfolding fat16_to_proper_string
fat16_to_proper_string-kept pre [] rest post stop kept (inl nul) = ground arith
fat16_to_proper_string-kept pre [] rest post stop kept (inr space) =
    space_step (pre ++ 0x00 ∷ post) (length pre) stop rest space (inside pre post 0x00)
    ∙ ap (λ out. some (out, length pre)) (set-length pre post 0x00 0x00)
    ∙ ap (λ n. some (pre ++ 0x00 ∷ post, n)) {x = length pre} {y = length pre + 0} (omega arith)
fat16_to_proper_string-kept pre (c ∷ s) rest post stop (some_byte, no_space, kept) stops =
    let zeros : Bytes = replicate (length s) 0x00 ++ 0x00 ∷ post in
    kept_step (pre ++ 0x00 ∷ zeros) (pre ++ c ∷ (s ++ 0x00 ∷ post)) (length pre)
      (length pre + suc (length s)) c (s ++ stop ∷ rest) some_byte no_space (inside pre zeros 0x00)
      (cc (
        set-length pre zeros 0x00 c,
        snoc_append pre zeros c,
        snoc_append pre (s ++ 0x00 ∷ post) c,
        length-append pre (c ∷ []),
        fat16_to_proper_string-kept (pre ++ c ∷ []) s rest post stop kept stops,
        ap (λ n. n) {x = length pre + 1 + length s} {y = length pre + suc (length s)} (omega arith),
      ))

replicate_add : (n m a : ℕ) → replicate (n + m) a ≡ replicate n a ++ replicate m a
replicate_add zero m a = ap (λ k. replicate k a) {x = 0 + m} {y = m} (omega arith)
replicate_add (suc n) m a =
    ap (λ k. replicate k a) {x = suc n + m} {y = suc (n + m)} (omega arith)
    ∙ ap (λ l. a ∷ l) (replicate_add n m a)

-- The zeros of a buffer of `max` bytes, where `n` of them are to be written.
zeros_split :
    (n max : ℕ)
    → n < max
    → replicate {A = ℕ} max 0x00 ≡ replicate n 0x00 ++ 0x00 ∷ replicate (max - n - 1) 0x00
zeros_split n max fits =
    ap (λ k. replicate {A = ℕ} k 0x00) {x = max} {y = n + suc (max - n - 1)} (omega arith)
    ∙ replicate_add n (suc (max - n - 1)) 0x00

-- A name, and an extension behind a dot if there is one.
abbrev pub full_name : Bytes → Bytes → Bytes
full_name name [] = name
full_name name (c ∷ ext) = name ++ b'.' ∷ c ∷ ext

no_ext :
    (item out : Bytes) (max i stop : ℕ) (rest : Bytes)
    → drop 8 item ≡ stop ∷ rest
    → Stops stop
    → fat16_to_proper_string (replicate max 0x00) 0 item ≡ some (out, i)
    → fat16_get_full_relative_filename item max ≡ some out
unfolding fat16_get_full_relative_filename
no_ext item out max i stop rest at_ext (inl nul) named = ground arith
no_ext item out max i stop rest at_ext (inr space) named = ground arith

with_ext :
    (item out out' : Bytes) (max i i' c : ℕ) (rest : Bytes)
    → drop 8 item ≡ c ∷ rest
    → c ≢ 0x00
    → c ≢ 0x20
    → i < max
    → fat16_to_proper_string (replicate max 0x00) 0 item ≡ some (out, i)
    → fat16_to_proper_string (set out i b'.') (i + 1) (c ∷ rest) ≡ some (out', i')
    → fat16_get_full_relative_filename item max ≡ some out'
unfolding fat16_get_full_relative_filename
with_ext item out out' max i i' c rest at_ext some_byte no_space fits named extended = ground arith

-- The bytes that the first of the two calls leaves in the buffer.
named :
    (name rest : Bytes) (stop max : ℕ)
    → KeptBytes name
    → Stops stop
    → length name < max
    → fat16_to_proper_string (replicate max 0x00) 0 (name ++ stop ∷ rest)
      ≡ some (name ++ 0x00 ∷ replicate (max - length name - 1) 0x00, length name)
named name rest stop max kept stops fits =
    ap (λ out. fat16_to_proper_string out 0 (name ++ stop ∷ rest))
      (zeros_split (length name) max fits)
    ∙ fat16_to_proper_string-kept [] name rest (replicate (max - length name - 1) 0x00) stop kept
        stops
    ∙ ap (λ i. some (name ++ 0x00 ∷ replicate (max - length name - 1) 0x00, i))
        {x = 0 + length name} {y = length name} (omega arith)

extended :
    (name ext rest : Bytes) (stop max : ℕ)
    → KeptBytes ext
    → Stops stop
    → length name + 1 + length ext < max
    → (i : ℕ) × (fat16_to_proper_string
          (set (name ++ 0x00 ∷ replicate (max - length name - 1) 0x00) (length name) b'.')
          (length name + 1)
          (ext ++ stop ∷ rest)
        ≡ some (
          (name ++ b'.' ∷ ext) ++ 0x00 ∷ replicate (max - length name - 1 - length ext - 1) 0x00,
          i,
        ))
extended name ext rest stop max kept stops fits =
    let post : Bytes = replicate (max - length name - 1) 0x00 in
    let post' : Bytes = replicate (max - length name - 1 - length ext - 1) 0x00 in
    (
      length (name ++ b'.' ∷ []) + length ext,
      ap (λ out. fat16_to_proper_string out (length name + 1) (ext ++ stop ∷ rest))
            (set-length name post 0x00 b'.'
              ∙ snoc_append name post b'.'
              ∙ ap (λ z. (name ++ b'.' ∷ []) ++ z)
                  (zeros_split (length ext) (max - length name - 1) (omega arith)))
          ∙ ap
              (λ i.
                fat16_to_proper_string
                  ((name ++ b'.' ∷ []) ++ (replicate (length ext) 0x00 ++ 0x00 ∷ post')) i
                  (ext ++ stop ∷ rest))
              (sym (length-append name (b'.' ∷ [])))
          ∙ fat16_to_proper_string-kept (name ++ b'.' ∷ []) ext rest post' stop kept stops
          ∙ ap (λ out. some (out, length (name ++ b'.' ∷ []) + length ext))
              (append_assoc name (b'.' ∷ []) (ext ++ 0x00 ∷ post')
                ∙ sym (append_assoc name (b'.' ∷ ext) (0x00 ∷ post'))),
    )

-- For an item whose bytes begin with those of a name, none a 0 or a space, and then a 0 or a space,
-- and whose bytes from index 8 on begin with those of an extension and a 0 or a space, and a buffer
-- with room for both, the string is the name, and, if the extension is not empty, a dot and the
-- extension; the rest of the buffer is 0. The name is not bounded by its field.
pub fat16_get_full_relative_filename-full_name :
    (item name rest ext rest' : Bytes) (stop stop' max : ℕ)
    → item ≡ name ++ stop ∷ rest
    → drop 8 item ≡ ext ++ stop' ∷ rest'
    → KeptBytes name
    → Stops stop
    → KeptBytes ext
    → Stops stop'
    → length name + 1 + length ext < max
    → fat16_get_full_relative_filename item max
      ≡ some (full_name name ext ++ replicate (max - length (full_name name ext)) 0x00)
fat16_get_full_relative_filename-full_name item name rest [] rest' stop stop' max is_item at_ext
      kept stops kept' stops' fits =
    no_ext item (name ++ 0x00 ∷ replicate (max - length name - 1) 0x00) max (length name) stop'
      rest' at_ext stops'
      (ap (fat16_to_proper_string (replicate max 0x00) 0) is_item
        ∙ named name rest stop max kept stops (omega arith))
    ∙ ap (λ z. some (name ++ z))
        (ap (λ k. replicate {A = ℕ} k 0x00) {x = suc (max - length name - 1)}
          {y = max - length name} (omega arith))
fat16_get_full_relative_filename-full_name item name rest (c ∷ ext) rest' stop stop' max is_item
      at_ext kept stops kept' stops' fits =
    let (i', goes_on) = extended name (c ∷ ext) rest' stop' max kept' stops' fits in
    with_ext item (name ++ 0x00 ∷ replicate (max - length name - 1) 0x00)
      ((name ++ b'.' ∷ c ∷ ext)
        ++ 0x00 ∷ replicate (max - length name - 1 - length (c ∷ ext) - 1) 0x00)
      max (length name) i' c (ext ++ stop' ∷ rest') at_ext kept'.0 kept'.1 (omega arith)
      (ap (fat16_to_proper_string (replicate max 0x00) 0) is_item
        ∙ named name rest stop max kept stops (omega arith))
      goes_on
    ∙ ap (λ z. some ((name ++ b'.' ∷ c ∷ ext) ++ z))
        (ap (λ k. replicate {A = ℕ} k 0x00) {x = suc (max - length name - 1 - length (c ∷ ext) - 1)}
          {y = max - length (name ++ b'.' ∷ c ∷ ext)}
          (omega (arith, length-append name (b'.' ∷ c ∷ ext))))
