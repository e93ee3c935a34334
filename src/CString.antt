-- ===== src/CString.antt =====
-- src/string/string.c. A `const char *` is the list of the bytes from where it points to; behind the
-- list's end stands a NUL. A byte is a number below 256. A buffer that is written is a list of its
-- bytes, and `none` is a write outside of it.
pub mod Length
pub mod Compare
pub mod Copy
mod Tests
use custom_peach_os.Prelude.{
  ℕ, zero, suc, ◌+◌, ◌-◌, Bool, true, false, not, ◌&&◌, ◌||◌, Option, none, some, List, [], ◌∷◌,
  ltb, leb, ◌==◌, if◌then◌else◌, length, set,
}
use custom_peach_os.Prelude.Int.{ℤ, pos, sub_ℕ}

abbrev pub Bytes : Type 0
Bytes = List ℕ

-- `*ptr`
abbrev pub head : Bytes → ℕ
head [] = 0
head (c ∷ s) = c

-- `ptr + 1`
abbrev pub tail : Bytes → Bytes
tail [] = []
tail (c ∷ s) = s

-- The string that a pointer stands for: the bytes before the first NUL.
abbrev pub cstr : Bytes → Bytes
cstr [] = []
cstr (c ∷ s) = if c == 0 then [] else c ∷ cstr s

unfoldable pub tolower : ℕ → ℕ
tolower s1 = if leb 65 s1 && leb s1 90 then s1 + 32 else s1

unfoldable pub strlen : Bytes → ℕ
strlen [] = 0
strlen (c ∷ s) = let rest = strlen s in if c == 0 then 0 else rest + 1

-- `max` rounds are left, and `i` bytes are counted.
unfoldable pub strnlen_loop : Bytes → ℕ → ℕ → ℕ
strnlen_loop s zero i = i
strnlen_loop s (suc max) i =
    let rest = strnlen_loop (tail s) max (i + 1) in if head s == 0 then i else rest

unfoldable pub strnlen : Bytes → ℕ → ℕ
unfolding strnlen_loop
strnlen s max = strnlen_loop s max 0

unfoldable pub strnlen_terminator_loop : Bytes → ℕ → ℕ → ℕ → ℕ
strnlen_terminator_loop s zero terminator i = i
strnlen_terminator_loop s (suc max) terminator i =
    let rest = strnlen_terminator_loop (tail s) max terminator (i + 1) in
    if head s == 0 || head s == terminator then i else rest

unfoldable pub strnlen_terminator : Bytes → ℕ → ℕ → ℕ
unfolding strnlen_terminator_loop
strnlen_terminator s max terminator = strnlen_terminator_loop s max terminator 0

unfoldable pub istrncmp : Bytes → Bytes → ℕ → ℤ
unfolding tolower
istrncmp s1 s2 zero = pos 0
istrncmp s1 s2 (suc n) =
    let rest = istrncmp (tail s1) (tail s2) n in
    if not (head s1 == head s2) && not (tolower (head s1) == tolower (head s2))
    then sub_ℕ (head s1) (head s2)
    else (if head s1 == 0 then pos 0 else rest)

unfoldable pub strncmp : Bytes → Bytes → ℕ → ℤ
strncmp s1 s2 zero = pos 0
strncmp s1 s2 (suc n) =
    let rest = strncmp (tail s1) (tail s2) n in
    if not (head s1 == head s2)
    then sub_ℕ (head s1) (head s2)
    else (if head s1 == 0 then pos 0 else rest)

-- `*dest = c`, where `rest` writes from the next byte on.
abbrev pub put : Bytes → ℕ → (Bytes → Option Bytes) → Option Bytes
put [] c rest = none
put (d ∷ dest) c rest = elim (rest dest) [ none ↦ none | some dest' ↦ some (c ∷ dest') ]

unfoldable pub strcpy : Bytes → Bytes → Option Bytes
strcpy dest [] = put dest 0 (λ d. some d)
strcpy dest (c ∷ s) = if c == 0 then put dest 0 (λ d. some d) else put dest c (λ d. strcpy d s)

-- `count - 1` rounds are left.
unfoldable pub strncpy_loop : Bytes → Bytes → ℕ → Option Bytes
strncpy_loop dest src zero = put dest 0 (λ d. some d)
strncpy_loop dest src (suc rounds) =
    if head src == 0
    then put dest 0 (λ d. some d)
    else put dest (head src) (λ d. strncpy_loop d (tail src) rounds)

unfoldable pub strncpy : Bytes → Bytes → ℕ → Option Bytes
unfolding strncpy_loop
strncpy dest src count = strncpy_loop dest src (count - 1)

unfoldable pub isdigit : ℕ → Bool
isdigit c = leb 48 c && leb c 57

unfoldable pub tonumericdigit : ℕ → ℤ
tonumericdigit c = sub_ℕ c 48
