-- ===== src/Stdlib.antt =====
-- `itoa` of programs/stdlib/src/stdlib.c, the library of the user programs. `text` is the static
-- buffer of 12 bytes, with what an earlier call left in it.
pub mod Decimal
pub mod RoundTrip
mod Tests
use custom_peach_os.Prelude.{
  ℕ, zero, suc, ◌+◌, ◌-◌, ◌/◌, ◌%◌, Option, none, some, ◌==◌, if◌then◌else◌, set, drop,
}
use custom_peach_os.Prelude.Int.{ℤ, pos, negsuc}
use custom_peach_os.CString.{Bytes}

-- `text[--loc] = c`; `none` is a write before the buffer.
abbrev pub put_before : Bytes → ℕ → ℕ → Option (Bytes × ℕ)
put_before text zero c = none
put_before text (suc loc) c = some (set text loc c, loc)

-- The loop over the digits of -n. In C `%` of a number that is not positive gives one that is not
-- positive, so that '0' - (i % 10) is the digit. `none` is also that the fuel ran out.
unfoldable pub digits_loop : ℕ → Bytes → (loc n : ℕ) → Option (Bytes × ℕ)
digits_loop zero text loc n = none
digits_loop (suc fuel) text loc n =
    if n == 0 then some (text, loc) else elim (put_before text loc (b'0' + n % 10)) [
      | none ↦ none
      | some (text', loc') ↦ digits_loop fuel text' loc' (n / 10)
    ]

-- From the test for an empty text on.
unfoldable pub finish : Bytes → ℕ → (neg : ℕ) → Option Bytes
finish text loc neg = elim (if loc == 11 then put_before text loc b'0' else some (text, loc)) [
  | none ↦ none
  | some (text', loc') ↦
      elim (if neg == 0 then some (text', loc') else put_before text' loc' b'-') [
        | none ↦ none
        | some (text'', loc'') ↦ some (drop loc'' text'')
      ]
]

-- `n` is the number without its sign.
unfoldable pub itoa_from : Bytes → (n neg : ℕ) → Option Bytes
unfolding digits_loop finish
itoa_from text n neg = elim (digits_loop 11 (set text 11 0x00) 11 n) [
  | none ↦ none
  | some (text', loc) ↦ finish text' loc neg
]

-- What `itoa` returns is the string from the pointer to the end of the buffer.
unfoldable pub itoa : Bytes → ℤ → Option Bytes
unfolding itoa_from
itoa text (pos n) = itoa_from text n 0
itoa text (negsuc n) = itoa_from text (suc n) 1
