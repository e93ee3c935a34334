-- ===== src/Stdlib/RoundTrip.antt =====
-- What `itoa` writes is read as the number.
use custom_peach_os.Prelude.{
  ℕ, zero, suc, ◌^◌, ◌≤◌, ◌<◌, ◌≡◌, ◌≢◌, refl, ap, ◌∙◌, some, ◌∷◌, arith, set, drop, length,
  length-set,
}
use custom_peach_os.Prelude.Int.{ℤ, pos, negsuc, neg}
use custom_peach_os.CString.{Bytes}
use custom_peach_os.Stdlib.{digits_loop, finish, itoa_from, itoa}
use custom_peach_os.Stdlib.Decimal.{
  value, decimal, number, drop-set, Written, digits_loop-Written, decimal_of, number-pos,
  number-neg, terminated, finish-pos, finish-neg, finish-zero,
}

-- The values of an `int`.
abbrev pub IsInt : ℤ → Type 0
IsInt (pos n) = n < 2 ^ 31
IsInt (negsuc n) = n < 2 ^ 31

abbrev start : Bytes → Bytes
start text = set text 11 0x00

written : (text : Bytes) (n : ℕ) → length text ≡ 12 → n ≤ 2 ^ 31 → Written (start text) 11 n 10
written text n size small =
    digits_loop-Written 10 (start text) 11 n (omega arith) (omega arith)
      (omega (arith, length-set text 11 0x00))

-- The digits, with the NUL behind them.
value-Written :
    (text : Bytes) (n : ℕ) (size : length text ≡ 12) (w : Written (start text) 11 n 10)
    → value 0 (drop w.loc' w.text') ≡ some n
value-Written text n size w = w.reads ∙ ap (value n) (terminated text size)

from_finish :
    (text text' : Bytes) (n loc is_neg : ℕ)
    → digits_loop 11 (start text) 11 n ≡ some (text', loc)
    → itoa_from text n is_neg ≡ finish text' loc is_neg
unfolding itoa_from
from_finish text text' n loc is_neg done = rw (itoa_from, done) refl

from_pos :
    (text : Bytes) (n : ℕ)
    → length text ≡ 12
    → n < 2 ^ 31
    → n ≢ 0
    → (s : Bytes) × (itoa_from text n 0 ≡ some s) × (number s ≡ some (pos n))
from_pos text n size small ne =
    let w = written text n size (omega arith) in
    let s : Bytes = drop w.loc' w.text' in
    (
      s,
      from_finish text w.text' n w.loc' 0 (w.done 11 (omega arith))
          ∙ finish-pos w.text' w.loc' (w.some_digit ne),
      number-pos s n (decimal_of s n ne (value-Written text n size w)),
    )

minus :
    (text : Bytes) (loc n : ℕ)
    → loc < 11
    → 0 < loc
    → length text ≡ 12
    → decimal (drop loc text) ≡ some n
    → (s : Bytes) × (finish text loc 1 ≡ some s) × (number s ≡ some (neg n))
minus text zero n lt positive size e = absurd (omega arith)
minus text (suc loc) n lt positive size e = (
  b'-' ∷ drop (suc loc) text,
  finish-neg text loc lt ∙ ap some (drop-set text loc b'-' (omega arith)),
  number-neg (drop (suc loc) text) n e,
)

from_neg :
    (text : Bytes) (n : ℕ)
    → length text ≡ 12
    → n ≤ 2 ^ 31
    → n ≢ 0
    → (s : Bytes) × (itoa_from text n 1 ≡ some s) × (number s ≡ some (neg n))
from_neg text n size small ne =
    let w = written text n size small in
    let (s, ends, reads) =
      minus w.text' w.loc' n (w.some_digit ne) (omega (arith, w.room))
        (w.size ∙ length-set text 11 0x00 ∙ size)
        (decimal_of (drop w.loc' w.text') n ne (value-Written text n size w)) in
    (s, from_finish text w.text' n w.loc' 1 (w.done 11 (omega arith)) ∙ ends, reads)

from_zero :
    (text : Bytes)
    → length text ≡ 12
    → (s : Bytes) × (itoa_from text 0 0 ≡ some s) × (number s ≡ some (pos 0))
unfolding itoa_from digits_loop
from_zero text size = (
  b'0' ∷ 0x00 ∷ drop 12 text,
  finish-zero (start text)
      ∙ ap some (
          drop-set (start text) 10 b'0' (omega (arith, length-set text 11 0x00))
          ∙ ap (λ s. b'0' ∷ s) (terminated text size)),
  refl,
)

-- For every value of an `int`, the lowest one included, and whatever an earlier call left in its
-- buffer, `itoa` terminates, writes inside its 12 bytes, and returns the text of that value.
pub itoa-number :
    (text : Bytes) (i : ℤ)
    → length text ≡ 12
    → IsInt i
    → (s : Bytes) × (itoa text i ≡ some s) × (number s ≡ some i)
unfolding itoa
itoa-number text (pos zero) size small = from_zero text size
itoa-number text (pos (suc n)) size small =
    from_pos text (suc n) size small (λ e. absurd (omega (arith, e)))
itoa-number text (negsuc n) size small =
    from_neg text (suc n) size small (λ e. absurd (omega (arith, e)))
