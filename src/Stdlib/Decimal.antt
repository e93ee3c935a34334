-- ===== src/Stdlib/Decimal.antt =====
-- The text that `itoa` gives is the number's.
use custom_peach_os.Prelude.{
  ℕ, zero, suc, ◌+◌, ◌-◌, ◌*◌, ◌/◌, ◌%◌, ◌^◌, ◌≤◌, ◌<◌, ◌≡◌, ◌≢◌, refl, ap, ◌∙◌, Option, none, some,
  [], ◌∷◌, arith, ◌==◌, if◌then◌else◌, set, drop, length, length-set, leb, ◌&&◌,
}
use native.Mathlib.Nat.{pow-suc}
use custom_peach_os.Prelude.Int.{ℤ, pos, neg}
use custom_peach_os.CString.{Bytes}
use custom_peach_os.Stdlib.{digits_loop, finish}

-- The value of decimal digits up to a NUL, behind those that make `acc`; `none` is another byte, or no
-- NUL.
abbrev pub value : ℕ → Bytes → Option ℕ
value acc [] = none
value acc (c ∷ s) =
    let rest = value (acc * 10 + (c - b'0')) s in
    if c == 0 then some acc else (if leb b'0' c && leb c b'9' then rest else none)

-- The number that a text is, with at least one digit, and a minus sign before a negative one.
abbrev pub decimal : Bytes → Option ℕ
decimal [] = none
decimal (c ∷ s) = if c == 0 then none else value 0 (c ∷ s)

abbrev pub number : Bytes → Option ℤ
number [] = none
number (c ∷ s) =
    if c == b'-'
    then elim (decimal s) [ none ↦ none | some n ↦ some (neg n) ]
    else elim (decimal (c ∷ s)) [ none ↦ none | some n ↦ some (pos n) ]

pub drop-set :
    (text : Bytes) (i c : ℕ) → i < length text → drop i (set text i c) ≡ c ∷ drop (suc i) text
drop-set [] i c lt = absurd (omega arith)
drop-set (x ∷ text) zero c lt = refl
drop-set (x ∷ text) (suc i) c lt = drop-set text i c (omega arith)

pub record Written (text : Bytes) (loc n k : ℕ) : Type 0 where
  pub text' : Bytes
  pub loc' : ℕ
  pub done : (fuel : ℕ) → k < fuel → digits_loop fuel text loc n ≡ some (text', loc')
  pub size : length text' ≡ length text
  pub room : loc ≤ loc' + k
  pub moved : loc' ≤ loc
  pub reads : value 0 (drop loc' text') ≡ value n (drop loc text)
  pub some_digit : n ≢ 0 → loc' < loc
  pub kept : n ≡ 0 → loc' ≡ loc

digit_step :
    (fuel : ℕ) (text text' : Bytes) (loc loc' n : ℕ)
    → n ≢ 0
    → digits_loop fuel (set text loc (b'0' + n % 10)) loc (n / 10) ≡ some (text', loc')
    → digits_loop (suc fuel) text (suc loc) n ≡ some (text', loc')
unfolding digits_loop
digit_step fuel text text' loc loc' n some_n rest = ground arith

no_digit :
    (fuel : ℕ) (text : Bytes) (loc : ℕ) → digits_loop (suc fuel) text loc 0 ≡ some (text, loc)
unfolding digits_loop
no_digit fuel text loc = refl

no_digits :
    (fuel : ℕ) (text : Bytes) (loc k : ℕ)
    → k < fuel
    → digits_loop fuel text loc 0 ≡ some (text, loc)
no_digits zero text loc k lt = absurd (omega arith)
no_digits (suc fuel) text loc k lt = no_digit fuel text loc

digits :
    (k : ℕ) (text text' : Bytes) (loc loc' n : ℕ)
    → n ≢ 0
    → ((fuel : ℕ)
        → k < fuel
        → digits_loop fuel (set text loc (b'0' + n % 10)) loc (n / 10) ≡ some (text', loc'))
    → (fuel : ℕ) → suc k < fuel
    → digits_loop fuel text (suc loc) n ≡ some (text', loc')
digits k text text' loc loc' n some_n rest zero lt = absurd (omega arith)
digits k text text' loc loc' n some_n rest (suc fuel) lt =
    digit_step fuel text text' loc loc' n some_n (rest fuel (omega arith))

-- The new digit, read before what stands behind it.
reads_digit :
    (text : Bytes) (loc n : ℕ)
    → loc < length text
    → value (n / 10) (drop loc (set text loc (b'0' + n % 10))) ≡ value n (drop (suc loc) text)
reads_digit text loc n lt =
    ap (value (n / 10)) (drop-set text loc (b'0' + n % 10) lt)
    ∙ ground (
      arith,
      ap (λ m. value m (drop (suc loc) text)) {x = n / 10 * 10 + (b'0' + n % 10 - b'0')} {y = n}
          (omega arith),
    )

-- A number of at most `k` digits is written where there is room for `k`.
pub digits_loop-Written :
    (k : ℕ) (text : Bytes) (loc n : ℕ)
    → n < 10 ^ k
    → k ≤ loc
    → loc < length text
    → Written text loc n k
digits_loop-Written k text loc zero lt le fits = record {
  text' = text;
  loc' = loc;
  done = λ fuel lt'. no_digits fuel text loc k lt';
  size = refl;
  room = omega arith;
  moved = omega arith;
  reads = refl;
  some_digit = λ ne. absurd (ne refl);
  kept = λ e. refl;
}
digits_loop-Written zero text loc (suc n) lt le fits = absurd (omega arith)
digits_loop-Written (suc k) text zero (suc n) lt le fits = absurd (omega arith)
digits_loop-Written (suc k) text (suc loc) (suc n) lt le fits =
    let text1 : Bytes = set text loc (b'0' + suc n % 10) in
    let rest : Written text1 loc (suc n / 10) k =
      digits_loop-Written k text1 loc (suc n / 10) (omega (arith, pow-suc 10 k)) (omega arith)
        (omega (arith, length-set text loc (b'0' + suc n % 10))) in
    record {
      text' = rest.text';
      loc' = rest.loc';
      done =
          digits k text rest.text' loc rest.loc' (suc n) (λ e. absurd (omega (arith, e))) rest.done;
      size = rest.size ∙ length-set text loc (b'0' + suc n % 10);
      room = omega (arith, rest.room);
      moved = omega (arith, rest.moved);
      reads = rest.reads ∙ reads_digit text loc (suc n) (omega arith);
      some_digit = λ ne. omega (arith, rest.moved);
      kept = λ e. absurd (omega (arith, e));
    }

pub decimal_of : (s : Bytes) (n : ℕ) → n ≢ 0 → value 0 s ≡ some n → decimal s ≡ some n
decimal_of [] n ne e = cc e
decimal_of (c ∷ s) n ne e = ground arith

pub number-pos : (s : Bytes) (n : ℕ) → decimal s ≡ some n → number s ≡ some (pos n)
number-pos [] n e = cc e
number-pos (c ∷ s) n e = ground arith

pub number-neg : (s : Bytes) (n : ℕ) → decimal s ≡ some n → number (b'-' ∷ s) ≡ some (neg n)
number-neg s n e = ground arith

-- The buffer at the start.
pub terminated :
    (text : Bytes) → length text ≡ 12 → drop 11 (set text 11 0x00) ≡ 0x00 ∷ drop 12 text
terminated text size = drop-set text 11 0x00 (omega arith)

pub finish-pos : (text : Bytes) (loc : ℕ) → loc < 11 → finish text loc 0 ≡ some (drop loc text)
unfolding finish
finish-pos text loc lt = ground arith

pub finish-neg :
    (text : Bytes) (loc : ℕ)
    → suc loc < 11
    → finish text (suc loc) 1 ≡ some (drop loc (set text loc b'-'))
unfolding finish
finish-neg text loc lt = ground arith

pub finish-zero : (text : Bytes) → finish text 11 0 ≡ some (drop 10 (set text 10 b'0'))
unfolding finish
finish-zero text = refl
