-- ===== src/Keyboard.antt =====
-- src/keyboard/keyboard.c and classic.c: the key buffer of a process, and the scan codes. `head`
-- and `tail` are the 32-bit patterns of the two `int`s; a byte of the buffer is a number.
pub mod Ring
pub mod Queue
pub mod Drivers
pub mod Interrupt
mod Tests
use custom_peach_os.Prelude.{
  ℕ, ◌+◌, ◌-◌, ◌%◌, ◌^◌, Option, none, some, List, [], ◌∷◌, ◌==◌, ltb, if◌then◌else◌, bit_and,
  length, get_or, set,
}
use custom_peach_os.Prelude.Int.{ℤ, pos}

abbrev pub buffer_size : ℕ
buffer_size = 1024

pub record KeyboardBuffer : Type 0 where
  pub buffer : List ℕ
  pub tail : ℕ
  pub head : ℕ

unfoldable pub get_tail_index : KeyboardBuffer → ℕ
get_tail_index kb = kb.tail % buffer_size

unfoldable pub backspace : KeyboardBuffer → KeyboardBuffer
unfolding get_tail_index
backspace kb =
    let kb' = record kb { tail = (kb.tail + 2 ^ 32 - 1) % 2 ^ 32 } in
    record kb' { buffer = set kb'.buffer (get_tail_index kb') 0x00 }

-- `none` is that there is no current process.
unfoldable pub push : Option KeyboardBuffer → ℕ → Option KeyboardBuffer
unfolding get_tail_index
push none c = none
push (some kb) c =
    if c == 0
    then some kb
    else some
        (record kb { buffer = set kb.buffer (get_tail_index kb) c; tail = (kb.tail + 1) % 2 ^ 32 })

-- The key, or 0, and the buffer of the current task's process.
unfoldable pub pop : Option KeyboardBuffer → ℕ × Option KeyboardBuffer
pop none = (0, none)
pop (some kb) =
    let real_index = kb.head % buffer_size in
    let c = get_or kb.buffer real_index 0 in
    if c == 0 then (0, some kb) else (
      c,
      some (record kb { buffer = set kb.buffer real_index 0; head = (kb.head + 1) % 2 ^ 32 }),
    )

abbrev pub keyboard_scan_set_one : List ℕ
keyboard_scan_set_one =
    0x00 ∷ 0x1b ∷ b'1' ∷ b'2' ∷ b'3' ∷ b'4' ∷ b'5' ∷ b'6' ∷ b'7' ∷ b'8' ∷ b'9' ∷ b'0' ∷ b'-' ∷ b'='
    ∷ 0x08 ∷ 0x09 ∷ b'Q' ∷ b'W' ∷ b'E' ∷ b'R' ∷ b'T' ∷ b'Y' ∷ b'U' ∷ b'I' ∷ b'O' ∷ b'P' ∷ b'['
    ∷ b']' ∷ 0x0d ∷ 0x00 ∷ b'A' ∷ b'S' ∷ b'D' ∷ b'F' ∷ b'G' ∷ b'H' ∷ b'J' ∷ b'K' ∷ b'L' ∷ 0x3b
    ∷ 0x27 ∷ 0x60 ∷ 0x00 ∷ 0x5c ∷ b'Z' ∷ b'X' ∷ b'C' ∷ b'V' ∷ b'B' ∷ b'N' ∷ b'M' ∷ 0x2c ∷ 0x2e
    ∷ b'/' ∷ 0x00 ∷ b'*' ∷ 0x00 ∷ 0x20 ∷ 0x00 ∷ 0x00 ∷ 0x00 ∷ 0x00 ∷ 0x00 ∷ 0x00 ∷ 0x00 ∷ 0x00
    ∷ 0x00 ∷ 0x00 ∷ 0x00 ∷ b'7' ∷ b'8' ∷ b'9' ∷ b'-' ∷ b'4' ∷ b'5' ∷ b'6' ∷ b'+' ∷ b'1' ∷ b'2'
    ∷ b'3' ∷ b'0' ∷ 0x2e ∷ []

-- `none` is a read behind the end of the table.
unfoldable pub scancode_to_char : ℕ → Option ℕ
scancode_to_char scancode =
    if ltb (length keyboard_scan_set_one) scancode
    then some 0x0
    else (if ltb scancode (length keyboard_scan_set_one)
        then some (get_or keyboard_scan_set_one scancode 0)
        else none)
