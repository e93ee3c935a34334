-- ===== src/Terminal.antt =====
-- The terminal of src/kernel.c. The screen is the 16-bit word at each index of `video_mem`; row and
-- column are 16-bit numbers.
pub mod Cursor
mod Tests
use custom_peach_os.Prelude.{
  ℕ, zero, suc, ◌+◌, ◌-◌, ◌*◌, ◌%◌, ◌^◌, ◌&&◌, List, [], ◌∷◌, leb, ltb, ◌==◌, if◌then◌else◌, bit_or,
}
use custom_peach_os.CString.{Bytes, cstr}

abbrev pub vga_width : ℕ
vga_width = 80

abbrev pub vga_height : ℕ
vga_height = 20

pub record Terminal : Type 0 where
  pub video_mem : ℕ → ℕ
  pub row : ℕ
  pub col : ℕ

-- The low 16 bits of a `char` that is widened to an `int`, with its sign.
abbrev pub widened : ℕ → ℕ
widened c = if ltb c 128 then c else c + 2 ^ 16 - 2 ^ 8

unfoldable pub terminal_make_char : ℕ → ℕ → ℕ
terminal_make_char c colour = bit_or (widened colour * 2 ^ 8 % 2 ^ 16) (widened c)

unfoldable pub terminal_putchar : Terminal → ℕ → ℕ → ℕ → ℕ → Terminal
unfolding terminal_make_char
terminal_putchar t x y c colour = record t {
  video_mem = λ i. if i == y * vga_width + x then terminal_make_char c colour else t.video_mem i;
}

-- The end of `terminal_writechar`, for a character that is printed.
unfoldable pub terminal_advance : Terminal → ℕ → ℕ → Terminal
unfolding terminal_putchar
terminal_advance t c colour =
    let t' = terminal_putchar t t.col t.row c colour in
    let col = (t.col + 1) % 2 ^ 16 in
    if leb vga_width col
    then record t' { col = 0; row = (t.row + 1) % 2 ^ 16 }
    else record t' { col = col }

unfoldable pub terminal_backspace : Terminal → Terminal
unfolding terminal_advance
terminal_backspace t =
    if t.row == 0 && t.col == 0
    then t
    else (let t1 =
          if t.col == 0
          then record t { row = (t.row + 2 ^ 16 - 1) % 2 ^ 16; col = vga_width }
          else t in
        let t2 = record t1 { col = (t1.col + 2 ^ 16 - 1) % 2 ^ 16 } in
        let t3 = terminal_advance t2 b' ' 15 in record t3 { col = (t3.col + 2 ^ 16 - 1) % 2 ^ 16 })

unfoldable pub terminal_writechar : Terminal → ℕ → ℕ → Terminal
unfolding terminal_backspace terminal_advance
terminal_writechar t c colour =
    if c == 0x0a
    then record t { row = (t.row + 1) % 2 ^ 16; col = 0 }
    else (if c == 0x08 then terminal_backspace t else terminal_advance t c colour)

unfoldable pub print_loop : Terminal → Bytes → Terminal
print_loop t [] = t
print_loop t (c ∷ s) = print_loop (terminal_writechar t c 15) s

pub print : Terminal → Bytes → Terminal
print t s = print_loop t (cstr s)

-- The `n` columns of row `y` that are left, and the rows that are left.
unfoldable pub clear_row : ℕ → Terminal → ℕ → ℕ → Terminal
clear_row zero t x y = t
clear_row (suc n) t x y = clear_row n (terminal_putchar t x y b' ' 0) (x + 1) y

unfoldable pub clear_rows : ℕ → Terminal → ℕ → Terminal
unfolding clear_row
clear_rows zero t y = t
clear_rows (suc n) t y = clear_rows n (clear_row vga_width t 0 y) (y + 1)

pub terminal_init : Terminal → Terminal
terminal_init t = clear_rows vga_height (record t { row = 0; col = 0 }) 0
