-- ===== src/Terminal/Cursor.antt =====
-- Where the cursor goes, and which cells are written.
use custom_peach_os.Prelude.{ℕ, ◌+◌, ◌*◌, ◌^◌, ◌<◌, ◌≡◌, ◌≢◌, arith, ◌==◌, if◌then◌else◌}
use custom_peach_os.Terminal.{
  Terminal, terminal_make_char, terminal_putchar, terminal_advance, terminal_backspace,
  terminal_writechar,
}

-- The index of the cursor's cell.
abbrev pub cursor : Terminal → ℕ
cursor t = t.row * 80 + t.col

-- The column is on the screen, and the row does not wrap.
pub record IsPlaced (t : Terminal) : Type 0 where
  pub col_in : t.col < 80
  pub row_word : t.row < 2 ^ 16

-- With the column on the screen and the row not about to wrap, a character that is neither a
-- newline nor a backspace is written at the cursor and in no other cell, and the cursor goes one
-- cell on.
pub terminal_writechar-printed :
    (t : Terminal) (c colour : ℕ)
    → IsPlaced t
    → t.row + 1 < 2 ^ 16
    → c ≢ 0x0a
    → c ≢ 0x08
    → let t' = terminal_writechar t c colour in
      IsPlaced t'
      × (cursor t' ≡ cursor t + 1)
      × ((i : ℕ)
          → t'.video_mem i ≡ (if i == cursor t then terminal_make_char c colour else t.video_mem i))
unfolding terminal_writechar terminal_advance terminal_putchar
terminal_writechar-printed t c colour v room nl bs = (ground arith, ground arith, λ i. ground arith)

-- With the column on the screen and not 0, a backspace blanks the cell before the cursor and no
-- other, and the cursor goes there.
pub terminal_backspace-inside :
    (t : Terminal)
    → IsPlaced t
    → 0 < t.col
    → let t' = terminal_backspace t in
      (t'.row ≡ t.row)
      × (t'.col + 1 ≡ t.col)
      × ((i : ℕ)
          → t'.video_mem i
            ≡ (if i + 1 == cursor t then terminal_make_char b' ' 15 else t.video_mem i))
unfolding terminal_backspace terminal_advance terminal_putchar
terminal_backspace-inside t v inside = (ground arith, ground arith, λ i. ground arith)

-- With column 0 in a row but the first, a backspace leaves the column at 65535, in the same row.
pub terminal_backspace-start :
    (t : Terminal)
    → IsPlaced t
    → t.col ≡ 0
    → 0 < t.row
    → let t' = terminal_backspace t in (t'.row ≡ t.row) × (t'.col ≡ 65535)
unfolding terminal_backspace terminal_advance terminal_putchar
terminal_backspace-start t v start below = (ground arith, ground arith)
