-- ===== src/Terminal/Tests.antt =====
-- The terminal's theorems at cursors that meet their hypotheses.
use custom_peach_os.Prelude.{arith}
use custom_peach_os.Terminal.{Terminal}
use custom_peach_os.Terminal.Cursor.{IsPlaced}

abbrev at_end : Terminal
at_end = record { video_mem = λ i. 0; row = 3; col = 79 }

at_end-IsPlaced : IsPlaced at_end
at_end-IsPlaced = record { col_in = omega arith; row_word = omega arith }

abbrev at_start : Terminal
at_start = record { video_mem = λ i. 0; row = 3; col = 0 }

at_start-IsPlaced : IsPlaced at_start
at_start-IsPlaced = record { col_in = omega arith; row_word = omega arith }
