-- ===== src/Stdlib/Tests.antt =====
-- Numbers and their texts.
use custom_peach_os.Prelude.{◌≡◌, refl, some, [], ◌∷◌, arith, replicate}
use custom_peach_os.Prelude.Int.{negsuc}
use custom_peach_os.CString.{Bytes}
use custom_peach_os.Stdlib.{digits_loop, finish, itoa_from, itoa}
use custom_peach_os.Stdlib.Decimal.{number}
use custom_peach_os.Stdlib.RoundTrip.{itoa-number}

abbrev text : Bytes
text = replicate 12 b'x'

lowest :
    itoa text (negsuc 2_147_483_647)
    ≡ some (b'-' ∷ b'2' ∷ b'1' ∷ b'4' ∷ b'7' ∷ b'4' ∷ b'8' ∷ b'3' ∷ b'6' ∷ b'4' ∷ b'8' ∷ 0 ∷ [])
unfolding itoa itoa_from digits_loop finish
lowest = refl

itoa-number_example : (s : Bytes) × (itoa text (negsuc 41) ≡ some s) × (number s ≡ some (negsuc 41))
itoa-number_example = itoa-number text (negsuc 41) refl (omega arith)
