-- ===== src/CString/Tests.antt =====
-- The string functions at small inputs, and their theorems at inputs that meet their hypotheses.
use custom_peach_os.Prelude.{
  suc, ◌-◌, ◌≡◌, ◌↔◌, some, [], ◌∷◌, ◌++◌, arith, length, take, drop, map,
}
use custom_peach_os.Prelude.Int.{pos}
use custom_peach_os.CString.{Bytes, cstr, tolower, istrncmp, strncpy}
use custom_peach_os.CString.Compare.{istrncmp_zero}
use custom_peach_os.CString.Copy.{strncpy-copy}

abbrev upper : Bytes
upper = b'A' ∷ b'B' ∷ b'C' ∷ 0 ∷ []

abbrev lower : Bytes
lower = b'a' ∷ b'b' ∷ b'd' ∷ 0 ∷ []

istrncmp_zero_example :
    (istrncmp upper lower 2 ≡ pos 0)
    ↔ (take 2 (map tolower (cstr upper)) ≡ take 2 (map tolower (cstr lower)))
istrncmp_zero_example = istrncmp_zero upper lower 2

strncpy-upper :
    strncpy upper lower 3
    ≡ some
        (take (3 - 1) (cstr lower) ++ (0 ∷ drop (suc (length (take (3 - 1) (cstr lower)))) upper))
strncpy-upper = strncpy-copy upper lower 3 (omega arith) (omega arith)
