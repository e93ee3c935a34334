-- ===== src/CString/Copy.antt =====
-- What `strncpy` leaves in a buffer.
use custom_peach_os.Prelude.{
  ℕ, zero, suc, ◌-◌, ◌≤◌, ◌<◌, ◌≡◌, refl, some, [], ◌∷◌, ◌++◌, arith, length, take, drop,
}
use custom_peach_os.CString.{Bytes, cstr, strncpy_loop, strncpy}

strncpy_loop-copy :
    (dest src : Bytes) (rounds : ℕ)
    → rounds < length dest
    → strncpy_loop dest src rounds
      ≡ some (take rounds (cstr src) ++ (0 ∷ drop (suc (length (take rounds (cstr src)))) dest))
unfolding strncpy_loop
strncpy_loop-copy [] src rounds lt = absurd (omega arith)
strncpy_loop-copy (d ∷ dest) src zero lt = refl
strncpy_loop-copy (d ∷ dest) [] (suc rounds) lt = refl
strncpy_loop-copy (d ∷ dest) (c ∷ src) (suc rounds) lt =
    ground (arith, strncpy_loop-copy dest src rounds (omega arith))

-- In a buffer of at least `count` bytes, where `count` is not 0, `strncpy` leaves the string cut to
-- `count - 1` bytes, a NUL behind it, and then the buffer's other bytes as they were.
pub strncpy-copy :
    (dest src : Bytes) (count : ℕ)
    → 0 < count
    → count ≤ length dest
    → strncpy dest src count
      ≡ some (
          take (count - 1) (cstr src)
          ++ (0 ∷ drop (suc (length (take (count - 1) (cstr src)))) dest))
unfolding strncpy
strncpy-copy dest src count pos_n fits = strncpy_loop-copy dest src (count - 1) (omega arith)
