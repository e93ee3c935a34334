-- ===== src/CString/Length.antt =====
-- `strlen` and `strnlen`.
use custom_peach_os.Prelude.{ℕ, zero, suc, ◌+◌, min, ◌≡◌, refl, [], ◌∷◌, arith, length}
use custom_peach_os.CString.{Bytes, cstr, strlen, strnlen_loop, strnlen}

-- `strlen` is the length of the string.
pub strlen-cstr : (s : Bytes) → strlen s ≡ length (cstr s)
unfolding strlen
strlen-cstr [] = refl
strlen-cstr (c ∷ s) = ground (arith, strlen-cstr s)

strnlen_loop-min : (s : Bytes) (max i : ℕ) → strnlen_loop s max i ≡ i + min max (length (cstr s))
unfolding strnlen_loop
strnlen_loop-min s zero i = omega arith
strnlen_loop-min [] (suc max) i = omega arith
strnlen_loop-min (c ∷ s) (suc max) i = ground (arith, strnlen_loop-min s max (i + 1))

-- `strnlen` is the length of the string, or `max` if that is less.
pub strnlen-min : (s : Bytes) (max : ℕ) → strnlen s max ≡ min max (length (cstr s))
unfolding strnlen
strnlen-min s max = omega (arith, strnlen_loop-min s max 0)
