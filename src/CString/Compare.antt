-- ===== src/CString/Compare.antt =====
-- When the comparisons answer 0.
use custom_peach_os.Prelude.{ℕ, zero, suc, ◌≡◌, refl, ◌↔◌, [], ◌∷◌, arith, ◌==◌, take, map}
use custom_peach_os.Prelude.Int.{pos}
use custom_peach_os.CString.{Bytes, cstr, tolower, istrncmp, strncmp}

tolower-zero : (c : ℕ) → (tolower c == 0) ≡ (c == 0)
unfolding tolower
tolower-zero c = ground arith

-- `strncmp` answers 0 exactly when the two strings agree in their first `n` bytes.
pub strncmp_zero :
    (s1 s2 : Bytes) (n : ℕ) → (strncmp s1 s2 n ≡ pos 0) ↔ (take n (cstr s1) ≡ take n (cstr s2))
unfolding strncmp
strncmp_zero s1 s2 zero = (λ e. refl, λ e. refl)
strncmp_zero [] [] (suc n) = (λ e. refl, λ e. refl)
strncmp_zero [] (d ∷ s2) (suc n) = (ground arith, ground arith)
strncmp_zero (c ∷ s1) [] (suc n) = (ground arith, ground arith)
strncmp_zero (c ∷ s1) (d ∷ s2) (suc n) =
    (ground (arith, (strncmp_zero s1 s2 n).0), ground (arith, (strncmp_zero s1 s2 n).1))

-- `istrncmp` answers 0 exactly when the two strings, with upper-case ASCII letters made lower-case,
-- agree in their first `n` bytes.
pub istrncmp_zero :
    (s1 s2 : Bytes) (n : ℕ)
    → (istrncmp s1 s2 n ≡ pos 0) ↔ (take n (map tolower (cstr s1)) ≡ take n (map tolower (cstr s2)))
unfolding istrncmp
istrncmp_zero s1 s2 zero = (λ e. refl, λ e. refl)
istrncmp_zero [] [] (suc n) = (λ e. refl, λ e. refl)
istrncmp_zero [] (d ∷ s2) (suc n) = (ground arith, ground arith)
istrncmp_zero (c ∷ s1) [] (suc n) = (ground arith, ground arith)
istrncmp_zero (c ∷ s1) (d ∷ s2) (suc n) =
    (ground (arith, (istrncmp_zero s1 s2 n).0), ground (arith, (istrncmp_zero s1 s2 n).1))
