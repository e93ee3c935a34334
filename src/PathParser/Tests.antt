-- ===== src/PathParser/Tests.antt =====
-- Paths at small inputs, and the round trip at one that meets its hypotheses.
use custom_peach_os.Prelude.{ℕ, ◌≡◌, refl, inl, inr, ◌⊎◌, ◌<◌, none, some, [], ◌∷◌, ◌++◌, arith}
use custom_peach_os.Prelude.Int.{pos}
use custom_peach_os.CString.{Bytes, strlen}
use custom_peach_os.PathParser.{PathRoot, parse}
use custom_peach_os.PathParser.Parts.{AllParts, parse_total}
use custom_peach_os.PathParser.RoundTrip.{path_of, parse-path_of}

abbrev bin : Bytes
bin = b'b' ∷ b'i' ∷ b'n' ∷ []

abbrev sh : Bytes
sh = b's' ∷ b'h' ∷ []

-- A second slash and what follows it.
abbrev trail : Bytes
trail = b'/' ∷ b'/' ∷ b'x' ∷ []

parts-AllParts : AllParts (bin ∷ sh ∷ [])
parts-AllParts = ground arith

parse-path_of_example :
    parse (path_of 0 (bin ∷ sh ∷ []) ++ trail)
    ≡ some (some (record { drive_no = pos 0; parts = bin ∷ sh ∷ [] }))
unfolding strlen
parse-path_of_example =
    parse-path_of 0 bin (sh ∷ []) trail (omega arith) parts-AllParts (inr (refl, inl refl))
      (omega arith)

parse_total_example :
    (parse sh ≡ some none)
    ⊎ ((root : PathRoot) × (d : ℕ) × (parse sh ≡ some (some root))
        × (root.drive_no ≡ pos d)
        × (d < 10)
        × AllParts root.parts)
parse_total_example = parse_total sh
