-- ===== src/PathParser/RoundTrip.antt =====
-- Paths as they are written, for `pathparser_parse`.
use custom_peach_os.Prelude.{
  ℕ, zero, suc, ◌+◌, ◌≤◌, ◌<◌, ◌≡◌, refl, ap, ◌∙◌, ◌⊎◌, none, some, List, [], ◌∷◌, ◌++◌, arith,
  true, ◌==◌, inl, length, if◌then◌else◌,
}
use mathlib.Core.List.{append_assoc}
use custom_peach_os.Prelude.Int.{pos}
use custom_peach_os.Status.{max_path}
use custom_peach_os.CString.{Bytes, cstr, head, tail, strlen}
use custom_peach_os.CString.Length.{strlen-cstr, strnlen-min}
use custom_peach_os.PathParser.{
  path_valid_format, part_loop, get_path_part, parse_path_parts, parse,
}
use custom_peach_os.PathParser.Parts.{IsName, IsPart, AllParts, parse_valid}

-- The parts with a slash between each two.
abbrev pub join : List Bytes → Bytes
join [] = []
join (p ∷ []) = p
join (p ∷ q ∷ ps) = p ++ (b'/' ∷ join (q ∷ ps))

-- A path as it is written.
abbrev pub path_of : ℕ → List Bytes → Bytes
path_of d ps = (48 + d) ∷ b':' ∷ b'/' ∷ join ps

abbrev Stop : ℕ → Type 0
Stop c = (c ≡ b'/') ⊎ (c ≡ 0)

-- What may stand behind the last part: nothing, or a slash and then no name.
abbrev pub Trails : Bytes → Type 0
Trails e = (head e ≡ 0) ⊎ ((head e ≡ b'/') × Stop (head (tail e)))

part_loop-name :
    (i : ℕ) (p e : Bytes)
    → i + length p ≤ max_path
    → IsName p
    → Stop (head e)
    → part_loop i (p ++ e) ≡ some (p, e)
unfolding part_loop
part_loop-name i [] [] h name stop = refl
part_loop-name i [] (c ∷ e) h name stop = ground arith
part_loop-name i (c ∷ p) e h name stop =
    ground (arith, part_loop-name (i + 1) p e (omega arith) name.2 stop)

get_path_part-part :
    (p e : Bytes)
    → length p ≤ max_path
    → IsPart p
    → Stop (head e)
    → get_path_part (p ++ e) ≡ some (some p, if head e == b'/' then tail e else e)
unfolding get_path_part
get_path_part-part [] e h part stop = absurd (omega arith)
get_path_part-part (c ∷ p) e h part stop =
    rw (part_loop-name 0 (c ∷ p) e (omega arith) part.1 stop, get_path_part)

get_path_part-none :
    (e : Bytes) → Stop (head e) → (e' : Bytes) × (get_path_part e ≡ some (none, e'))
unfolding get_path_part
get_path_part-none e stop = (
  if head e == b'/' then tail e else e,
  rw (part_loop-name 0 [] e (omega arith) tt stop, get_path_part),
)

Stop-behind :
    (e : Bytes) → Trails e → Stop (head e) × Stop (head (if head e == b'/' then tail e else e))
Stop-behind e t = ground arith

parse_path_parts-end :
    (fuel : ℕ) (e : Bytes) → 0 < fuel → Stop (head e) → parse_path_parts fuel e ≡ some []
unfolding parse_path_parts
parse_path_parts-end zero e lt stop = absurd (omega arith)
parse_path_parts-end (suc fuel) e lt stop = rw ((get_path_part-none e stop).1, parse_path_parts)

parse_path_parts-next :
    (fuel : ℕ) (path path' p : Bytes) {ps : List Bytes}
    → get_path_part path ≡ some (some p, path')
    → parse_path_parts fuel path' ≡ some ps
    → parse_path_parts (suc fuel) path ≡ some (p ∷ ps)
unfolding parse_path_parts
parse_path_parts-next fuel path path' p one rest =
    rw (one, parse_path_parts) (rw (rest, parse_path_parts))

parse_path_parts-join :
    (fuel : ℕ) (p : Bytes) (ps : List Bytes) (e : Bytes)
    → length ps + 1 < fuel
    → AllParts (p ∷ ps)
    → Trails e
    → parse_path_parts fuel (join (p ∷ ps) ++ e) ≡ some (p ∷ ps)
parse_path_parts-join zero p ps e lt ok t = absurd (omega arith)
parse_path_parts-join (suc fuel) p [] e lt ok t =
    parse_path_parts-next fuel (p ++ e) (if head e == b'/' then tail e else e) p
      (get_path_part-part p e (omega (arith, ok.1)) ok.0 (Stop-behind e t).0)
      (parse_path_parts-end fuel (if head e == b'/' then tail e else e) (omega arith)
        (Stop-behind e t).1)
parse_path_parts-join (suc fuel) p (q ∷ ps) e lt ok t =
    rw (append_assoc p (b'/' ∷ join (q ∷ ps)) e) (
      parse_path_parts-next fuel (p ++ ((b'/' ∷ join (q ∷ ps)) ++ e)) (join (q ∷ ps) ++ e) p
        (get_path_part-part p ((b'/' ∷ join (q ∷ ps)) ++ e) (omega (arith, ok.1)) ok.0 (inl refl))
        (parse_path_parts-join fuel q ps e (omega arith) ok.2 t))

cstr-name : (p e : Bytes) → IsName p → length (cstr (p ++ e)) ≡ length p + length (cstr e)
cstr-name [] e name = omega arith
cstr-name (c ∷ p) e name = ground (arith, cstr-name p e name.2)

cstr-join :
    (p : Bytes) (ps : List Bytes) (e : Bytes)
    → AllParts (p ∷ ps)
    → length ps + 1 ≤ length (cstr (join (p ∷ ps) ++ e))
cstr-join p [] e ok = omega (arith, cstr-name p e ok.0.1, ok.0.0)
cstr-join p (q ∷ ps) e ok =
    rw (append_assoc p (b'/' ∷ join (q ∷ ps)) e)
      (omega (arith, cstr-name p ((b'/' ∷ join (q ∷ ps)) ++ e) ok.0.1, cstr-join q ps e ok.2))

valid_path_of : (d : ℕ) (s : Bytes) → d < 10 → path_valid_format ((48 + d) ∷ b':' ∷ b'/' ∷ s) ≡ true
unfolding path_valid_format
valid_path_of d s lt = ground (arith, strnlen-min ((48 + d) ∷ b':' ∷ b'/' ∷ s) max_path)

cstr-head : (d : ℕ) (s : Bytes) → length (cstr ((48 + d) ∷ b':' ∷ b'/' ∷ s)) ≡ length (cstr s) + 3
cstr-head d s = ground arith

-- A path of at most 108 bytes, written from a drive below 10 and at least one part with slashes
-- between, is parsed to that drive and those parts; a slash behind the last part is passed over,
-- and so is all that follows an empty part.
pub parse-path_of :
    (d : ℕ) (p : Bytes) (ps : List Bytes) (e : Bytes)
    → d < 10
    → AllParts (p ∷ ps)
    → Trails e
    → strlen (path_of d (p ∷ ps) ++ e) ≤ max_path
    → parse (path_of d (p ∷ ps) ++ e) ≡ some (some (record { drive_no = pos d; parts = p ∷ ps }))
parse-path_of d p ps e lt ok t fits =
    let path = path_of d (p ∷ ps) ++ e in
    parse_valid path (ground arith) (valid_path_of d (join (p ∷ ps) ++ e) lt) (
      parse_path_parts-join (strlen path + 1) p ps e
        (omega (arith, strlen-cstr path, cstr-head d (join (p ∷ ps) ++ e), cstr-join p ps e ok)) ok
        t)
    ∙ ap (λ n. some (some (record { drive_no = pos n; parts = p ∷ ps }))) (omega arith)
