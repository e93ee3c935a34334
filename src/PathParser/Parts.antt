-- ===== src/PathParser/Parts.antt =====
-- What `pathparser_parse` makes of any path.
use custom_peach_os.Prelude.{
  ℕ, zero, suc, ◌+◌, ◌-◌, ◌≤◌, ◌<◌, ◌≡◌, ◌≢◌, refl, ap, ◌∙◌, ◌⊎◌, true, false, Option, none, some,
  List, [], ◌∷◌, arith, ◌||◌, ltb, ◌==◌, Bool-cases, Option-cases, inl, inr, length, drop,
  if◌then◌else◌,
}
use mathlib.Core.Path.{subst}
use custom_peach_os.Prelude.Int.{pos}
use custom_peach_os.Status.{ebadpath, max_path}
use custom_peach_os.CString.{Bytes, cstr, head, tail, strlen}
use custom_peach_os.CString.Length.{strlen-cstr, strnlen-min}
use custom_peach_os.PathParser.{
  PathRoot, path_valid_format, get_drive_by_path, part_loop, get_path_part, parse_path_parts, parse,
}

-- No slash and no NUL.
abbrev pub IsName : Bytes → Type 0
IsName [] = Unit
IsName (c ∷ s) = (c ≢ b'/') × (c ≢ 0) × IsName s

-- A name that is not empty.
abbrev pub IsPart : Bytes → Type 0
IsPart p = (0 < length p) × IsName p

abbrev pub AllParts : List Bytes → Type 0
AllParts [] = Unit
AllParts (p ∷ ps) = IsPart p × (length p < max_path) × AllParts ps

-- What the loop over one part's bytes leaves.
record Splits (i : ℕ) (path : Bytes) : Type 0 where
  part : Bytes
  rest : Bytes
  done : part_loop i path ≡ some (part, rest)
  name : IsName part
  total : length part + length (cstr rest) ≡ length (cstr path)

part_loop-Splits : (i : ℕ) (path : Bytes) → i + length (cstr path) ≤ max_path → Splits i path
unfolding part_loop
part_loop-Splits i [] h = record {
  part = [];
  rest = [];
  done = refl;
  name = tt;
  total = omega arith;
}
part_loop-Splits i (c ∷ path) h = elim (Bool-cases (c == b'/' || c == 0)) [
  | inl stop ↦ record { part = []; rest = c ∷ path; done = rw stop; name = tt; total = omega arith }
  | inr more ↦
      let r = part_loop-Splits (i + 1) path (ground arith) in
      record {
        part = c ∷ r.part;
        rest = r.rest;
        done = ground (arith, r.done);
        name = (ground arith, ground arith, r.name);
        total = ground (arith, r.total);
      }
]

-- The first part of a path of at most `max_path` bytes.
record Takes (path : Bytes) : Type 0 where
  part : Option Bytes
  rest : Bytes
  done : get_path_part path ≡ some (part, rest)
  part_ok :
      (p : Bytes) → part ≡ some p → IsPart p × (length p + length (cstr rest) ≤ length (cstr path))

slash-cstr : (r : Bytes) → length (cstr (if head r == b'/' then tail r else r)) ≤ length (cstr r)
slash-cstr [] = omega arith
slash-cstr (c ∷ r) = ground arith

Takes-of :
    (path part rest : Bytes)
    → part_loop 0 path ≡ some (part, rest)
    → IsName part
    → length part + length (cstr rest) ≡ length (cstr path)
    → Takes path
unfolding get_path_part
Takes-of path [] rest done name total = record {
  part = none;
  rest = if head rest == b'/' then tail rest else rest;
  done = rw (done, get_path_part);
  part_ok = λ p e. cc e;
}
Takes-of path (c ∷ cs) rest done name total = record {
  part = some (c ∷ cs);
  rest = if head rest == b'/' then tail rest else rest;
  done = rw (done, get_path_part);
  part_ok = λ p e.
      let same : c ∷ cs ≡ p = cc e in
      subst
        (λ q.
          IsPart q
          × (length q + length (cstr (if head rest == b'/' then tail rest else rest))
              ≤ length (cstr path)))
        same ((omega arith, name), omega (arith, slash-cstr rest));
}

get_path_part-Takes : (path : Bytes) → length (cstr path) ≤ max_path → Takes path
get_path_part-Takes path h =
    let r = part_loop-Splits 0 path (omega arith) in
    Takes-of path r.part r.rest r.done r.name r.total

-- The loop over the parts: as many as the path has, with fuel for each.
parse_path_parts_total :
    (fuel : ℕ) (path : Bytes)
    → length (cstr path) < fuel
    → length (cstr path) < max_path
    → (parts : List Bytes) × (parse_path_parts fuel path ≡ some parts) × AllParts parts
unfolding parse_path_parts
parse_path_parts_total zero path lt bound = absurd (omega arith)
parse_path_parts_total (suc fuel) path lt bound =
    let t = get_path_part-Takes path (omega arith) in
    elim (Option-cases t.part) [
      | inl e ↦ ([], rw (t.done ∙ ap (λ o. some (o, t.rest)) e, parse_path_parts), tt)
      | inr (p, e) ↦
          let ((some_byte, name), le) = t.part_ok p e in
          let (parts, done, ok) = parse_path_parts_total fuel t.rest (omega arith) (omega arith) in
          (
            p ∷ parts,
            rw (t.done ∙ ap (λ o. some (o, t.rest)) e, parse_path_parts)
                (rw (done, parse_path_parts)),
            ((some_byte, name), omega arith, ok),
          )
    ]

pub get_drive_valid :
    (path : Bytes)
    → path_valid_format path ≡ true
    → (get_drive_by_path path ≡ (pos (head path - 48), drop 3 path))
      × (48 ≤ head path)
      × (head path ≤ 57)
      × (3 ≤ length (cstr path))
unfolding get_drive_by_path
get_drive_valid path h = ground (arith, strnlen-min path max_path)

get_drive_invalid :
    (path : Bytes) → path_valid_format path ≡ false → get_drive_by_path path ≡ (ebadpath, path)
unfolding get_drive_by_path
get_drive_invalid path h = rw (h, get_drive_by_path)

cstr-drop :
    (path : Bytes) → 3 ≤ length (cstr path) → length (cstr (drop 3 path)) + 3 ≡ length (cstr path)
cstr-drop [] h = absurd (omega arith)
cstr-drop (a ∷ []) h = absurd (ground arith)
cstr-drop (a ∷ b ∷ []) h = absurd (ground arith)
cstr-drop (a ∷ b ∷ c ∷ path) h = ground arith

parse_long : (path : Bytes) → ltb max_path (strlen path) ≡ true → parse path ≡ some none
unfolding parse
parse_long path h = rw (h, parse)

parse_invalid :
    (path : Bytes)
    → ltb max_path (strlen path) ≡ false
    → path_valid_format path ≡ false
    → parse path ≡ some none
unfolding parse
parse_invalid path short h = rw (short, parse) (rw (get_drive_invalid path h))

pub parse_valid :
    (path : Bytes) {parts : List Bytes}
    → ltb max_path (strlen path) ≡ false
    → path_valid_format path ≡ true
    → parse_path_parts (strlen path + 1) (drop 3 path) ≡ some parts
    → parse path ≡ some (some (record { drive_no = pos (head path - 48); parts = parts }))
unfolding parse
parse_valid path short h done =
    let e = (get_drive_valid path h).0 in rw (short, parse) (rw e (rw done (rw e)))

-- Every path is answered, with no write outside a part's buffer: by a null pointer, or by a drive
-- from 0 to 9 and parts that are non-empty names, each short enough for a NUL behind it.
pub parse_total :
    (path : Bytes)
    → (parse path ≡ some none)
      ⊎ ((root : PathRoot) × (d : ℕ) × (parse path ≡ some (some root))
          × (root.drive_no ≡ pos d)
          × (d < 10)
          × AllParts root.parts)
parse_total path = elim (Bool-cases (ltb max_path (strlen path))) [
  | inl long ↦ inl (parse_long path long)
  | inr short ↦ elim (Bool-cases (path_valid_format path)) [
    | inr invalid ↦ inl (parse_invalid path short invalid)
    | inl valid ↦
        let (e, lo, hi, three) = get_drive_valid path valid in
        let fits : length (cstr path) ≤ max_path = ground (arith, strlen-cstr path) in
        let (parts, done, ok) =
          parse_path_parts_total (strlen path + 1) (drop 3 path)
            (omega (arith, strlen-cstr path, cstr-drop path three))
            (omega (arith, cstr-drop path three)) in
        inr (
          record { drive_no = pos (head path - 48); parts = parts },
          head path - 48,
          parse_valid path short valid done,
          refl,
          omega arith,
          ok,
        )
  ]
]
