-- ===== src/PathParser.antt =====
-- src/fs/pparser.c: a path as a drive and its parts. The linked list of `struct path_part` is the
-- list of the parts, each of which stands for a zeroed buffer of `max_path` bytes with the part at
-- its start. `kzalloc` is taken to succeed here, as in the code.
pub mod Parts
pub mod RoundTrip
mod Tests
use custom_peach_os.Prelude.{
  ℕ, zero, suc, ◌+◌, Bool, true, false, ◌&&◌, ◌||◌, Option, none, some, List, [], ◌∷◌, ltb, leb,
  ◌==◌, if◌then◌else◌, drop,
}
use custom_peach_os.Prelude.Int.{ℤ, pos, negsuc, is_neg}
use custom_peach_os.Status.{ebadpath, max_path}
use custom_peach_os.CString.{Bytes, head, tail, strlen, strnlen, isdigit, tonumericdigit}

pub record PathRoot : Type 0 where
  pub drive_no : ℤ
  pub parts : List Bytes

-- `memcmp(&filename[1], ":/", 2) == 0` compares two bytes.
unfoldable pub path_valid_format : Bytes → Bool
unfolding isdigit
path_valid_format filename =
    leb 3 (strnlen filename max_path)
    && isdigit (head filename)
    && (head (tail filename) == b':' && head (tail (tail filename)) == b'/')

-- The drive or an error, and the path behind it.
unfoldable pub get_drive_by_path : Bytes → ℤ × Bytes
unfolding path_valid_format tonumericdigit
get_drive_by_path path =
    if path_valid_format path then (tonumericdigit (head path), drop 3 path) else (ebadpath, path)

-- The part's bytes from index `i` on, and the rest of the path; `none` is a write behind the end of
-- the buffer.
unfoldable pub part_loop : ℕ → Bytes → Option (Bytes × Bytes)
part_loop i [] = some ([], [])
part_loop i (c ∷ path) =
    let rest = part_loop (i + 1) path in
    if c == b'/' || c == 0
    then some ([], c ∷ path)
    else (if ltb i max_path
        then elim rest [ none ↦ none | some (part, path') ↦ some (c ∷ part, path') ]
        else none)

-- An empty part is `none` inside.
unfoldable pub get_path_part : Bytes → Option (Option Bytes × Bytes)
unfolding part_loop
get_path_part path = elim (part_loop 0 path) [
  | none ↦ none
  | some (part, path') ↦
      let path'' = if head path' == b'/' then tail path' else path' in
      elim part [ [] ↦ some (none, path'') | c ∷ cs ↦ some (some (c ∷ cs), path'') ]
]

-- `pathparser_parse_path_part` until it returns a null pointer; `none` is also that the fuel ran
-- out.
unfoldable pub parse_path_parts : ℕ → Bytes → Option (List Bytes)
unfolding get_path_part
parse_path_parts zero path = none
parse_path_parts (suc fuel) path = elim (get_path_part path) [
  | none ↦ none
  | some (none, path') ↦ some []
  | some (some part, path') ↦ elim (parse_path_parts fuel path') [
    | none ↦ none
    | some parts ↦ some (part ∷ parts)
  ]
]

-- A null pointer is `none` inside. A part is at least one byte, so that the path's length is
-- enough fuel.
unfoldable pub parse : Bytes → Option (Option PathRoot)
unfolding get_drive_by_path parse_path_parts
parse path =
    if ltb max_path (strlen path)
    then some none
    else (let (res, tmp_path) = get_drive_by_path path in
        if is_neg res then some none else elim (parse_path_parts (strlen path + 1) tmp_path) [
          | none ↦ none
          | some parts ↦ some (some (record { drive_no = res; parts = parts }))
        ])
