-- ===== src/Fat/Directory/Nested.antt =====
-- What a path of several parts leads to: the items that the search makes are all marked as files.
use custom_peach_os.Prelude.{
  ℕ, zero, suc, ◌+◌, ◌*◌, ◌≡◌, Option, none, some, List, ◌∷◌, arith, Bool-cases, inl, inr, drop,
  Option-cases,
}
use mathlib.Core.Path.{subst}
use custom_peach_os.Prelude.Int.{ℤ, pos, negsuc, is_zero}
use custom_peach_os.Status.{max_path}
use custom_peach_os.CString.{Bytes, istrncmp}
use custom_peach_os.Streamer.{Device}
use custom_peach_os.Fat.Disk.{FatDirectory, Fat}
use custom_peach_os.Fat.Directory.{
  fat16_get_full_relative_filename, file, FatItem, fat16_clone_directory_item,
  fat16_new_fat_item_for_directory_item, find_loop, fat16_find_item_in_directory, entry_loop,
  fat16_get_directory_entry,
}

-- An item of type `file`, or none.
abbrev IsFileOrNone : Option FatItem → Type 0
IsFileOrNone none = Unit
IsFileOrNone (some item) = item.type ≡ file

new_item-file :
    (dev : Device) (item : List ℕ) (f : Fat) {x : FatItem} {f' : Fat}
    → fat16_new_fat_item_for_directory_item dev item f ≡ some (some x, f')
    → x.type ≡ file
unfolding fat16_new_fat_item_for_directory_item fat16_clone_directory_item
new_item-file dev item f e = ground arith

made-IsFileOrNone :
    (dev : Device) (item : List ℕ) (f : Fat) (r : Option FatItem) {f' : Fat}
    → fat16_new_fat_item_for_directory_item dev item f ≡ some (r, f')
    → IsFileOrNone r
made-IsFileOrNone dev item f none e = tt
made-IsFileOrNone dev item f (some x) e = new_item-file dev item f e

abbrev AllFile : Option (Option FatItem × Fat) → Type 0
AllFile none = Unit
AllFile (some (found, f)) = IsFileOrNone found

find_loop-AllFile :
    (dev : Device) (rounds i : ℕ) (items : List ℕ) (name : Bytes) (f_item : Option FatItem)
    (f : Fat)
    → IsFileOrNone f_item
    → AllFile (find_loop dev rounds i items name f_item f)
unfolding find_loop
find_loop-AllFile dev zero i items name f_item f h = h
find_loop-AllFile dev (suc rounds) i items name f_item f h =
    elim (Option-cases (fat16_get_full_relative_filename (drop (i * 32) items) max_path)) [
      | inl e ↦ rw (AllFile, e) tt
      | inr (tmp, e) ↦ elim (Bool-cases (is_zero (istrncmp tmp name max_path))) [
        | inr differ ↦
            rw (AllFile, e, differ) (find_loop-AllFile dev rounds (i + 1) items name f_item f h)
        | inl same ↦
            elim (Option-cases
              (fat16_new_fat_item_for_directory_item dev (drop (i * 32) items) f)) [
                | inl fails ↦ rw (AllFile, e, same, fails) tt
                | inr ((found, f1), makes) ↦
                    rw (AllFile, e, same, makes)
                      (find_loop-AllFile dev rounds (i + 1) items name found f1
                        (made-IsFileOrNone dev (drop (i * 32) items) f found makes))
              ]
      ]
    ]

find-AllFile :
    (dev : Device) (dir : FatDirectory) (name : Bytes) (f : Fat)
    → AllFile (fat16_find_item_in_directory dev dir name f)
unfolding fat16_find_item_in_directory
find-AllFile dev dir name f = at_total dir.total
  where
    at_total :
        (total : ℤ)
        → AllFile (elim total [
          | negsuc e ↦ some (none, f)
          | pos n ↦ find_loop dev n 0 dir.items name none f
        ])
    at_total (negsuc e) = tt
    at_total (pos n) = find_loop-AllFile dev n 0 dir.items name none f tt

-- Whatever the disk holds, no directory entry is found for a path of two parts or more.
pub nested_entry_none :
    (dev : Device) (p q : Bytes) (parts : List Bytes) (f : Fat) {r : Option FatItem} {f' : Fat}
    → fat16_get_directory_entry dev (p ∷ q ∷ parts) f ≡ some (r, f')
    → r ≡ none
unfolding fat16_get_directory_entry entry_loop
nested_entry_none dev p q parts f e =
    elim (Option-cases (fat16_find_item_in_directory dev f.root_directory p f)) [
      | inl fails ↦ ground arith
      | inr ((none, f1), absent) ↦ ground arith
      | inr ((some item, f1), found) ↦
          let is_file : item.type ≡ file =
            subst AllFile found (find-AllFile dev f.root_directory p f) in
          ground arith
    ]
