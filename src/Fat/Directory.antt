-- ===== src/Fat/Directory.antt =====
-- Directory items, their names, and the search of a directory. An item is its 32 bytes, and a pointer
-- to it is the list of the bytes of memory from there on.
pub mod Nested
pub mod Search
pub mod Names
use custom_peach_os.Prelude.{
  ℕ, zero, suc, ◌+◌, ◌-◌, ◌*◌, ◌/◌, ◌%◌, ◌^◌, Bool, true, false, not, ◌||◌, ◌&&◌, Option, none,
  some, List, [], ◌∷◌, ltb, ◌==◌, if◌then◌else◌, get_or, set, replicate, drop, take, length,
  bit_and,
}
use custom_peach_os.Prelude.Int.{ℤ, pos, negsuc, is_zero}
use custom_peach_os.Status.{all_ok, einvarg, enomem, max_path}
use custom_peach_os.CString.{Bytes, istrncmp}
use custom_peach_os.Streamer.{Device}
use custom_peach_os.Fat.Disk.{
  FatDirectory, Fat, M, ◌>>=◌, pure, fault, gets, kzalloc, fat16_get_total_items_for_directory,
}
use custom_peach_os.Fat.Clusters.{
  fat16_get_first_cluster, fat16_cluster_to_sector, fat16_read_internal,
}

abbrev pub file_subdirectory : ℕ
file_subdirectory = 0x10

abbrev pub attribute : List ℕ → ℕ
attribute item = get_or item 11 0

abbrev pub is_subdirectory : List ℕ → Bool
is_subdirectory item = not (bit_and (attribute item) file_subdirectory == 0)

-- Writes to `out` from index `i` on, and gives the index behind; `none` is a write behind the end.
unfoldable pub fat16_to_proper_string : Bytes → ℕ → Bytes → Option (Bytes × ℕ)
fat16_to_proper_string out i [] = some (out, i)
fat16_to_proper_string out i (c ∷ s) =
    let rest = fat16_to_proper_string (set out i c) (i + 1) s in
    if c == 0x00
    then some (out, i)
    else (if not (ltb i (length out))
        then none
        else (if c == 0x20 then some (set out i 0x00, i) else rest))

-- The name and the extension are read on until a space or a NUL, also behind their fields.
unfoldable pub fat16_get_full_relative_filename : List ℕ → ℕ → Option Bytes
unfolding fat16_to_proper_string
fat16_get_full_relative_filename item max_len =
    elim (fat16_to_proper_string (replicate max_len 0x00) 0 item) [
      | none ↦ none
      | some (out, i) ↦
          let ext = drop 8 item in
          let first = get_or ext 0 0 in
          if first == 0x00 || first == 0x20
          then some out
          else (if not (ltb i max_len)
              then none
              else elim (fat16_to_proper_string (set out i b'.') (i + 1) ext) [
                | none ↦ none
                | some (out', i') ↦ some out'
              ])
    ]

pub data ItemType : Type 0 where
  directory : ItemType
  file : ItemType

-- The union of a `struct fat_item`; a null pointer is `none`.
pub data Held : Type 0 where
  item_of : Option (List ℕ) → Held
  directory_of : Option FatDirectory → Held

pub record FatItem : Type 0 where
  pub held : Held
  pub type : ItemType

unfoldable pub fat16_clone_directory_item : List ℕ → ℕ → M (Option (List ℕ))
fat16_clone_directory_item item size =
    if ltb size 32
    then pure none
    else (do room ← kzalloc; pure (if room then some (take size item) else none))

module _ (dev : Device) where
  -- A directory that could not be read is freed, but returned all the same.
  unfoldable pub fat16_load_fat_directory : List ℕ → M (Option FatDirectory)
  fat16_load_fat_directory item = if not (is_subdirectory item) then pure none else (do
    room ← kzalloc
    if not room then pure none else (do
      let cluster = fat16_get_first_cluster item
      cluster_sector ← gets (λ f. fat16_cluster_to_sector f cluster)
      total_items ← fat16_get_total_items_for_directory dev cluster_sector
      let blank : FatDirectory = record {
        items = [];
        total = total_items;
        sector_pos = 0;
        ending_sector_pos = 0;
      }
      room' ← kzalloc
      elim total_items [
        | negsuc e ↦ fault
        | pos total ↦ if not room' then pure (some blank) else (do
          (res, out) ← fat16_read_internal dev cluster 0x00 (total * 32)
          pure (some (record blank { items = out })))
      ]))

  unfoldable pub fat16_new_fat_item_for_directory_item : List ℕ → M (Option FatItem)
  unfolding fat16_load_fat_directory fat16_clone_directory_item
  fat16_new_fat_item_for_directory_item item = do
    room ← kzalloc
    if not room then pure none else (do
      let blank : FatItem = record { held = item_of none; type = directory }
      f_item ←
          (if is_subdirectory item
            then (do
              loaded ← fat16_load_fat_directory item
              pure (record blank { held = directory_of loaded; type = directory }))
            else pure blank)
      copy ← fat16_clone_directory_item item 32
      pure (some (record f_item { type = file; held = item_of copy })))

  -- `rounds` items are left, the one at index `i` first.
  unfoldable pub find_loop : ℕ → ℕ → List ℕ → Bytes → Option FatItem → M (Option FatItem)
  find_loop zero i items name f_item f = some (f_item, f)
  find_loop (suc rounds) i items name f_item f =
      elim (fat16_get_full_relative_filename (drop (i * 32) items) max_path) [
        | none ↦ none
        | some tmp_filename ↦
            if is_zero (istrncmp tmp_filename name max_path)
            then elim (fat16_new_fat_item_for_directory_item (drop (i * 32) items) f) [
              | none ↦ none
              | some (found, f') ↦ find_loop rounds (i + 1) items name found f'
            ]
            else find_loop rounds (i + 1) items name f_item f
      ]

  unfoldable pub fat16_find_item_in_directory : FatDirectory → Bytes → M (Option FatItem)
  unfolding find_loop
  fat16_find_item_in_directory dir name f = elim dir.total [
    | negsuc e ↦ some (none, f)
    | pos total ↦ find_loop total 0 dir.items name none f
  ]

  -- The loop over the further parts of a path. A null pointer is looked through only if a part is
  -- left.
  unfoldable pub entry_loop : Option FatItem → List Bytes → M (Option FatItem)
  unfolding fat16_find_item_in_directory
  entry_loop current_item [] f = some (current_item, f)
  entry_loop none (part ∷ parts) f = none
  entry_loop (some item) (part ∷ parts) f = elim item.type [
    | file ↦ some (none, f)
    | directory ↦ elim item.held [
      | item_of p ↦ none
      | directory_of none ↦ none
      | directory_of (some d) ↦ elim (fat16_find_item_in_directory d part f) [
        | none ↦ none
        | some (tmp_item, f') ↦ entry_loop tmp_item parts f'
      ]
    ]
  ]

  -- A path has a first part.
  unfoldable pub fat16_get_directory_entry : List Bytes → M (Option FatItem)
  unfolding entry_loop
  fat16_get_directory_entry [] f = none
  fat16_get_directory_entry (part ∷ parts) f =
      elim (fat16_find_item_in_directory f.root_directory part f) [
        | none ↦ none
        | some (none, f') ↦ some (none, f')
        | some (some root_item, f') ↦ entry_loop (some root_item) parts f'
      ]
