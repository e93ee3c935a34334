-- ===== src/Fat/Open/Lookup.antt =====
-- Opening a file of the root directory, and reading it.
use custom_peach_os.Prelude.{
  ℕ, ◌+◌, ◌<◌, ◌≡◌, ◌≢◌, ap, ◌∙◌, true, false, some, List, [], ◌∷◌, arith, take,
}
use custom_peach_os.Prelude.Int.{pos}
use custom_peach_os.CString.{Bytes}
use custom_peach_os.Streamer.{Device}
use custom_peach_os.Files
use custom_peach_os.Files.{Opened, failed, opened}
use custom_peach_os.Fat.Disk.{Fat}
use custom_peach_os.Fat.Directory.{is_subdirectory, fat16_get_directory_entry, entry_loop}
use custom_peach_os.Fat.Directory.Search.{
  item_at, HasName, HasOtherName, file_item, fat16_find_item_in_directory-none,
  fat16_find_item_in_directory-file_item,
}
use custom_peach_os.Fat.Open.{FatFileDescriptor, open_item, fat16_open}

-- A root directory in which just the item at an index has a name, and that item is a file's.
pub record HasFile (f : Fat) (name : Bytes) (k : ℕ) : Type 0 where
  pub total : ℕ
  pub counts : f.root_directory.total ≡ pos total
  pub inside : k < total
  pub it : HasName f.root_directory.items name k
  pub others : (j : ℕ) → j ≢ k → j < total → HasOtherName f.root_directory.items name j
  pub plain : is_subdirectory (item_at f.root_directory.items k) ≡ false

-- The 32 bytes of an item of the root directory.
abbrev pub root_item : Fat → ℕ → List ℕ
root_item f k = take 32 (item_at f.root_directory.items k)

abbrev pub descriptor_of : Fat → ℕ → FatFileDescriptor
descriptor_of f k = record { item = file_item (item_at f.root_directory.items k); position = 0 }

-- There is memory for the next `n` calls.
abbrev pub HasRoom : Fat → ℕ → Type 0
HasRoom f n = (j : ℕ) → j < n → f.room (f.calls + j) ≡ true

-- If just one item that is looked at in the root directory has the name, it is a file's, and there is
-- memory, then a path of that one part is opened for reading: the descriptor stands at 0 and holds
-- the 32 bytes of the item.
pub fat16_open-descriptor_of :
    (dev : Device) (f : Fat) (name : Bytes) (k : ℕ)
    → HasFile f name k
    → HasRoom f 3
    → fat16_open dev (name ∷ []) Files.read f
      ≡ some (opened (descriptor_of f k), record f { calls = f.calls + 1 + 1 + 1 })
unfolding fat16_open open_item fat16_get_directory_entry entry_loop
fat16_open-descriptor_of dev f name k has room =
    let f1 : Fat = record f { calls = f.calls + 1 } in
    let room_at : (j : ℕ) → j < 3 → (n : ℕ) → n ≡ f.calls + j → f.room n ≡ true =
      λ j lt n e. ap f.room e ∙ room j lt in
    ground (
      arith,
      room_at 0 (omega arith) f.calls (omega arith),
      fat16_find_item_in_directory-file_item dev f1.root_directory name has.total k f1 has.counts
          has.inside has.it has.others has.plain (room 1 (omega arith))
          (room_at 2 (omega arith) (f.calls + 1 + 1) (omega arith)),
    )

-- If no item that is looked at in the root directory has the name, and there is memory for a
-- descriptor, `fat16_open` of a path of that one part for reading terminates with -EIO.
pub fat16_open-missing :
    (dev : Device) (f : Fat) (name : Bytes) (total : ℕ)
    → f.root_directory.total ≡ pos total
    → ((j : ℕ) → j < total → HasOtherName f.root_directory.items name j)
    → f.room f.calls ≡ true
    → fat16_open dev (name ∷ []) Files.read f ≡ some (failed 0, record f { calls = f.calls + 1 })
unfolding fat16_open open_item fat16_get_directory_entry
fat16_open-missing dev f name total counts others room =
    let f1 : Fat = record f { calls = f.calls + 1 } in
    ground
      (arith, fat16_find_item_in_directory-none dev f1.root_directory name total f1 counts others)
