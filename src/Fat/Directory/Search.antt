-- ===== src/Fat/Directory/Search.antt =====
-- What the search of a directory finds.
use custom_peach_os.Prelude.{
  ℕ, zero, suc, ◌+◌, ◌*◌, ◌≤◌, ◌<◌, ◌≡◌, ◌≢◌, refl, ap, ◌∙◌, inl, inr, true, false, Option, none,
  some, List, arith, take, drop, ◌==◌, Bool-cases, ==_iff,
}
use custom_peach_os.Prelude.Int.{pos, is_zero}
use custom_peach_os.Status.{max_path}
use custom_peach_os.CString.{Bytes, istrncmp}
use custom_peach_os.Streamer.{Device}
use custom_peach_os.Fat.Disk.{FatDirectory, Fat}
use custom_peach_os.Fat.Directory.{
  is_subdirectory, fat16_get_full_relative_filename, file, item_of, FatItem,
  fat16_clone_directory_item, fat16_new_fat_item_for_directory_item, find_loop,
  fat16_find_item_in_directory,
}

-- The bytes of memory from the item at an index on.
abbrev pub item_at : List ℕ → ℕ → List ℕ
item_at items i = drop (i * 32) items

-- Whether the item at an index has a name, upper and lower case being one.
pub record HasName (items : List ℕ) (name : Bytes) (i : ℕ) : Type 0 where
  pub full : Bytes
  pub reads : fat16_get_full_relative_filename (item_at items i) max_path ≡ some full
  pub same : istrncmp full name max_path ≡ pos 0

pub record HasOtherName (items : List ℕ) (name : Bytes) (i : ℕ) : Type 0 where
  pub full : Bytes
  pub reads : fat16_get_full_relative_filename (item_at items i) max_path ≡ some full
  pub differs : is_zero (istrncmp full name max_path) ≡ false

-- What a file's item becomes.
abbrev pub file_item : List ℕ → FatItem
file_item item = record { held = item_of (some (take 32 item)); type = file }

new_item-file_item :
    (dev : Device) (item : List ℕ) (f : Fat)
    → is_subdirectory item ≡ false
    → f.room f.calls ≡ true
    → f.room (f.calls + 1) ≡ true
    → fat16_new_fat_item_for_directory_item dev item f
      ≡ some (some (file_item item), record f { calls = f.calls + 1 + 1 })
unfolding fat16_new_fat_item_for_directory_item fat16_clone_directory_item
new_item-file_item dev item f plain room room' = ground arith

module _ (dev : Device) (items : List ℕ) (name : Bytes) where
  pass :
      (rounds i : ℕ) (f_item : Option FatItem) (f : Fat)
      → HasOtherName items name i
      → find_loop dev (suc rounds) i items name f_item f
        ≡ find_loop dev rounds (i + 1) items name f_item f
  unfolding find_loop
  pass rounds i f_item f other = ground (arith, other.reads, other.differs)

  hit :
      (rounds i : ℕ) (f_item found : Option FatItem) (f f' : Fat)
      → HasName items name i
      → fat16_new_fat_item_for_directory_item dev (item_at items i) f ≡ some (found, f')
      → find_loop dev (suc rounds) i items name f_item f
        ≡ find_loop dev rounds (i + 1) items name found f'
  unfolding find_loop
  hit rounds i f_item found f f' it makes = ground (arith, it.reads, it.same)

  find_loop-none :
      (rounds i : ℕ) (f_item : Option FatItem) (f : Fat)
      → ((j : ℕ) → i ≤ j → j < i + rounds → HasOtherName items name j)
      → find_loop dev rounds i items name f_item f ≡ some (f_item, f)
  unfolding find_loop
  find_loop-none zero i f_item f others = refl
  find_loop-none (suc rounds) i f_item f others =
      pass rounds i f_item f (others i (omega arith) (omega arith))
      ∙ find_loop-none rounds (i + 1) f_item f (λ j lo hi. others j (omega arith) (omega arith))

  find_loop-file_item :
      (rounds i k : ℕ) (f_item : Option FatItem) (f : Fat)
      → i ≤ k
      → k < i + rounds
      → HasName items name k
      → ((j : ℕ) → j ≢ k → j < i + rounds → HasOtherName items name j)
      → is_subdirectory (item_at items k) ≡ false
      → f.room f.calls ≡ true
      → f.room (f.calls + 1) ≡ true
      → find_loop dev rounds i items name f_item f
        ≡ some (some (file_item (item_at items k)), record f { calls = f.calls + 1 + 1 })
  find_loop-file_item zero i k f_item f lo hi it others plain room room' = absurd (omega arith)
  find_loop-file_item (suc rounds) i k f_item f lo hi it others plain room room' =
      elim (Bool-cases (i == k)) [
        | inl here ↦
            let at_k : i ≡ k = (==_iff i k).0 here in
            let f' : Fat = record f { calls = f.calls + 1 + 1 } in
            let made : Option FatItem = some (file_item (item_at items k)) in
            ap (λ i. find_loop dev (suc rounds) i items name f_item f) at_k
            ∙ hit rounds k f_item made f f' it
                (new_item-file_item dev (item_at items k) f plain room room')
            ∙ find_loop-none rounds (k + 1) made f'
                (λ j lo' hi'. others j (omega arith) (omega arith))
        | inr later ↦
            let apart : i ≢ k = λ e. absurd (ground arith) in
            pass rounds i f_item f (others i apart (omega arith))
            ∙ find_loop-file_item rounds (i + 1) k f_item f (omega arith) (omega arith) it
                (λ j ne lt. others j ne (omega arith)) plain room room'
      ]

-- If none of the items that are looked at has the name, nothing is found.
pub fat16_find_item_in_directory-none :
    (dev : Device) (dir : FatDirectory) (name : Bytes) (total : ℕ) (f : Fat)
    → dir.total ≡ pos total
    → ((j : ℕ) → j < total → HasOtherName dir.items name j)
    → fat16_find_item_in_directory dev dir name f ≡ some (none, f)
unfolding fat16_find_item_in_directory
fat16_find_item_in_directory-none dev dir name total f counts others =
    rw counts (find_loop-none dev dir.items name total 0 none f (λ j lo hi. others j (omega arith)))

-- If just one of the items that are looked at has the name, it is no subdirectory's, and there is
-- memory, then a file with the 32 bytes of that item is found.
pub fat16_find_item_in_directory-file_item :
    (dev : Device) (dir : FatDirectory) (name : Bytes) (total k : ℕ) (f : Fat)
    → dir.total ≡ pos total
    → k < total
    → HasName dir.items name k
    → ((j : ℕ) → j ≢ k → j < total → HasOtherName dir.items name j)
    → is_subdirectory (item_at dir.items k) ≡ false
    → f.room f.calls ≡ true
    → f.room (f.calls + 1) ≡ true
    → fat16_find_item_in_directory dev dir name f
      ≡ some (some (file_item (item_at dir.items k)), record f { calls = f.calls + 1 + 1 })
unfolding fat16_find_item_in_directory
fat16_find_item_in_directory-file_item dev dir name total k f counts lt it others plain room room' =
    rw counts (
      find_loop-file_item dev dir.items name total 0 k none f (omega arith) (omega arith) it
        (λ j ne hi. others j ne (omega arith)) plain room room')
