-- ===== src/Fat/Hidden.antt =====
-- A disk whose root directory has a deleted item before the item of a file.
use custom_peach_os.Prelude.{
  ℕ, zero, suc, ◌+◌, ◌<◌, ◌≡◌, refl, Bool, true, some, [], ◌∷◌, arith, ◌==◌, if◌then◌else◌,
  replicate,
}
use custom_peach_os.CString.{Bytes, istrncmp, tolower}
use custom_peach_os.Files
use custom_peach_os.Files.{failed}
use custom_peach_os.Fat.Disk.{Fat, header_of, fat16_init_private}
use custom_peach_os.Fat.Disk.Resolve.{resolved}
use custom_peach_os.Fat.Directory.{fat16_to_proper_string, fat16_get_full_relative_filename}
use custom_peach_os.Fat.Directory.Search.{HasName, HasOtherName}
use custom_peach_os.Fat.Open.{fat16_open}
use custom_peach_os.Fat.Open.Lookup.{fat16_open-missing}

-- The deleted item at 1024, the file A at 1056.
abbrev byte : ℕ → ℕ
byte p =
    if p == 13
    then 1
    else if p == 14
    then 1
    else if p == 16
    then 1
    else if p == 17
    then 16
    else if p == 22
    then 1
    else if p == 38
    then 0x29
    else if p == 1024
    then 0xe5
    else if p == 1056
    then b'A'
    else 0

abbrev memory : ℕ → Bool
memory n = true

abbrev fat : Fat
fat = resolved byte memory 0 2

abbrev name : Bytes
name = b'a' ∷ []

-- The item of the file is there,
it : HasName fat.root_directory.items name 1
unfolding header_of fat16_init_private resolved fat16_get_full_relative_filename
    fat16_to_proper_string istrncmp tolower
it = record { full = b'A' ∷ replicate 107 0x00; reads = refl; same = refl }

others : (j : ℕ) → j < 1 → HasOtherName fat.root_directory.items name j
unfolding header_of fat16_init_private resolved fat16_get_full_relative_filename
    fat16_to_proper_string istrncmp tolower
others zero lt = record { full = 0xe5 ∷ replicate 107 0x00; reads = refl; differs = refl }
others (suc j) lt = absurd (omega arith)

-- but one item alone is counted, and the file is not found.
fat16_open_hidden :
    fat16_open byte (name ∷ []) Files.read fat
    ≡ some (failed 0, record fat { calls = fat.calls + 1 })
unfolding header_of fat16_init_private resolved
fat16_open_hidden = fat16_open-missing byte fat name 1 refl others refl
