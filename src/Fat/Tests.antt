-- ===== src/Fat/Tests.antt =====
-- A small disk with one file in its root directory, and the theorems at it.
use custom_peach_os.Prelude.{
  ℕ, zero, suc, ◌+◌, ◌*◌, ◌/◌, ◌%◌, ◌<◌, ◌≡◌, ◌≢◌, refl, Bool, true, none, some, [], ◌∷◌, ◌++◌,
  arith, inl, inr, ◌==◌, if◌then◌else◌, replicate,
}
use custom_peach_os.Prelude.Int.{ℤ, pos}
use custom_peach_os.Status.{all_ok}
use custom_peach_os.CString.{Bytes, strlen, strncmp, istrncmp, tolower}
use custom_peach_os.Streamer.{Device, the_disk}
use custom_peach_os.Streamer.Read.{IsDrive}
use custom_peach_os.PathParser.Parts.{AllParts}
use custom_peach_os.PathParser.RoundTrip.{path_of}
use custom_peach_os.Files
use custom_peach_os.Files.{failed, Files, fopen, fread, file_get_mode_by_string, free_slot}
use custom_peach_os.Fat.Disk.{
  Fat, header_of, fat16_init_private, fat16_get_total_items_for_directory, fat16_resolve,
}
use custom_peach_os.Fat.Disk.Count.{EndsAfter, fat16_get_total_items_for_directory-counted}
use custom_peach_os.Fat.Disk.Resolve.{resolved, fat16_resolve_lem}
use custom_peach_os.Fat.Clusters.{fat16_get_first_cluster}
use custom_peach_os.Fat.Clusters.Read.{after}
use custom_peach_os.Fat.Directory.{fat16_to_proper_string, fat16_get_full_relative_filename}
use custom_peach_os.Fat.Directory.Search.{HasName, HasOtherName}
use custom_peach_os.Fat.Open.{
  FatFileDescriptor, filesize, fat16_open, fat16_read, fat16_seek, Bound, fat16_init,
}
use custom_peach_os.Fat.Open.Lookup.{HasFile, root_item, descriptor_of, fat16_open-missing}
use custom_peach_os.Fat.Open.Fread.{fopen-fread}
use custom_peach_os.Fat.Open.Nested.{fopen-nested}
use custom_peach_os.Fat.Open.Read.{fat16_read-slice}
use custom_peach_os.Fat.Open.Seek.{SeekResult, fat16_seek-SeekResult}
use custom_peach_os.Fat.Directory.Names.{KeptBytes, fat16_get_full_relative_filename-full_name}

-- One sector per cluster, one reserved sector, one table of one sector, 16 items in the root
-- directory; there the file A.TXT of two bytes, in cluster 2.
abbrev byte : ℕ → ℕ
byte p =
    if p == 13
    then 1
    else if p == 14
    then 1
    else if p == 16
    then 1
    else if p == 17
    then 16
    else if p == 22
    then 1
    else if p == 38
    then 0x29
    else if p == 1024
    then b'A'
    else if p == 1032
    then b'T'
    else if p == 1033
    then b'X'
    else if p == 1034
    then b'T'
    else if p == 1035
    then 0x20
    else if p == 1050
    then 2
    else if p == 1052
    then 2
    else if p == 1536
    then b'h'
    else if p == 1537
    then b'i'
    else if 1024 == p / 8 * 8
    then 0x20
    else 0

abbrev small : Device
small p = byte p % 256

small-IsDrive : IsDrive small
small-IsDrive p = omega arith

abbrev memory : ℕ → Bool
memory n = true

only_item : EndsAfter small 1024 1
only_item = record { used = used; blank = refl }
  where
    used : (k : ℕ) → k < 1 → small (1024 + 32 * k) ≢ 0
    used zero lt = λ e. omega (arith, e)
    used (suc k) lt = absurd (omega arith)

fat16_resolve_lem_example :
    fat16_resolve small memory 0 ≡ some (all_ok, some (resolved small memory 0 1))
unfolding header_of resolved
fat16_resolve_lem_example =
    fat16_resolve_lem small memory 0 1 small-IsDrive refl refl only_item (omega arith) (omega arith)

abbrev fat : Fat
fat = resolved small memory 0 1

abbrev name : Bytes
name = b'a' ∷ b'.' ∷ b't' ∷ b'x' ∷ b't' ∷ []

abbrev full : Bytes
full = b'A' ∷ b'.' ∷ b'T' ∷ b'X' ∷ b'T' ∷ replicate 103 0x00

it : HasName fat.root_directory.items name 0
unfolding header_of fat16_init_private resolved fat16_get_full_relative_filename
    fat16_to_proper_string istrncmp tolower
it = record { full = full; reads = refl; same = refl }

has_file : HasFile fat name 0
unfolding header_of fat16_init_private resolved
has_file = record {
  total = 1;
  counts = refl;
  inside = omega arith;
  it = it;
  others = λ j ne lt. absurd (omega (arith, ne_zero j ne lt));
  plain = refl;
}
  where
    ne_zero : (j : ℕ) → j ≢ 0 → j < 1 → 0 < 0
    ne_zero zero ne lt = absurd (ne refl)
    ne_zero (suc j) ne lt = absurd (omega arith)

abbrev booted : Files Bound FatFileDescriptor
booted = record {
  filesystems = some (fat16_init small memory) ∷ [];
  descriptors = replicate 512 none;
  disk_filesystem = some (fat16_init small memory);
  world = some fat;
}

abbrev read_mode : Bytes
read_mode = b'r' ∷ []

name-AllParts : AllParts (name ∷ [])
name-AllParts = ground arith

fopen-fread_example :
    (f1 f2 : Files Bound FatFileDescriptor) × (fopen booted (path_of 0 (name ∷ []) ++ []) read_mode
      ≡ some (pos 1, f1))
    × (fread f1 1 2 (pos 1) ≡ (pos 2, b'h' ∷ b'i' ∷ [], f2))
unfolding header_of fat16_init_private resolved strlen file_get_mode_by_string strncmp free_slot
    fat16_get_first_cluster
fopen-fread_example =
    fopen-fread small memory booted fat name [] read_mode 0 0 1 2 small-IsDrive refl refl
      name-AllParts (inl refl) (omega arith) refl has_file (λ j lt. refl) refl (omega arith) refl
      (omega arith) (omega arith) (omega arith) (omega arith) (omega arith) (omega arith)

-- A path through a directory.
no_nested_file :
    (f' : Files Bound FatFileDescriptor) × (fopen booted
        (path_of 0 (name ∷ name ∷ []) ++ [])
        read_mode
      ≡ some (pos 0, f'))
    × (f'.descriptors ≡ booted.descriptors)
unfolding strlen
no_nested_file =
    fopen-nested small memory booted name name [] [] read_mode refl (ground arith) (inl refl)
      (omega arith)

one_item_counted :
    fat16_get_total_items_for_directory small 2 (fat16_init_private memory 0)
    ≡ some (
      pos 1,
      record (fat16_init_private memory 0) {
        directory_stream = record { position = 1088; disk = the_disk };
      },
    )
unfolding fat16_init_private
one_item_counted =
    fat16_get_total_items_for_directory-counted small 2 1 (fat16_init_private memory 0)
      small-IsDrive refl only_item (omega arith)

-- The bytes of the item of A.TXT.
abbrev field_name : Bytes
field_name = b'A' ∷ []

abbrev field_ext : Bytes
field_ext = b'T' ∷ b'X' ∷ b'T' ∷ []

abbrev item : Bytes
item = field_name ++ 0x20 ∷ (replicate 6 0x20 ++ (field_ext ++ 0x20 ∷ replicate 20 0x00))

field_name-KeptBytes : KeptBytes field_name
field_name-KeptBytes = ground arith

field_ext-KeptBytes : KeptBytes field_ext
field_ext-KeptBytes = ground arith

fat16_get_full_relative_filename-full_name_example :
    fat16_get_full_relative_filename item 108
    ≡ some (b'A' ∷ b'.' ∷ b'T' ∷ b'X' ∷ b'T' ∷ replicate 103 0x00)
fat16_get_full_relative_filename-full_name_example =
    fat16_get_full_relative_filename-full_name item field_name
      (replicate 6 0x20 ++ (field_ext ++ 0x20 ∷ replicate 20 0x00)) field_ext (replicate 20 0x00)
      0x20 0x20 108 refl refl field_name-KeptBytes (inr refl) field_ext-KeptBytes (inr refl)
      (omega arith)

-- A descriptor of the file.
abbrev desc : FatFileDescriptor
desc = descriptor_of fat 0

fat16_seek-SeekResult_example :
    (res : ℤ) × (desc' : FatFileDescriptor) × (fat16_seek desc 1 0 ≡ some (res, desc'))
    × SeekResult (filesize (root_item fat 0)) desc 1 0 res desc'
fat16_seek-SeekResult_example = fat16_seek-SeekResult desc (root_item fat 0) 1 0 refl refl

fat16_read-slice_example :
    (q : ℕ) × (fat16_read small desc 1 2 fat ≡ some ((pos 2, b'h' ∷ b'i' ∷ []), after fat q))
unfolding header_of fat16_init_private resolved fat16_get_first_cluster
fat16_read-slice_example =
    fat16_read-slice small (root_item fat 0) small-IsDrive 1 2 fat desc refl refl (omega arith)
      (omega arith) (omega arith) (omega arith) (omega arith)

-- B.TXT is not there.
abbrev absent : Bytes
absent = b'b' ∷ b'.' ∷ b't' ∷ b'x' ∷ b't' ∷ []

others : (j : ℕ) → j < 1 → HasOtherName fat.root_directory.items absent j
unfolding header_of fat16_init_private resolved fat16_get_full_relative_filename
    fat16_to_proper_string istrncmp tolower
others zero lt = record { full = full; reads = refl; differs = refl }
others (suc j) lt = absurd (omega arith)

absent_missing :
    fat16_open small (absent ∷ []) Files.read fat
    ≡ some (failed 0, record fat { calls = fat.calls + 1 })
unfolding header_of fat16_init_private resolved
absent_missing = fat16_open-missing small fat absent 1 refl others refl
