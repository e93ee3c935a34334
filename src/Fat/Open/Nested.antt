-- ===== src/Fat/Open/Nested.antt =====
-- Paths of several parts, from `fopen` through the path parser and the disk down to the search.
use custom_peach_os.Prelude.{
  ℕ, ◌+◌, ◌≤◌, ◌≡◌, refl, ap, ◌∙◌, none, some, List, ◌∷◌, ◌++◌, arith, Bool, inl, inr, Option-cases,
  Bool-cases,
}
use custom_peach_os.Prelude.Int.{pos, negsuc}
use custom_peach_os.Status.{max_path}
use custom_peach_os.CString.{Bytes, strlen}
use custom_peach_os.PathParser.{parse}
use custom_peach_os.PathParser.Parts.{AllParts}
use custom_peach_os.PathParser.RoundTrip.{path_of, Trails, parse-path_of}
use custom_peach_os.Streamer.{Device}
use custom_peach_os.Files
use custom_peach_os.Files.{
  FileMode, Opened, failed, opened, FileSystem, Files, disk_filesystem_of, finish_open,
  open_descriptor, open_mode, open_parts, fopen_res, fopen, file_get_mode_by_string,
}
use custom_peach_os.Fat.Disk.{Fat}
use custom_peach_os.Fat.Directory.{fat16_get_directory_entry}
use custom_peach_os.Fat.Directory.Nested.{nested_entry_none}
use custom_peach_os.Fat.Open.{FatFileDescriptor, open_item, fat16_open, Bound, on_disk, fat16_init}

-- A path of two parts or more is refused in every mode, whatever the disk holds: `fat16_open` gives an
-- error or does not return.
fat16_open-nested :
    (dev : Device) (p q : Bytes) (ps : List Bytes) (mode : FileMode) (f : Fat)
    {r : Opened FatFileDescriptor} {f' : Fat}
    → fat16_open dev (p ∷ q ∷ ps) mode f ≡ some (r, f')
    → (n : ℕ) × (r ≡ failed n)
unfolding fat16_open open_item
fat16_open-nested dev p q ps Files.write f e = (5, ground arith)
fat16_open-nested dev p q ps Files.append f e = (5, ground arith)
fat16_open-nested dev p q ps Files.invalid f e = (5, ground arith)
fat16_open-nested dev p q ps Files.read f e =
    let f1 : Fat = record f { calls = f.calls + 1 } in
    elim (Bool-cases (f.room f.calls)) [
      | inr full ↦ (2, ground arith)
      | inl room ↦ elim (Option-cases (fat16_get_directory_entry dev (p ∷ q ∷ ps) f1)) [
        | inl fails ↦ absurd (ground arith)
        | inr ((found, f2), searched) ↦
            let absent : found ≡ none = nested_entry_none dev p q ps f1 searched in
            (0, ground arith)
      ]
    ]

-- The same for the table's entry.
open_file-nested :
    (dev : Device) (room : ℕ → Bool) (p q : Bytes) (ps : List Bytes) (mode : FileMode) (w : Bound)
    → (n : ℕ) × (w' : Bound) × ((fat16_init dev room).open_file w (p ∷ q ∷ ps) mode
        ≡ (failed n, w'))
unfolding fat16_init on_disk
open_file-nested dev room p q ps mode none = (0, none, refl)
open_file-nested dev room p q ps mode (some f) =
    elim (Option-cases (fat16_open dev (p ∷ q ∷ ps) mode f)) [
      | inl fails ↦ (0, none, ground arith)
      | inr ((r, f'), e) ↦
          let (n, refused) = fat16_open-nested dev p q ps mode f e in (n, some f', ground arith)
    ]

open_descriptor-nested :
    (dev : Device) (room : ℕ → Bool) (f : Files Bound FatFileDescriptor) (p q : Bytes)
    (ps : List Bytes) (mode : FileMode)
    → (n : ℕ) × (w : Bound) × (open_descriptor f (fat16_init dev room) (p ∷ q ∷ ps) mode
        ≡ (negsuc n, record f { world = w }))
unfolding open_descriptor finish_open
open_descriptor-nested dev room f p q ps mode =
    let (n, w, answer) = open_file-nested dev room p q ps mode f.world in
    (n, w, ap (λ a. finish_open (record f { world = a.1 }) (fat16_init dev room) a.0) answer)

open_mode-nested :
    (dev : Device) (room : ℕ → Bool) (f : Files Bound FatFileDescriptor) (p q : Bytes)
    (ps : List Bytes) (mode : FileMode)
    → (n : ℕ) × (w : Bound) × (open_mode f (fat16_init dev room) (p ∷ q ∷ ps) mode
        ≡ (negsuc n, record f { world = w }))
unfolding open_mode
open_mode-nested dev room f p q ps Files.invalid = (1, f.world, refl)
open_mode-nested dev room f p q ps Files.read = open_descriptor-nested dev room f p q ps Files.read
open_mode-nested dev room f p q ps Files.write =
    open_descriptor-nested dev room f p q ps Files.write
open_mode-nested dev room f p q ps Files.append =
    open_descriptor-nested dev room f p q ps Files.append

open_parts-bound :
    (f : Files Bound FatFileDescriptor) (fs : FileSystem Bound FatFileDescriptor) (p : Bytes)
    (ps : List Bytes) (m : Bytes)
    → f.disk_filesystem ≡ some fs
    → open_parts f (pos 0) (p ∷ ps) m ≡ open_mode f fs (p ∷ ps) (file_get_mode_by_string m)
unfolding open_parts disk_filesystem_of
open_parts-bound f fs p ps m bound = cc

fopen-parts :
    (f f' : Files Bound FatFileDescriptor) (path mode_str : Bytes) (p : Bytes) (ps : List Bytes)
    (n : ℕ)
    → parse path ≡ some (some (record { drive_no = pos 0; parts = p ∷ ps }))
    → open_parts f (pos 0) (p ∷ ps) mode_str ≡ (negsuc n, f')
    → fopen f path mode_str ≡ some (pos 0, f')
unfolding fopen fopen_res
fopen-parts f f' path mode_str p ps n parsed refused = ground arith

-- On disk 0 with the FAT16 filesystem bound to it, `fopen` of any path of at most 108 bytes,
-- written from two parts or more with slashes between, in any mode, terminates, returns 0 and
-- leaves the table of open files as it was, whatever the disk holds, where a fault of the
-- filesystem counts as an error: no file in a directory below the root can be opened.
pub fopen-nested :
    (dev : Device) (room : ℕ → Bool) (f : Files Bound FatFileDescriptor) (p q : Bytes)
    (ps : List Bytes) (e mode_str : Bytes)
    → f.disk_filesystem ≡ some (fat16_init dev room)
    → AllParts (p ∷ q ∷ ps)
    → Trails e
    → strlen (path_of 0 (p ∷ q ∷ ps) ++ e) ≤ max_path
    → (f' : Files Bound FatFileDescriptor) × (fopen f (path_of 0 (p ∷ q ∷ ps) ++ e) mode_str
        ≡ some (pos 0, f'))
      × (f'.descriptors ≡ f.descriptors)
fopen-nested dev room f p q ps e mode_str bound ok t fits =
    let (n, w, opens) = open_mode-nested dev room f p q ps (file_get_mode_by_string mode_str) in
    let f' : Files Bound FatFileDescriptor = record f { world = w } in
    (
      f',
      fopen-parts f f' (path_of 0 (p ∷ q ∷ ps) ++ e) mode_str p (q ∷ ps) n
          (parse-path_of 0 p (q ∷ ps) e (omega arith) ok t fits)
          (open_parts-bound f (fat16_init dev room) p (q ∷ ps) mode_str bound ∙ opens),
      refl,
    )
