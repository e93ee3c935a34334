-- ===== src/Fat/Disk/Resolve.antt =====
-- What `fat16_resolve` makes of a disk: the header, the root directory and the streams.
use custom_peach_os.Prelude.{
  ℕ, ◌+◌, ◌*◌, ◌/◌, ◌%◌, ◌^◌, ◌<◌, ◌≡◌, ◌≢◌, refl, some, none, Bool, true, arith,
}
use native.Mathlib.Nat.{mod-eq_of_lt}
use custom_peach_os.Prelude.Int.{pos}
use custom_peach_os.Status.{all_ok, efsnotus, sector_size}
use custom_peach_os.Streamer.{Device, slice, the_disk, diskstreamer_read}
use custom_peach_os.Streamer.Read.{IsDrive, diskstreamer_read-slice}
use custom_peach_os.Fat.Disk.{
  FatHeader, FatDirectory, Fat, new_stream, header_of, fat16_init_private, fat16_sector_to_absolute,
  read_at, seek_to, read_directory_stream, fat16_get_root_directory, fat16_resolve,
}
use custom_peach_os.Fat.Disk.Count.{
  EndsAfter, counted, at, fat16_get_total_items_for_directory-counted,
}

-- The sector of the root directory, and its size in bytes.
abbrev pub root_sector : FatHeader → ℕ
root_sector h = h.fat_copies * h.sectors_per_fat + h.reserved_sectors

abbrev pub root_size : FatHeader → ℕ
root_size h = h.root_dir_entries * 32

-- The root directory of a disk whose items are ended by a blank one at index `n`.
abbrev pub root_of : Device → FatHeader → ℕ → FatDirectory
root_of dev h n = record {
  items = slice dev (root_sector h * sector_size) (root_size h);
  total = pos (counted dev (root_sector h * sector_size) n);
  sector_pos = root_sector h;
  ending_sector_pos = root_sector h + root_size h / sector_size;
}

read_at-slice :
    (dev : Device) (f : Fat) (p total : ℕ)
    → IsDrive dev
    → f.directory_stream.disk ≡ the_disk
    → p + total < 2 ^ 31
    → read_directory_stream dev (p % 2 ^ 32) total f
      ≡ some (
        (all_ok, slice dev p total),
        record f { directory_stream = at f.directory_stream (p + total) },
      )
unfolding read_directory_stream read_at seek_to
read_at-slice dev f p total d e small = ground (
  arith,
  mod-eq_of_lt {n = p} {m = 2 ^ 32} (omega arith),
  diskstreamer_read-slice dev (at f.directory_stream p) total d small e,
)

fat16_get_root_directory_lem :
    (dev : Device) (f : Fat) (n : ℕ)
    → IsDrive dev
    → f.directory_stream.disk ≡ the_disk
    → f.room f.calls ≡ true
    → EndsAfter dev (root_sector f.header * sector_size) n
    → root_sector f.header * sector_size + 32 * (n + 1) < 2 ^ 31
    → root_sector f.header * sector_size + root_size f.header < 2 ^ 31
    → fat16_get_root_directory dev f
      ≡ some (
        (all_ok, root_of dev f.header n),
        record f {
          directory_stream =
              at f.directory_stream (root_sector f.header * sector_size + root_size f.header);
          calls = f.calls + 1;
        },
      )
unfolding fat16_get_root_directory fat16_sector_to_absolute
fat16_get_root_directory_lem dev f n d e room ends small fits =
    let p : ℕ = root_sector f.header * sector_size in
    let f1 : Fat = record f { directory_stream = at f.directory_stream (p + 32 * (n + 1)) } in
    ground (
      arith,
      fat16_get_total_items_for_directory-counted dev (root_sector f.header) n f d e ends small,
      read_at-slice dev (record f1 { calls = f.calls + 1 }) p (root_size f.header) d e fits,
    )

-- The header of a disk.
abbrev pub header : Device → FatHeader
header dev = header_of (slice dev 0 62)

reads_header :
    (dev : Device)
    → IsDrive dev
    → diskstreamer_read dev new_stream 62 ≡ some (all_ok, at new_stream 62, slice dev 0 62)
reads_header dev d = diskstreamer_read-slice dev new_stream 62 d (omega arith) refl

-- A drive that holds bytes and whose byte 38, the signature, is another than 0x29 is refused with
-- -EFSNOTUS, and nothing is bound to it.
pub fat16_resolve_foreign :
    (dev : Device) (room : ℕ → Bool) (calls : ℕ)
    → IsDrive dev
    → dev 38 ≢ 0x29
    → fat16_resolve dev room calls ≡ some (efsnotus, none)
unfolding fat16_resolve
fat16_resolve_foreign dev room calls d foreign = ground (arith, reads_header dev d)

-- What is bound to a disk with the signature.
unfoldable pub resolved : Device → (ℕ → Bool) → ℕ → ℕ → Fat
unfolding fat16_init_private
resolved dev room calls n = record (fat16_init_private room (calls + 6)) {
  header = header dev;
  root_directory = root_of dev (header dev) n;
  directory_stream =
      at new_stream (root_sector (header dev) * sector_size + root_size (header dev));
}

-- On a drive that holds bytes, with the signature 0x29, with memory for the root directory, whose
-- root directory has its first blank record at index `n` and ends, as that record does, below
-- position 2^31, `fat16_resolve` terminates and returns 0; bound to the disk are the fields of the
-- header, and the root directory with the bytes of the disk at its sector, the count of its items
-- that are not deleted, and the number of the sector behind it.
pub fat16_resolve_lem :
    (dev : Device) (room : ℕ → Bool) (calls n : ℕ)
    → IsDrive dev
    → dev 38 ≡ 0x29
    → room (calls + 5) ≡ true
    → EndsAfter dev (root_sector (header dev) * sector_size) n
    → root_sector (header dev) * sector_size + 32 * (n + 1) < 2 ^ 31
    → root_sector (header dev) * sector_size + root_size (header dev) < 2 ^ 31
    → fat16_resolve dev room calls ≡ some (all_ok, some (resolved dev room calls n))
unfolding fat16_resolve fat16_init_private resolved
fat16_resolve_lem dev room calls n d signature memory ends small fits =
    let f : Fat = record (fat16_init_private room (calls + 5)) { header = header dev } in
    ground (
      arith,
      reads_header dev d,
      fat16_get_root_directory_lem dev f n d refl memory ends small fits,
    )
