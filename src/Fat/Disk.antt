-- ===== src/Fat/Disk.antt =====
-- What fat16.c keeps of a disk, and its reads of it. A `struct fat_private` is the record `Fat`: the
-- fields of the header that are read, the root directory and the three streams. Memory is not
-- addressed here: what `kzalloc` hands out is the value that is put there, and `room n` is whether
-- the call number `n` of it finds memory. Freeing is without effect on the values.
pub mod Count
pub mod Resolve
use custom_peach_os.Prelude.{
  ℕ, zero, suc, ◌+◌, ◌*◌, ◌/◌, ◌%◌, ◌^◌, Bool, true, false, not, Option, none, some, List, [], ◌∷◌,
  ltb, ◌==◌, if◌then◌else◌, get_or,
}
use custom_peach_os.Prelude.Int.{ℤ, pos, negsuc, is_zero}
use custom_peach_os.Status.{all_ok, eio, enomem, efsnotus, sector_size}
use custom_peach_os.Streamer.{Device, the_disk, DiskStream, diskstreamer_seek, diskstreamer_read}

pub record FatHeader : Type 0 where
  pub sectors_per_cluster : ℕ
  pub reserved_sectors : ℕ
  pub fat_copies : ℕ
  pub root_dir_entries : ℕ
  pub sectors_per_fat : ℕ
  pub signature : ℕ

-- `items` are the bytes of the array of directory items.
pub record FatDirectory : Type 0 where
  pub items : List ℕ
  pub total : ℤ
  pub sector_pos : ℕ
  pub ending_sector_pos : ℕ

pub record Fat : Type 0 where
  pub header : FatHeader
  pub root_directory : FatDirectory
  pub cluster_read_stream : DiskStream
  pub fat_read_stream : DiskStream
  pub directory_stream : DiskStream
  pub room : ℕ → Bool
  pub calls : ℕ

-- The computations on that state; `none` is a fault: fuel that ran out, a division by zero, a read
-- through a null pointer, a write behind a buffer, or a seek to a negative position.
abbrev pub M : Type 0 → Type 0
M A = Fat → Option (A × Fat)

infixl 5 ◌>>=◌ ◌>>◌
abbrev pub ◌>>=◌ : {A B : Type 0} → M A → (A → M B) → M B
◌>>=◌ m k f = elim (m f) [ none ↦ none | some (a, f') ↦ k a f' ]

abbrev pub ◌>>◌ : {B : Type 0} → M (Unit {0}) → M B → M B
m >> k = m >>= λ _. k

abbrev pub pure : {A : Type 0} → A → M A
pure a f = some (a, f)

abbrev pub fault : {A : Type 0} → M A
fault f = none

abbrev pub gets : {A : Type 0} → (Fat → A) → M A
gets g f = some (g f, f)

-- Whether `kzalloc` finds memory.
abbrev pub kzalloc : M Bool
kzalloc f = some (f.room f.calls, record f { calls = f.calls + 1 })

-- Little-endian numbers at an index of some bytes.
abbrev pub word16 : List ℕ → ℕ → ℕ
word16 bytes i = get_or bytes i 0 + get_or bytes (i + 1) 0 * 2 ^ 8

abbrev pub word32_at : List ℕ → ℕ → ℕ
word32_at bytes i = word16 bytes i + word16 bytes (i + 2) * 2 ^ 16

-- The fields at their places in the 62 bytes of a `struct fat_h`.
unfoldable pub header_of : List ℕ → FatHeader
header_of bytes = record {
  sectors_per_cluster = get_or bytes 13 0;
  reserved_sectors = word16 bytes 14;
  fat_copies = get_or bytes 16 0;
  root_dir_entries = word16 bytes 17;
  sectors_per_fat = word16 bytes 22;
  signature = get_or bytes 38 0;
}

-- A stream at the start of the disk, as `diskstreamer_new` makes it for disk 0.
abbrev pub new_stream : DiskStream
new_stream = record { position = 0; disk = the_disk }

-- Before the disk is read all fields are zero.
unfoldable pub fat16_init_private : (ℕ → Bool) → ℕ → Fat
unfolding header_of
fat16_init_private room calls = record {
  header = header_of [];
  root_directory = record { items = []; total = pos 0; sector_pos = 0; ending_sector_pos = 0 };
  cluster_read_stream = new_stream;
  fat_read_stream = new_stream;
  directory_stream = new_stream;
  room = room;
  calls = calls;
}

-- An `int`, given by its 32 bits.
unfoldable pub fat16_sector_to_absolute : ℕ → ℕ
fat16_sector_to_absolute sector = sector * sector_size % 2 ^ 32

-- The position is given by the 32 bits of an `int`.
unfoldable pub seek_to : DiskStream → ℕ → Option (ℤ × DiskStream)
unfolding diskstreamer_seek
seek_to stream p = if ltb p (2 ^ 31) then some (diskstreamer_seek stream p) else none

module _ (dev : Device) where
  -- Seeks, then reads; the code is that of the first that fails. The streams differ in no other way.
  unfoldable pub read_at : DiskStream → ℕ → ℕ → Option (ℤ × DiskStream × List ℕ)
  unfolding seek_to
  read_at stream p total = elim (seek_to stream p) [
    | none ↦ none
    | some (res, stream') ↦
        if not (is_zero res) then some (res, stream', []) else diskstreamer_read dev stream' total
  ]

  -- The loop over the items of a directory; `i` of them are counted.
  unfoldable pub items_loop : ℕ → DiskStream → ℕ → Option (ℤ × DiskStream)
  items_loop zero stream i = none
  items_loop (suc fuel) stream i = elim (diskstreamer_read dev stream 32) [
    | none ↦ none
    | some (res, stream', item) ↦
        let first = get_or item 0 0 in
        let rest = items_loop fuel stream' (if first == 0xe5 then i else i + 1) in
        if not (is_zero res)
        then some (eio, stream')
        else (if first == 0x00 then some (pos i, stream') else rest)
  ]

  -- After 2^26 items of 32 bytes the position is no `int` any more.
  unfoldable pub fat16_get_total_items_for_directory : ℕ → M ℤ
  unfolding seek_to
  fat16_get_total_items_for_directory directory_start_sector f =
      elim (seek_to f.directory_stream (fat16_sector_to_absolute directory_start_sector)) [
        | none ↦ none
        | some (res, stream) ↦
            if not (is_zero res)
            then some (eio, record f { directory_stream = stream })
            else elim (items_loop (2 ^ 26) stream 0) [
              | none ↦ none
              | some (total, stream') ↦ some (total, record f { directory_stream = stream' })
            ]
      ]

  unfoldable pub read_directory_stream : ℕ → ℕ → M (ℤ × List ℕ)
  unfolding read_at
  read_directory_stream p total f = elim (read_at f.directory_stream p total) [
    | none ↦ none
    | some (res, stream, out) ↦ some ((res, out), record f { directory_stream = stream })
  ]

  -- The result code, and the directory where it is 0.
  unfoldable pub fat16_get_root_directory : M (ℤ × FatDirectory)
  unfolding read_directory_stream
  fat16_get_root_directory = do
    header ← gets (λ f. f.header)
    old ← gets (λ f. f.root_directory)
    let root_dir_sector_pos = header.fat_copies * header.sectors_per_fat + header.reserved_sectors
    let root_dir_size = header.root_dir_entries * 32
    total_items ← fat16_get_total_items_for_directory root_dir_sector_pos
    room ← kzalloc
    if not room then pure (enomem, old) else (do
      (res, dir) ←
          read_directory_stream (fat16_sector_to_absolute root_dir_sector_pos) root_dir_size
      if not (is_zero res)
          then pure (eio, old)
          else pure (
            all_ok,
            record {
              items = dir;
              total = total_items;
              sector_pos = root_dir_sector_pos;
              ending_sector_pos = root_dir_sector_pos + root_dir_size / sector_size;
            },
          ))

  -- The result code, and what the disk is bound to where it is 0. `room` and `calls` are those of
  -- the allocations to come; the first five of them, for the state and the streams, are taken to find
  -- memory, as in the code.
  unfoldable pub fat16_resolve : (ℕ → Bool) → ℕ → Option (ℤ × Option Fat)
  unfolding fat16_init_private
  fat16_resolve room calls = elim (diskstreamer_read dev new_stream 62) [
    | none ↦ none
    | some (res, stream, bytes) ↦
        if not (is_zero res)
        then some (eio, none)
        else (let f = record (fat16_init_private room (calls + 5)) { header = header_of bytes } in
            if not (get_or bytes 38 0 == 0x29)
            then some (efsnotus, none)
            else elim (fat16_get_root_directory f) [
              | none ↦ none
              | some ((code, root), f') ↦
                  if not (is_zero code)
                  then some (eio, none)
                  else some (all_ok, some (record f' { root_directory = root }))
            ])
  ]
