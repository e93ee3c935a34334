-- ===== src/Streamer.antt =====
-- src/disk/disk.c and streamer.c: sector reads and the byte stream over them. The drive behind the
-- ports is a parameter: the byte that it holds at each position. Positions and lengths are those
-- `int`s that are not negative.
pub mod Read
mod Tests
use custom_peach_os.Prelude.{
  bit_and, bit_or, ◌^◌, ℕ, zero, suc, ◌+◌, ◌-◌, ◌*◌, ◌/◌, ◌%◌, Bool, true, false, Option, none,
  some, List, [], ◌∷◌, ◌++◌, leb, ◌==◌, if◌then◌else◌, get_or,
}
use custom_peach_os.Prelude.Int.{ℤ, pos, is_neg}
use custom_peach_os.Status.{sector_size, eio, all_ok}

abbrev pub Device : Type 0
Device = ℕ → ℕ

-- The `n` bytes from position `p` on.
abbrev pub slice : Device → ℕ → ℕ → List ℕ
slice dev p zero = []
slice dev p (suc n) = dev p ∷ slice dev (p + 1) n

-- What `disk_read_sector` writes to the ports 0x1f6 and 0x1f2 to 0x1f5, as bytes.
pub record Ports : Type 0 where
  pub select : ℕ
  pub total : ℕ
  pub low : ℕ
  pub middle : ℕ
  pub high : ℕ

unfoldable pub ports_for : ℕ → ℕ → Ports
ports_for lba total = record {
  select = bit_or 0xe0 (lba / 2 ^ 24) % 2 ^ 8;
  total = total % 2 ^ 8;
  low = bit_and lba 0xff;
  middle = lba / 2 ^ 8 % 2 ^ 8;
  high = lba / 2 ^ 16 % 2 ^ 8;
}

-- The position of the first byte that a drive delivers for these ports: the sector's number has 28
-- bits, the four highest of them in the low half of the first port.
abbrev pub delivered_from : Ports → ℕ
delivered_from ports =
    (ports.low + ports.middle * 2 ^ 8 + ports.high * 2 ^ 16 + ports.select % 16 * 2 ^ 24)
    * sector_size

-- The 16-bit word that the drive delivers from a position.
abbrev pub word_at : Device → ℕ → ℕ
word_at dev p = dev p + dev (p + 1) * 2 ^ 8

-- `n` words are left; a word is stored low byte first.
unfoldable pub words_loop : Device → ℕ → ℕ → List ℕ
words_loop dev p zero = []
words_loop dev p (suc n) = word_at dev p % 2 ^ 8 ∷ word_at dev p / 2 ^ 8 ∷ words_loop dev (p + 2) n

-- `b` sectors are left.
unfoldable pub sectors_loop : Device → ℕ → ℕ → List ℕ
unfolding words_loop
sectors_loop dev p zero = []
sectors_loop dev p (suc b) = words_loop dev p 256 ++ sectors_loop dev (p + sector_size) b

-- The result code, and what is written to the buffer. The wait for the drive is left out.
unfoldable pub disk_read_sector : Device → ℕ → ℕ → ℤ × List ℕ
disk_read_sector dev lba total =
    (all_ok, sectors_loop dev (delivered_from (ports_for lba total)) total)

-- Which disk a `struct disk *` points at: the one there is, or another.
pub data Disk : Type 0 where
  the_disk : Disk
  other : Disk

unfoldable pub disk_get : ℕ → Option Disk
disk_get index = if index == 0 then some the_disk else none

unfoldable pub disk_read_block : Device → Disk → ℕ → ℕ → ℤ × List ℕ
unfolding disk_read_sector
disk_read_block dev other lba total = (eio, [])
disk_read_block dev the_disk lba total = disk_read_sector dev lba total

pub record DiskStream : Type 0 where
  pub position : ℕ
  pub disk : Disk

-- The memory for the stream is taken to be there; `kzalloc`'s result is not tested.
pub diskstreamer_new : ℕ → Option DiskStream
unfolding disk_get
diskstreamer_new disk_id = elim (disk_get disk_id) [
  | none ↦ none
  | some disk ↦ some (record { position = 0; disk = disk })
]

unfoldable pub diskstreamer_seek : DiskStream → ℕ → ℤ × DiskStream
diskstreamer_seek stream p = (all_ok, record stream { position = p })

-- The `n` bytes of the sector's buffer from `offset + i` on.
unfoldable pub copy_loop : List ℕ → ℕ → ℕ → ℕ → List ℕ
copy_loop buf offset i zero = []
copy_loop buf offset i (suc n) = get_or buf (offset + i) 0 ∷ copy_loop buf offset (i + 1) n

-- The result code, the stream and the bytes written; `none` is that the fuel ran out.
unfoldable pub read_fuel : ℕ → Device → DiskStream → ℕ → Option (ℤ × DiskStream × List ℕ)
unfolding disk_read_block copy_loop
read_fuel zero dev stream total = none
read_fuel (suc fuel) dev stream total =
    let sector = stream.position / sector_size in
    let offset = stream.position % sector_size in
    let overflow = leb sector_size (offset + total) in
    let total_to_read = if overflow then total - (offset + total - sector_size) else total in
    let (res, buf) = disk_read_block dev stream.disk sector 1 in
    let out = copy_loop buf offset 0 total_to_read in
    let stream' = record stream { position = stream.position + total_to_read } in
    let rest = read_fuel fuel dev stream' (total - total_to_read) in
    if is_neg res
    then some (res, stream, [])
    else (if overflow
        then elim rest [
          | none ↦ none
          | some (res', stream'', out') ↦ some (res', stream'', out ++ out')
        ]
        else some (res, stream', out))

-- Each call but the last reads at least one byte.
unfoldable pub diskstreamer_read : Device → DiskStream → ℕ → Option (ℤ × DiskStream × List ℕ)
diskstreamer_read dev stream total = read_fuel (total + 1) dev stream total
