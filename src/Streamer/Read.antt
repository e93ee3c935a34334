-- ===== src/Streamer/Read.antt =====
-- `diskstreamer_read` over several sectors.
use custom_peach_os.Prelude.{
  bit_and, ◌^◌, ℕ, zero, suc, ◌+◌, ◌-◌, ◌*◌, ◌/◌, ◌%◌, ◌≤◌, ◌<◌, ◌≡◌, refl, ap, ◌∙◌, some, List, [],
  ◌∷◌, ◌++◌, arith, true, false, leb, Bool-cases, inl, inr, get_or,
}
use native.Mathlib.Numerals.{add-one}
use custom_peach_os.Prelude.Int.{ℤ}
use custom_peach_os.Status.{sector_size, eio, all_ok}
use custom_peach_os.Prelude.Bits.{and_low, or_fields}
use custom_peach_os.Streamer.{ports_for, delivered_from, word_at, words_loop, sectors_loop}
use custom_peach_os.Streamer.{
  Device, slice, the_disk, other, disk_read_block, DiskStream, copy_loop, read_fuel,
  diskstreamer_read,
}

get_or-slice : (dev : Device) (p n i : ℕ) → i < n → get_or (slice dev p n) i 0 ≡ dev (p + i)
get_or-slice dev p zero i lt = absurd (omega arith)
get_or-slice dev p (suc n) zero lt = ap dev (omega arith)
get_or-slice dev p (suc n) (suc i) lt =
    get_or-slice dev (p + 1) n i (omega arith) ∙ ap dev (omega arith)

pub slice-append :
    (dev : Device) (p n m : ℕ) → slice dev p n ++ slice dev (p + n) m ≡ slice dev p (n + m)
slice-append dev p zero m =
    ap (λ q. slice dev q m) {x = p + 0} {y = p} (omega arith)
    ∙ ap (slice dev p) {x = m} {y = 0 + m} (omega arith)
slice-append dev p (suc n) m =
    ap (λ l. dev p ∷ l)
      (ap (λ q. slice dev (p + 1) n ++ slice dev q m) {x = p + suc n} {y = p + 1 + n} (omega arith)
        ∙ slice-append dev (p + 1) n m)
    ∙ ap (slice dev p) {x = suc (n + m)} {y = suc n + m} (omega arith)

-- Within a sector the loop copies the bytes of the disk.
copy_loop-slice :
    (dev : Device) (sector offset i n : ℕ)
    → offset + i + n ≤ sector_size
    → copy_loop (slice dev (sector * sector_size) (1 * sector_size)) offset i n
      ≡ slice dev (sector * sector_size + offset + i) n
unfolding copy_loop
copy_loop-slice dev sector offset i zero h = refl
copy_loop-slice dev sector offset i (suc n) h = cc (
  get_or-slice dev (sector * sector_size) (1 * sector_size) (offset + i) (omega arith),
  ap dev {x = sector * sector_size + (offset + i)} {y = sector * sector_size + offset + i}
      (omega arith),
  copy_loop-slice dev sector offset (i + 1) n (omega arith),
  ap (λ p. slice dev p n) {x = sector * sector_size + offset + (i + 1)}
      {y = sector * sector_size + offset + i + 1} (omega arith),
)

abbrev at : ℕ → DiskStream
at p = record { position = p; disk = the_disk }

-- The sector that the call reads.
abbrev sector_of : Device → ℕ → List ℕ
sector_of dev p = sectors_loop dev (delivered_from (ports_for (p / sector_size) 1)) 1

-- A drive holds bytes.
abbrev pub IsDrive : Device → Type 0
IsDrive dev = (p : ℕ) → dev p < 256

ports_for-delivered :
    (lba total : ℕ) → lba < 2 ^ 28 → delivered_from (ports_for lba total) ≡ lba * sector_size
unfolding ports_for
ports_for-delivered lba total lt = omega (
  arith,
  or_fields 4 14 (lba / 2 ^ 24) (omega arith),
  ap (λ (t : ℕ). bit_and t 0xff) {x = lba} {y = lba / 256 * 2 ^ 8 + lba % 256} (omega arith),
  and_low 8 (lba / 256) (lba % 256) (omega arith),
)

words_loop-slice : (dev : Device) (p n : ℕ) → IsDrive dev → words_loop dev p n ≡ slice dev p (2 * n)
unfolding words_loop
words_loop-slice dev p zero d = ap (slice dev p) {x = 0} {y = 2 * 0} (omega arith)
words_loop-slice dev p (suc n) d =
    cc (
      (word_bytes dev p d).0,
      (word_bytes dev p d).1,
      words_loop-slice dev (p + 2) n d,
      ap (λ q. slice dev q (2 * n)) {x = p + 2} {y = p + 1 + 1} (omega arith),
    )
    ∙ ap (slice dev p) {x = suc (suc (2 * n))} {y = 2 * suc n} (omega arith)
  where
    word_bytes :
        (dev : Device) (p : ℕ)
        → IsDrive dev
        → (word_at dev p % 2 ^ 8 ≡ dev p) × (word_at dev p / 2 ^ 8 ≡ dev (p + 1))
    word_bytes dev p d = (omega (arith, d p, d (p + 1)), omega (arith, d p, d (p + 1)))

-- The buffer after reading one sector.
sector_of-slice :
    (dev : Device) (p : ℕ)
    → IsDrive dev
    → p < 2 ^ 31
    → sector_of dev p ≡ slice dev (p / sector_size * sector_size) (1 * sector_size)
unfolding sectors_loop
sector_of-slice dev p d lt =
    ap (λ q. words_loop dev q 256 ++ []) (ports_for-delivered (p / sector_size) 1 (omega arith))
    ∙ append-[] (words_loop dev (p / sector_size * sector_size) 256)
    ∙ words_loop-slice dev (p / sector_size * sector_size) 256 d
  where
    append-[] : (l : List ℕ) → l ++ [] ≡ l
    append-[] [] = refl
    append-[] (x ∷ l) = ap (λ t. x ∷ t) (append-[] l)

-- The bytes of one call: the rest of the sector at most.
sector_part :
    (dev : Device) (p n : ℕ)
    → IsDrive dev
    → p < 2 ^ 31
    → p % sector_size + n ≤ sector_size
    → copy_loop (sector_of dev p) (p % sector_size) 0 n ≡ slice dev p n
sector_part dev p n d small h =
    ap (λ l. copy_loop l (p % sector_size) 0 n) (sector_of-slice dev p d small)
    ∙ copy_loop-slice dev (p / sector_size) (p % sector_size) 0 n (omega arith)
    ∙ ap (λ q. slice dev q n) (omega arith)

step_inside :
    (fuel : ℕ) (dev : Device) (p total : ℕ)
    → leb sector_size (p % sector_size + total) ≡ false
    → read_fuel (suc fuel) dev (at p) total
      ≡ some (all_ok, at (p + total), copy_loop (sector_of dev p) (p % sector_size) 0 total)
unfolding read_fuel
step_inside fuel dev p total inside = rw (inside, disk_read_block)

step_over :
    (fuel : ℕ) (dev : Device) (p total now : ℕ) {r : ℤ} {stream : DiskStream} {out : List ℕ}
    → leb sector_size (p % sector_size + total) ≡ true
    → now ≡ total - (p % sector_size + total - sector_size)
    → read_fuel fuel dev (at (p + now)) (total - now) ≡ some (r, stream, out)
    → read_fuel (suc fuel) dev (at p) total
      ≡ some (r, stream, copy_loop (sector_of dev p) (p % sector_size) 0 now ++ out)
unfolding read_fuel
step_over fuel dev p total now over e rest = ground arith

read_fuel-slice :
    (fuel : ℕ) (dev : Device) (p total : ℕ)
    → IsDrive dev
    → p + total < 2 ^ 31
    → total < fuel
    → read_fuel fuel dev (at p) total ≡ some (all_ok, at (p + total), slice dev p total)
read_fuel-slice zero dev p total d small lt = absurd (omega arith)
read_fuel-slice (suc fuel) dev p total d small lt =
    elim (Bool-cases (leb sector_size (p % sector_size + total))) [
      | inr inside ↦
          step_inside fuel dev p total inside
          ∙ ap (λ l. some (all_ok, at (p + total), l))
              (sector_part dev p total d (omega arith) (ground arith))
      | inl over ↦
          let now : ℕ = total - (p % sector_size + total - sector_size) in
          let full : p % sector_size + now ≡ sector_size = ground arith in
          step_over fuel dev p total now over refl (
            read_fuel-slice fuel dev (p + now) (total - now) d (ground arith) (omega (arith, full)))
          ∙ ground (
            arith,
            sector_part dev p now d (omega arith) (omega (arith, full)),
            slice-append dev p now (total - now),
          )
    ]

-- On the disk that there is, for a drive that holds bytes and a read that ends below position 2^31,
-- `diskstreamer_read` terminates; it returns 0 and the `total` bytes of the disk from the stream's
-- position on, whatever sectors they lie in, and moves the stream behind them.
pub diskstreamer_read-slice :
    (dev : Device) (stream : DiskStream) (total : ℕ)
    → IsDrive dev
    → stream.position + total < 2 ^ 31
    → stream.disk ≡ the_disk
    → diskstreamer_read dev stream total
      ≡ some (
        all_ok,
        record stream { position = stream.position + total },
        slice dev stream.position total,
      )
unfolding diskstreamer_read
diskstreamer_read-slice dev stream total d small e =
    ground (arith, read_fuel-slice (total + 1) dev stream.position total d small (omega arith))

-- On a disk that is not there the read returns an error, moves nothing and writes nothing.
pub diskstreamer_read_other :
    (dev : Device) (stream : DiskStream) (total : ℕ)
    → stream.disk ≡ other
    → diskstreamer_read dev stream total ≡ some (eio, stream, [])
unfolding diskstreamer_read read_fuel
diskstreamer_read_other dev stream total e = rw add-one (rw e refl)
