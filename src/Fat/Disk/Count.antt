-- ===== src/Fat/Disk/Count.antt =====
-- How many items a directory is found to have.
use custom_peach_os.Prelude.{
  ℕ, zero, suc, ◌+◌, ◌*◌, ◌^◌, ◌<◌, ◌≡◌, ◌≢◌, refl, ap, ◌∙◌, some, arith, ◌==◌, if◌then◌else◌,
}
use native.Mathlib.Nat.{mod-eq_of_lt}
use custom_peach_os.Prelude.Int.{ℤ, pos}
use custom_peach_os.Status.{all_ok, sector_size}
use custom_peach_os.Streamer.{Device, slice, the_disk, DiskStream, diskstreamer_read}
use custom_peach_os.Streamer.Read.{IsDrive, diskstreamer_read-slice}
use custom_peach_os.Fat.Disk.{
  Fat, seek_to, fat16_sector_to_absolute, items_loop, fat16_get_total_items_for_directory,
}

-- The first byte of each of `n` records of 32 bytes from `p` on is not 0, and that of the next one is.
pub record EndsAfter (dev : Device) (p n : ℕ) : Type 0 where
  pub used : (k : ℕ) → k < n → dev (p + 32 * k) ≢ 0
  pub blank : dev (p + 32 * n) ≡ 0

-- Those of the records that are not marked as deleted.
abbrev pub counted : Device → ℕ → ℕ → ℕ
counted dev p zero = 0
counted dev p (suc n) = (if dev p == 0xe5 then 0 else 1) + counted dev (p + 32) n

abbrev pub at : DiskStream → ℕ → DiskStream
at stream p = record stream { position = p }

stop :
    (fuel : ℕ) (dev : Device) (stream : DiskStream) (i : ℕ)
    → diskstreamer_read dev stream 32
      ≡ some (all_ok, at stream (stream.position + 32), slice dev stream.position 32)
    → dev stream.position ≡ 0
    → items_loop dev (suc fuel) stream i ≡ some (pos i, at stream (stream.position + 32))
unfolding items_loop
stop fuel dev stream i reads blank = ground arith

step :
    (fuel : ℕ) (dev : Device) (stream : DiskStream) (i j : ℕ) {r : ℤ} {end : DiskStream}
    → diskstreamer_read dev stream 32
      ≡ some (all_ok, at stream (stream.position + 32), slice dev stream.position 32)
    → dev stream.position ≢ 0
    → i + (if dev stream.position == 0xe5 then 0 else 1) ≡ j
    → items_loop dev fuel (at stream (stream.position + 32)) j ≡ some (r, end)
    → items_loop dev (suc fuel) stream i ≡ some (r, end)
unfolding items_loop
step fuel dev stream i j reads used next rest = ground arith

shifted : (dev : Device) (p n : ℕ) → EndsAfter dev p (suc n) → EndsAfter dev (p + 32) n
shifted dev p n ends = record {
  used = λ k lt zeros.
      ends.used (suc k) (omega arith)
        (ap dev {x = p + 32 * suc k} {y = p + 32 + 32 * k} (omega arith) ∙ zeros);
  blank = ap dev {x = p + 32 + 32 * n} {y = p + 32 * suc n} (omega arith) ∙ ends.blank;
}

items_loop-counted :
    (fuel : ℕ) (dev : Device) (stream : DiskStream) (n i : ℕ)
    → IsDrive dev
    → stream.disk ≡ the_disk
    → EndsAfter dev stream.position n
    → stream.position + 32 * (n + 1) < 2 ^ 31
    → n < fuel
    → items_loop dev fuel stream i
      ≡ some (pos (i + counted dev stream.position n), at stream (stream.position + 32 * (n + 1)))
items_loop-counted zero dev stream n i d e ends small lt = absurd (omega arith)
items_loop-counted (suc fuel) dev stream zero i d e ends small lt =
    stop fuel dev stream i (diskstreamer_read-slice dev stream 32 d (omega arith) e)
      (ap dev {x = stream.position} {y = stream.position + 32 * 0} (omega arith) ∙ ends.blank)
    ∙ ap (λ c. some (pos c, at stream (stream.position + 32))) {x = i} {y = i + 0} (omega arith)
items_loop-counted (suc fuel) dev stream (suc n) i d e ends small lt =
    let now : ℕ = if dev stream.position == 0xe5 then 0 else 1 in
    let later =
      items_loop-counted fuel dev (at stream (stream.position + 32)) n (i + now) d e
        (shifted dev stream.position n ends) (omega arith) (omega arith) in
    step fuel dev stream i (i + now) (diskstreamer_read-slice dev stream 32 d (omega arith) e)
      (λ zeros.
        ends.used 0 (omega arith)
          (ap dev {x = stream.position + 32 * 0} {y = stream.position} (omega arith) ∙ zeros))
      refl later
    ∙ cc (
      ap pos {x = i + now + counted dev (stream.position + 32) n}
          {y = i + (now + counted dev (stream.position + 32) n)} (omega arith),
      ap (at stream) {x = stream.position + 32 + 32 * (n + 1)}
          {y = stream.position + 32 * (suc n + 1)} (omega arith),
    )

-- On a drive that holds bytes, for a directory whose first record with a 0 at its start is the one
-- at index `n`, which ends below position 2^31, the count of the items terminates and gives the
-- number of the records before that one that are not marked as deleted; only the directory's stream
-- moves, behind that record.
pub fat16_get_total_items_for_directory-counted :
    (dev : Device) (sector n : ℕ) (f : Fat)
    → IsDrive dev
    → f.directory_stream.disk ≡ the_disk
    → EndsAfter dev (sector * sector_size) n
    → sector * sector_size + 32 * (n + 1) < 2 ^ 31
    → fat16_get_total_items_for_directory dev sector f
      ≡ some (
        pos (counted dev (sector * sector_size) n),
        record f { directory_stream = at f.directory_stream (sector * sector_size + 32 * (n + 1)) },
      )
unfolding fat16_get_total_items_for_directory fat16_sector_to_absolute seek_to
fat16_get_total_items_for_directory-counted dev sector n f d e ends small = ground (
  arith,
  mod-eq_of_lt {n = sector * sector_size} {m = 2 ^ 32} (omega arith),
  items_loop-counted (2 ^ 26) dev (at f.directory_stream (sector * sector_size)) n 0 d e ends small
      (omega arith),
)
