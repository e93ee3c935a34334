-- ===== src/Fat/Clusters/Read.antt =====
-- A read inside the first cluster of a file.
use custom_peach_os.Prelude.{
  ℕ, suc, ◌+◌, ◌-◌, ◌*◌, ◌%◌, ◌^◌, ◌≤◌, ◌<◌, ◌≡◌, ap, ◌∙◌, some, List, arith, ltb, false,
}
use native.Mathlib.Numerals.{add-one}
use native.Mathlib.Nat.{add-mul, div-eq_of_lt, mod-eq_of_lt}
use custom_peach_os.Prelude.Int.{pos}
use custom_peach_os.Status.{all_ok, sector_size}
use custom_peach_os.Streamer.{Device, slice, the_disk, DiskStream}
use custom_peach_os.Streamer.Read.{IsDrive, diskstreamer_read-slice}
use custom_peach_os.Fat.Disk.{Fat, seek_to, read_at}
use custom_peach_os.Fat.Clusters.{
  size_of_cluster_bytes, fat16_cluster_to_sector, cluster_loop, fat16_get_cluster_for_offset,
  read_cluster_stream, read_internal_fuel, fat16_read_internal,
}

pub read_at-slice :
    (dev : Device) (stream : DiskStream) (p total : ℕ)
    → IsDrive dev
    → stream.disk ≡ the_disk
    → p + total < 2 ^ 31
    → read_at dev stream p total
      ≡ some (all_ok, record stream { position = p + total }, slice dev p total)
unfolding read_at seek_to
read_at-slice dev stream p total d e small =
    ground (arith, diskstreamer_read-slice dev (record stream { position = p }) total d small e)

-- The position of the first byte of a cluster.
abbrev pub cluster_start : Fat → ℕ → ℕ
cluster_start f cluster =
    (f.root_directory.ending_sector_pos + (cluster - 2) * f.header.sectors_per_cluster)
    * sector_size

times_below : (c s : ℕ) → 2 ≤ c → (c + 2 ^ 32 - 2) * s ≡ (c - 2) * s + 2 ^ 32 * s
times_below c s h =
    ap (λ t. t * s) {x = c + 2 ^ 32 - 2} {y = (c - 2) + 2 ^ 32} (omega arith)
    ∙ add-mul (c - 2) (2 ^ 32) s

cluster_to_sector_in :
    (f : Fat) (cluster : ℕ)
    → 2 ≤ cluster
    → cluster_start f cluster < 2 ^ 31
    → fat16_cluster_to_sector f cluster * sector_size ≡ cluster_start f cluster
unfolding fat16_cluster_to_sector
cluster_to_sector_in f cluster lo small =
    omega (arith, times_below cluster f.header.sectors_per_cluster lo)

-- An offset in the first cluster needs no look at the table.
pub cluster_for_offset-first :
    (dev : Device) (f : Fat) (cluster offset : ℕ)
    → cluster < 2 ^ 31
    → offset < size_of_cluster_bytes f
    → fat16_get_cluster_for_offset dev cluster offset f ≡ some (pos cluster, f)
unfolding fat16_get_cluster_for_offset cluster_loop
cluster_for_offset-first dev f cluster offset small inside = ground (arith, div-eq_of_lt inside)

-- The state once the cluster stream stands at a position.
abbrev pub after : Fat → ℕ → Fat
after f p = record f { cluster_read_stream = record f.cluster_read_stream { position = p } }

-- One call of the reader, from what its parts give, where all bytes lie in the cluster.
one_call :
    (fuel : ℕ) (dev : Device) (f : Fat) (cluster offset total p : ℕ) (out : List ℕ)
    → fat16_get_cluster_for_offset dev cluster offset f ≡ some (pos cluster, f)
    → offset % size_of_cluster_bytes f ≡ offset
    → (fat16_cluster_to_sector f cluster * sector_size + offset) % 2 ^ 32 ≡ p
    → ltb (size_of_cluster_bytes f) total ≡ false
    → read_at dev f.cluster_read_stream p total
      ≡ some (all_ok, record f.cluster_read_stream { position = p + total }, out)
    → read_internal_fuel dev (suc fuel) cluster offset total f
      ≡ some ((all_ok, out), after f (p + total))
unfolding read_internal_fuel read_cluster_stream
one_call fuel dev f cluster offset total p out found small at_p fits done = ground arith

pub fat16_read_internal-slice :
    (dev : Device) (f : Fat) (cluster offset total : ℕ)
    → IsDrive dev
    → f.cluster_read_stream.disk ≡ the_disk
    → 2 ≤ cluster
    → cluster < 2 ^ 31
    → offset < size_of_cluster_bytes f
    → offset + total ≤ size_of_cluster_bytes f
    → cluster_start f cluster + offset + total < 2 ^ 31
    → fat16_read_internal dev cluster offset total f
      ≡ some (
        (all_ok, slice dev (cluster_start f cluster + offset) total),
        after f (cluster_start f cluster + offset + total),
      )
unfolding fat16_read_internal read_internal_fuel read_cluster_stream
fat16_read_internal-slice dev f cluster offset total d e lo small inside fits low =
    let p : ℕ = cluster_start f cluster + offset in
    rw (add-one) (
      one_call total dev f cluster offset total p (slice dev p total)
        (cluster_for_offset-first dev f cluster offset small inside) (mod-eq_of_lt inside)
        (omega (arith, cluster_to_sector_in f cluster lo (omega arith))) (ground arith)
        (read_at-slice dev f.cluster_read_stream p total d e low))
