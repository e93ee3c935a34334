-- ===== src/Fat/Clusters.antt =====
-- The file allocation table and the reads along a chain of clusters. A cluster's number is given by
-- the 32 bits of an `int`; offsets and lengths are those `int`s that are not negative.
pub mod Read
use custom_peach_os.Prelude.{
  ℕ, zero, suc, ◌+◌, ◌-◌, ◌*◌, ◌/◌, ◌%◌, ◌^◌, Bool, not, ◌||◌, Option, none, some, List, [], ◌∷◌,
  ◌++◌, ltb, ◌==◌, if◌then◌else◌, bit_or,
}
use custom_peach_os.Prelude.Int.{ℤ, pos, negsuc, is_neg, is_zero, signed32, word32}
use custom_peach_os.Status.{all_ok, eio, sector_size}
use custom_peach_os.Streamer.{Device}
use custom_peach_os.Fat.Disk.{
  FatHeader, FatDirectory, Fat, M, ◌>>=◌, pure, fault, gets, word16, fat16_sector_to_absolute,
  read_at,
}

-- The two halves of the number are joined without a shift.
unfoldable pub fat16_get_first_cluster : List ℕ → ℕ
fat16_get_first_cluster item = bit_or (word16 item 20) (word16 item 26)

unfoldable pub fat16_cluster_to_sector : Fat → ℕ → ℕ
fat16_cluster_to_sector f cluster =
    (f.root_directory.ending_sector_pos + (cluster + 2 ^ 32 - 2) * f.header.sectors_per_cluster)
    % 2 ^ 32

unfoldable pub fat16_get_first_fat_sector : Fat → ℕ
fat16_get_first_fat_sector f = f.header.reserved_sectors

abbrev pub size_of_cluster_bytes : Fat → ℕ
size_of_cluster_bytes f = f.header.sectors_per_cluster * sector_size

-- The marks of a last, bad, reserved or unused cluster that the loop looks for.
unfoldable pub ends_chain : ℕ → Bool
ends_chain entry =
    entry == 0xff8
    || entry == 0xfff
    || entry == 0xff7
    || (entry == 0xff0 || entry == 0xff6)
    || entry == 0x00

module _ (dev : Device) where
  -- The position is a product, as in the code.
  unfoldable pub fat16_get_fat_entry : ℕ → M ℤ
  unfolding fat16_get_first_fat_sector
  fat16_get_fat_entry cluster f =
      let fat_table_position = fat16_get_first_fat_sector f * sector_size in
      elim (read_at dev f.fat_read_stream (fat_table_position * (cluster * 0x02) % 2 ^ 32) 2) [
        | none ↦ none
        | some (res, stream, out) ↦
            some (
              if is_neg res then res else pos (word16 out 0),
              record f { fat_read_stream = stream },
            )
      ]

  -- `rounds` clusters are still to be passed.
  unfoldable pub cluster_loop : ℕ → ℕ → M ℤ
  unfolding ends_chain
  cluster_loop zero cluster_to_use f = some (signed32 cluster_to_use, f)
  cluster_loop (suc rounds) cluster_to_use f = elim (fat16_get_fat_entry cluster_to_use f) [
    | none ↦ none
    | some (entry, f') ↦
        let rest = cluster_loop rounds (word32 entry) f' in
        if ends_chain (word32 entry) then some (eio, f') else rest
  ]

  unfoldable pub fat16_get_cluster_for_offset : ℕ → ℕ → M ℤ
  unfolding cluster_loop
  fat16_get_cluster_for_offset starting_cluster offset f =
      if size_of_cluster_bytes f == 0
      then none
      else cluster_loop (offset / size_of_cluster_bytes f) starting_cluster f

  -- Seeks to a position of the cluster stream and reads there.
  unfoldable pub read_cluster_stream : ℕ → ℕ → M (ℤ × List ℕ)
  unfolding read_at
  read_cluster_stream p total f = elim (read_at dev f.cluster_read_stream p total) [
    | none ↦ none
    | some (res, stream, out) ↦ some ((res, out), record f { cluster_read_stream = stream })
  ]

  -- The code and the bytes that are written. Each call but the last reads at least one byte.
  unfoldable pub read_internal_fuel : ℕ → ℕ → ℕ → ℕ → M (ℤ × List ℕ)
  read_internal_fuel zero cluster offset total f = none
  read_internal_fuel (suc fuel) cluster offset total f =
      elim (fat16_get_cluster_for_offset cluster offset f) [
        | none ↦ none
        | some (negsuc e, f1) ↦ some ((negsuc e, []), f1)
        | some (pos cluster_to_use, f1) ↦
            let offset_from_cluster = offset % size_of_cluster_bytes f in
            let starting_sector = fat16_cluster_to_sector f1 cluster_to_use in
            let starting_pos = (starting_sector * sector_size + offset_from_cluster) % 2 ^ 32 in
            let total_to_read =
              if ltb (size_of_cluster_bytes f) total then size_of_cluster_bytes f else total in
            elim (read_cluster_stream starting_pos total_to_read f1) [
              | none ↦ none
              | some ((res, out), f2) ↦
                  let rest =
                    read_internal_fuel fuel cluster (offset + total_to_read) (total - total_to_read)
                      f2 in
                  if not (is_zero res)
                  then some ((res, out), f2)
                  else (if ltb 0 (total - total_to_read)
                      then elim rest [
                        | none ↦ none
                        | some ((res', out'), f3) ↦ some ((res', out ++ out'), f3)
                      ]
                      else some ((res, out), f2))
            ]
      ]

  unfoldable pub fat16_read_internal : ℕ → ℕ → ℕ → M (ℤ × List ℕ)
  unfolding read_internal_fuel
  fat16_read_internal starting_cluster offset total =
      read_internal_fuel (total + 1) starting_cluster offset total
