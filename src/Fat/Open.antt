-- ===== src/Fat/Open.antt =====
-- The functions that the filesystem offers to file.c, and the table of them.
pub mod Read
pub mod Seek
pub mod Nested
pub mod Lookup
pub mod Fread
use custom_peach_os.Prelude.{
  ℕ, zero, suc, ◌+◌, ◌%◌, ◌^◌, Bool, not, Option, none, some, List, [], ◌∷◌, ◌++◌, leb, ◌==◌,
  if◌then◌else◌, bit_and,
}
use custom_peach_os.Prelude.Int.{ℤ, pos, negsuc, is_neg}
use custom_peach_os.Status.{all_ok, eio, einvarg, eunimp}
use custom_peach_os.CString.{Bytes}
use custom_peach_os.Streamer.{Device}
use custom_peach_os.Files
use custom_peach_os.Files.{FileMode, Opened, failed, opened, Stat, FileSystem}
use custom_peach_os.Fat.Disk.{Fat, M, ◌>>=◌, pure, fault, kzalloc, word32_at, fat16_resolve}
use custom_peach_os.Fat.Clusters.{fat16_get_first_cluster, fat16_read_internal}
use custom_peach_os.Fat.Directory.{
  ItemType, directory, file, Held, item_of, directory_of, FatItem, attribute,
  fat16_get_directory_entry,
}

pub record FatFileDescriptor : Type 0 where
  pub item : FatItem
  pub position : ℕ

abbrev pub filesize : List ℕ → ℕ
filesize item = word32_at item 28

module _ (dev : Device) where
  unfoldable pub open_item : List Bytes → M (Opened FatFileDescriptor)
  open_item path = do
    room ← kzalloc
    if not room then pure (failed 2) else (do
      item ← fat16_get_directory_entry dev path
      elim item [
        | none ↦ pure (failed 0)
        | some found ↦ pure (opened (record { item = found; position = 0 }))
      ])

  -- The errors are -ERDONLY, -ENOMEM and -EIO.
  unfoldable pub fat16_open : List Bytes → FileMode → M (Opened FatFileDescriptor)
  unfolding open_item
  fat16_open path Files.read = open_item path
  fat16_open path mode = pure (failed 5)

  -- The loop over `nmemb` records from `offset` on. The position of the descriptor is not changed.
  unfoldable pub read_loop : ℕ → List ℕ → ℕ → ℕ → M (ℤ × List ℕ)
  read_loop zero item offset size f = some ((all_ok, []), f)
  read_loop (suc nmemb) item offset size f =
      elim (fat16_read_internal dev (fat16_get_first_cluster item) offset size f) [
        | none ↦ none
        | some ((res, out), f') ↦
            let rest = read_loop nmemb item ((offset + size) % 2 ^ 32) size f' in
            if is_neg res then some ((res, out), f') else elim rest [
              | none ↦ none
              | some ((res', out'), f'') ↦ some ((res', out ++ out'), f'')
            ]
      ]

  -- The number of records that were read, or an error, and the bytes that were written.
  unfoldable pub fat16_read : FatFileDescriptor → ℕ → ℕ → M (ℤ × List ℕ)
  unfolding read_loop
  fat16_read fat_desc size nmemb f = elim fat_desc.item.held [
    | directory_of d ↦ none
    | item_of none ↦ none
    | item_of (some item) ↦ elim (read_loop nmemb item fat_desc.position size f) [
      | none ↦ none
      | some ((res, out), f') ↦ some ((if is_neg res then res else pos nmemb, out), f')
    ]
  ]

-- `none` is a read through a null pointer. The flags are left as they were where the item is no file.
unfoldable pub fat16_stat : FatFileDescriptor → Stat → Option (ℤ × Stat)
fat16_stat descriptor stat = elim descriptor.item.type [
  | directory ↦ some (einvarg, stat)
  | file ↦ elim descriptor.item.held [
    | directory_of d ↦ none
    | item_of none ↦ none
    | item_of (some ritem) ↦ some (
      all_ok,
      record {
        filesize = filesize ritem;
        flags = if bit_and (attribute ritem) 0x01 == 0 then 0x0 else 0x01;
      },
    )
  ]
]

-- The switch on the mode, for an offset that is accepted.
unfoldable pub seek_mode_switch : FatFileDescriptor → ℕ → ℕ → ℤ × FatFileDescriptor
seek_mode_switch desc offset seek_mode =
    if seek_mode == 0
    then (all_ok, record desc { position = offset })
    else (if seek_mode == 2
        then (eunimp, desc)
        else (if seek_mode == 1
            then (all_ok, record desc { position = (desc.position + offset) % 2 ^ 32 })
            else (einvarg, desc)))

unfoldable pub fat16_seek : FatFileDescriptor → ℕ → ℕ → Option (ℤ × FatFileDescriptor)
unfolding seek_mode_switch
fat16_seek desc offset seek_mode = elim desc.item.type [
  | directory ↦ some (einvarg, desc)
  | file ↦ elim desc.item.held [
    | directory_of d ↦ none
    | item_of none ↦ none
    | item_of (some ritem) ↦
        if leb (filesize ritem) offset
        then some (eio, desc)
        else some (seek_mode_switch desc offset seek_mode)
  ]
]

unfoldable pub fat16_close : M ℤ
fat16_close = pure all_ok

-- The table of the functions, for file.c. The state of the disk is `none` where its `fs_private` is
-- null, and after a fault of one of the functions. A function that goes through that pointer does not
-- answer then, in the code: the model's -EIO stands for the fault, and the state stays `none`, so that
-- where the state is there, nothing has faulted. `fat16_close` does not look at the disk.
abbrev pub Bound : Type 0
Bound = Option Fat

unfoldable pub on_disk : {A : Type 0} → A → M A → Bound → A × Bound
on_disk a m none = (a, none)
on_disk a m (some f) = elim (m f) [ none ↦ (a, none) | some (b, f') ↦ (b, some f') ]

module _ (dev : Device) (room : ℕ → Bool) where
  resolve_with : Bound → ℤ × Bound
  resolve_with w = elim (fat16_resolve dev room 0) [ none ↦ (eio, none) | some r ↦ r ]

  unfoldable pub read_with : Bound → FatFileDescriptor → ℕ → ℕ → ℤ × List ℕ × Bound
  unfolding on_disk
  read_with w desc size nmemb =
      let ((res, out), w') = on_disk (eio, []) (fat16_read dev desc size nmemb) w in (res, out, w')

  seek_with : FatFileDescriptor → ℕ → ℕ → ℤ × FatFileDescriptor
  seek_with desc offset whence = elim (fat16_seek desc offset whence) [
    | none ↦ (eio, desc)
    | some r ↦ r
  ]

  stat_with : Bound → FatFileDescriptor → ℤ × Stat
  stat_with w desc =
      let blank : Stat = record { flags = 0; filesize = 0 } in
      elim (fat16_stat desc blank) [ none ↦ (eio, blank) | some r ↦ r ]

  unfoldable pub fat16_init : FileSystem Bound FatFileDescriptor
  unfolding on_disk resolve_with read_with seek_with stat_with
  fat16_init = record {
    resolve = resolve_with;
    open_file = λ w path mode. on_disk (failed 0) (fat16_open dev path mode) w;
    read_file = read_with;
    seek_file = seek_with;
    stat_file = stat_with;
    close_file = λ w desc. on_disk all_ok fat16_close w;
  }
