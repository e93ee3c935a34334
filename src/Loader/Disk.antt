-- ===== src/Loader/Disk.antt =====
-- `elf_load` of a file in the root directory of a FAT16 disk: Files, Fat and Streamer under the loader.
use custom_peach_os.Prelude.{
  ℕ, ◌+◌, ◌-◌, ◌*◌, ◌≤◌, ◌<◌, ◌^◌, ◌≡◌, refl, sym, ap, ◌∙◌, Bool, false, none, some, [], ◌∷◌, ◌++◌,
  arith, set, get_or, length, get_or-set_self, set-set, set_same, bit_and, ◌==◌, if◌then◌else◌,
}
use custom_peach_os.Prelude.Int.{ℤ, pos}
use custom_peach_os.Status.{all_ok, max_path, max_file_descriptors}
use custom_peach_os.CString.{Bytes, strlen, strncmp}
use custom_peach_os.PathParser.Parts.{AllParts}
use custom_peach_os.PathParser.RoundTrip.{path_of, Trails}
use custom_peach_os.Streamer.{Device, slice, the_disk}
use custom_peach_os.Streamer.Read.{IsDrive}
use custom_peach_os.Files
use custom_peach_os.Files.{
  FileSystem, Files, Stat, free_slot, file_get_descriptor, file_free_descriptor, fopen, fstat,
  fread, fclose, file_get_mode_by_string,
}
use custom_peach_os.Files.Slots.{free_slot-some}
use custom_peach_os.Fat.Disk.{Fat}
use custom_peach_os.Fat.Clusters.{fat16_get_first_cluster, size_of_cluster_bytes}
use custom_peach_os.Fat.Clusters.Read.{cluster_start, after}
use custom_peach_os.Fat.Directory.{attribute}
use custom_peach_os.Fat.Open.{
  FatFileDescriptor, Bound, on_disk, filesize, fat16_stat, fat16_close, fat16_init,
}
use custom_peach_os.Fat.Open.Lookup.{HasFile, HasRoom, root_item, descriptor_of}
use custom_peach_os.Fat.Open.Fread.{
  with_open, fread-with_open, fopen-descriptor_of, read_file-slice, free_inside,
}
use custom_peach_os.Loader.{
  Contents, read_mode, is_einformat, elf_from, elf_load_open, elf_load, process_load_data,
}

module _ {W P : Type 0} (f : Files W P) (fs : FileSystem W P) (i : ℕ) (private : P) (w : W)
    (inside : i < length f.descriptors) (not_last : i + 1 < max_file_descriptors) where
  there :
      file_get_descriptor (with_open f fs i private w) (pos (i + 1))
      ≡ some (record { index = i + 1; filesystem = fs; private = private })
  unfolding file_get_descriptor
  there = ground (
    arith,
    ap (λ j. get_or (with_open f fs i private w).descriptors j none) {x = i + 1 - 1} {y = i}
        (omega arith),
    get_or-set_self f.descriptors i
        (some (record { index = i + 1; filesystem = fs; private = private })) none inside,
  )

  fstat-with_open :
      fstat (with_open f fs i private w) (pos (i + 1))
      ≡ ((fs.stat_file w private).0, some (fs.stat_file w private).1)
  unfolding fstat
  fstat-with_open = rw (there, fstat) refl

  fclose-with_open :
      (w' : W)
      → fs.close_file w private ≡ (all_ok, w')
      → fclose (with_open f fs i private w) (pos (i + 1))
        ≡ (all_ok, record f { descriptors = set f.descriptors i none; world = w' })
  unfolding fclose file_free_descriptor
  fclose-with_open w' closes =
      rw (there, fclose)
        (rw (closes, fclose)
          (rw (closes, fclose)
            (ap (λ t. (all_ok, record f { descriptors = t; world = w' }))
              (ap (λ j. set (with_open f fs i private w).descriptors j none) {x = i + 1 - 1} {y = i}
                  (omega arith)
                ∙ set-set f.descriptors i
                    (some (record { index = i + 1; filesystem = fs; private = private })) none))))

-- What the filesystem says of the size of the file, in the descriptor of an item.
stat_file-filesize :
    (dev : Device) (room : ℕ → Bool) (w : Bound) (fat : Fat) (k : ℕ)
    → (flags : ℕ) × ((fat16_init dev room).stat_file w (descriptor_of fat k)
        ≡ (all_ok, record { flags = flags; filesize = filesize (root_item fat k) }))
unfolding fat16_init fat16_stat
stat_file-filesize dev room w fat k =
    (if bit_and (attribute (root_item fat k)) 0x01 == 0 then 0x0 else 0x01, refl)

close_file-ok :
    (dev : Device) (room : ℕ → Bool) (fat : Fat) (desc : FatFileDescriptor)
    → (fat16_init dev room).close_file (some fat) desc ≡ (all_ok, some fat)
unfolding fat16_init on_disk fat16_close
close_file-ok dev room fat desc = refl

is_read : file_get_mode_by_string read_mode ≡ Files.read
unfolding file_get_mode_by_string strncmp
is_read = refl

module _ {W P : Type 0} (alloc : ℕ → ℕ) (behind : Contents) where
  elf_load_open_of :
      (f1 f2 : Files W P) (out : Bytes) (n : ℕ) (stat : Stat)
      → fstat f1 (pos n) ≡ (all_ok, some stat)
      → fread f1 stat.filesize 1 (pos n) ≡ (pos 1, out, f2)
      → elf_load_open alloc behind f1 (pos n) ≡ (elf_from alloc behind out, f2)
  unfolding elf_load_open
  elf_load_open_of f1 f2 out n stat stats reads = ground arith

  -- `elf_load` in terms of the calls that it makes.
  elf_load_of :
      (f f1 f2 f3 : Files W P) (path out : Bytes) (n : ℕ) (stat : Stat)
      → fopen f path read_mode ≡ some (pos n, f1)
      → fstat f1 (pos n) ≡ (all_ok, some stat)
      → fread f1 stat.filesize 1 (pos n) ≡ (pos 1, out, f2)
      → fclose f2 (pos n) ≡ (all_ok, f3)
      → elf_load alloc behind f path ≡ some (elf_from alloc behind out, f3)
  unfolding elf_load
  elf_load_of f f1 f2 f3 path out n stat opens stats reads closes =
      ground (arith, elf_load_open_of f1 f2 out n stat stats reads)

-- A program that fits into one cluster of a FAT16 disk, under a path of one part, and what there is
-- room for: the conditions of `fopen` and `fread` on it.
pub record IsStored (dev : Device) (room : ℕ → Bool) (f : Files Bound FatFileDescriptor) (fat : Fat)
    (name e : Bytes) (k i : ℕ) : Type 0 where
  pub drive : IsDrive dev
  pub bound : f.disk_filesystem ≡ some (fat16_init dev room)
  pub state : f.world ≡ some fat
  pub part : AllParts (name ∷ [])
  pub trails : Trails e
  pub path_fits : strlen (path_of 0 (name ∷ []) ++ e) ≤ max_path
  pub has : HasFile fat name k
  pub memory : HasRoom fat 3
  pub free : free_slot f.descriptors 0 ≡ some i
  pub not_last : i + 1 < max_file_descriptors
  pub disk : fat.cluster_read_stream.disk ≡ the_disk
  pub data_cluster : 2 ≤ fat16_get_first_cluster (root_item fat k)
  pub cluster_small : fat16_get_first_cluster (root_item fat k) < 2 ^ 31
  pub some_byte : 0 < filesize (root_item fat k)
  pub inside : filesize (root_item fat k) ≤ size_of_cluster_bytes fat
  pub low :
      cluster_start fat (fat16_get_first_cluster (root_item fat k)) + filesize (root_item fat k)
      < 2 ^ 31

-- The bytes of the file on the disk.
abbrev pub file_bytes : Device → Fat → ℕ → Bytes
file_bytes dev fat k =
    slice dev (cluster_start fat (fat16_get_first_cluster (root_item fat k)))
      (filesize (root_item fat k))

module _ (alloc : ℕ → ℕ) (behind : Contents) (dev : Device) (room : ℕ → Bool)
    (f : Files Bound FatFileDescriptor) (fat : Fat) (name e : Bytes) (k i : ℕ)
    (stored : IsStored dev room f fat name e k i) where
  -- `elf_load` decides by the bytes of the file on the disk, and closes the file.
  elf_load-file_bytes :
      (f' : Files Bound FatFileDescriptor) × (elf_load alloc behind f (path_of 0 (name ∷ []) ++ e)
        ≡ some (elf_from alloc behind (file_bytes dev fat k), f'))
      × (f'.descriptors ≡ f.descriptors)
  elf_load-file_bytes =
      let fs : FileSystem Bound FatFileDescriptor = fat16_init dev room in
      let desc : FatFileDescriptor = descriptor_of fat k in
      let fat' : Fat = record fat { calls = fat.calls + 1 + 1 + 1 } in
      let size : ℕ = filesize (root_item fat k) in
      let in_table = free_inside f i stored.free in
      let (flags, stats) = stat_file-filesize dev room (some fat') fat k in
      let stat : Stat = record { flags = flags; filesize = size } in
      let (q, reads) =
        read_file-slice dev room f fat' k size 1 stored.drive stored.disk stored.data_cluster
          stored.cluster_small (omega (arith, stored.some_byte, stored.inside))
          (omega (arith, stored.inside)) (omega (arith, stored.low)) in
      let (n, found, first) = free_slot-some f.descriptors 0 stored.free in
      let at : n ≡ i = omega arith in
      let empty : get_or f.descriptors i none ≡ none =
        ap (λ j. get_or f.descriptors j none) (sym at) ∙ first.empty in
      (
        record f { descriptors = set f.descriptors i none; world = some (after fat' q) },
        elf_load_of alloc behind f (with_open f fs i desc (some fat'))
            (with_open f fs i desc (some (after fat' q)))
            (record f { descriptors = set f.descriptors i none; world = some (after fat' q) })
            (path_of 0 (name ∷ []) ++ e) (file_bytes dev fat k) (i + 1) stat
            (fopen-descriptor_of dev room f fat name e read_mode k i stored.bound stored.state
              stored.part stored.trails stored.path_fits is_read stored.has stored.memory
              stored.free)
            (fstat-with_open f fs i desc (some fat') in_table stored.not_last
              ∙ ap (λ (r : ℤ × Stat). (r.0, some r.1)) stats)
            (fread-with_open f fs i desc (some fat') size 1 in_table stored.not_last
                stored.some_byte (omega arith)
              ∙ ap (λ r. (r.0, r.1, with_open f fs i desc r.2)) reads
              ∙ ap
                  (λ (m : ℕ). (
                    pos 1,
                    slice dev (cluster_start fat (fat16_get_first_cluster (root_item fat k))) m,
                    with_open f fs i desc (some (after fat' q)),
                  ))
                  {x = 1 * size} {y = size} (omega arith))
            (fclose-with_open f fs i desc (some (after fat' q)) in_table stored.not_last
              (some (after fat' q)) (close_file-ok dev room (after fat' q) desc)),
        set_same f.descriptors i none none in_table empty,
      )

  -- A program that is not refused as no ELF file is what its bytes on the disk make, and its
  -- descriptor is given back.
  pub process_load_data-file_bytes :
      is_einformat (elf_from alloc behind (file_bytes dev fat k)).0 ≡ false
      → (f' : Files Bound FatFileDescriptor) × (process_load_data alloc behind f
            (path_of 0 (name ∷ []) ++ e)
          ≡ some (elf_from alloc behind (file_bytes dev fat k), f'))
        × (f'.descriptors ≡ f.descriptors)
  unfolding process_load_data
  process_load_data-file_bytes elf =
      let (f', loads, same) = elf_load-file_bytes in
      (f', rw (loads, process_load_data) (rw elf refl), same)
