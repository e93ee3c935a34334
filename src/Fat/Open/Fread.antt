-- ===== src/Fat/Open/Fread.antt =====
-- `fopen` and `fread` on a file of the root directory: the path parser, the table of open files, the
-- search of the directory, the clusters and the reads of sectors together.
use custom_peach_os.Prelude.{
  ℕ, ◌+◌, ◌-◌, ◌*◌, ◌≤◌, ◌<◌, ◌^◌, ◌≡◌, refl, ap, ◌∙◌, none, some, List, [], ◌∷◌, ◌++◌, arith, set,
  get_or, length, get_or-set_self, Bool,
}
use native.Mathlib.Nat.{mul-pos}
use custom_peach_os.Prelude.Int.{pos}
use custom_peach_os.Status.{max_path, max_file_descriptors}
use custom_peach_os.CString.{Bytes, strlen}
use custom_peach_os.PathParser.{parse}
use custom_peach_os.PathParser.Parts.{AllParts}
use custom_peach_os.PathParser.RoundTrip.{path_of, Trails, parse-path_of}
use custom_peach_os.Streamer.{Device, slice, the_disk}
use custom_peach_os.Streamer.Read.{IsDrive}
use custom_peach_os.Files
use custom_peach_os.Files.{
  FileMode, opened, FileSystem, Descriptor, Files, free_slot, file_get_descriptor,
  disk_filesystem_of, finish_open, open_descriptor, open_mode, open_parts, fopen_res, fopen, fread,
  file_get_mode_by_string, file_new_descriptor,
}
use custom_peach_os.Files.Slots.{free_slot-some}
use custom_peach_os.Fat.Disk.{Fat}
use custom_peach_os.Fat.Clusters.{fat16_get_first_cluster, size_of_cluster_bytes}
use custom_peach_os.Fat.Clusters.Read.{cluster_start, after}
use custom_peach_os.Fat.Open.{FatFileDescriptor, Bound, on_disk, fat16_init, read_with}
use custom_peach_os.Fat.Open.Read.{fat16_read-slice}
use custom_peach_os.Fat.Open.Lookup.{
  HasFile, HasRoom, root_item, descriptor_of, fat16_open-descriptor_of,
}

module _ {W P : Type 0} where
  -- The tables once a file is open at an index.
  abbrev pub with_open : Files W P → FileSystem W P → ℕ → P → W → Files W P
  with_open f fs i private w = record f {
    descriptors =
        set f.descriptors i (some (record { index = i + 1; filesystem = fs; private = private }));
    world = w;
  }

  opened_at :
      (f : Files W P) (fs : FileSystem W P) (i : ℕ) (private : P) (w : W)
      → free_slot f.descriptors 0 ≡ some i
      → finish_open (record f { world = w }) fs (opened private)
        ≡ (pos (i + 1), with_open f fs i private w)
  unfolding finish_open file_new_descriptor
  opened_at f fs i private w free = ground arith

  fopen-with_open :
      (f : Files W P) (fs : FileSystem W P) (path mode_str p : Bytes) (ps : List Bytes) (i : ℕ)
      (private : P) (w : W)
      → parse path ≡ some (some (record { drive_no = pos 0; parts = p ∷ ps }))
      → f.disk_filesystem ≡ some fs
      → file_get_mode_by_string mode_str ≡ Files.read
      → fs.open_file f.world (p ∷ ps) Files.read ≡ (opened private, w)
      → free_slot f.descriptors 0 ≡ some i
      → fopen f path mode_str ≡ some (pos (i + 1), with_open f fs i private w)
  unfolding fopen fopen_res open_parts disk_filesystem_of open_mode open_descriptor
  fopen-with_open f fs path mode_str p ps i private w parsed bound mode opens free =
      ground (arith, opened_at f fs i private w free)

  pub fread-with_open :
      (f : Files W P) (fs : FileSystem W P) (i : ℕ) (private : P) (w : W) (size nmemb : ℕ)
      → i < length f.descriptors
      → i + 1 < max_file_descriptors
      → 0 < size
      → 0 < nmemb
      → fread (with_open f fs i private w) size nmemb (pos (i + 1)) ≡ (
        (fs.read_file w private size nmemb).0,
        (fs.read_file w private size nmemb).1,
        record (with_open f fs i private w) { world = (fs.read_file w private size nmemb).2 },
      )
  unfolding fread file_get_descriptor
  fread-with_open f fs i private w size nmemb lt small some_size some_nmemb = ground (
    arith,
    ap (λ j. get_or (with_open f fs i private w).descriptors j none) {x = i + 1 - 1} {y = i}
        (omega arith),
    get_or-set_self f.descriptors i
        (some (record { index = i + 1; filesystem = fs; private = private })) none lt,
  )

-- The index of an empty slot lies in the table.
pub free_inside :
    {P : Type 0} (f : Files Bound P) (i : ℕ)
    → free_slot f.descriptors 0 ≡ some i
    → i < length f.descriptors
free_inside f i free =
    let (k, at, first) = free_slot-some f.descriptors 0 free in omega (arith, first.inside)

module _ (dev : Device) (room : ℕ → Bool) (f : Files Bound FatFileDescriptor) (fat : Fat) where
  pub fopen-descriptor_of :
      (name e mode_str : Bytes) (k i : ℕ)
      → f.disk_filesystem ≡ some (fat16_init dev room)
      → f.world ≡ some fat
      → AllParts (name ∷ [])
      → Trails e
      → strlen (path_of 0 (name ∷ []) ++ e) ≤ max_path
      → file_get_mode_by_string mode_str ≡ Files.read
      → HasFile fat name k
      → HasRoom fat 3
      → free_slot f.descriptors 0 ≡ some i
      → fopen f (path_of 0 (name ∷ []) ++ e) mode_str
        ≡ some (
          pos (i + 1),
          with_open f
              (fat16_init dev room)
              i
              (descriptor_of fat k)
              (some (record fat { calls = fat.calls + 1 + 1 + 1 })),
        )
  unfolding fat16_init on_disk
  fopen-descriptor_of name e mode_str k i bound state ok t fits mode has memory free =
      fopen-with_open f (fat16_init dev room) (path_of 0 (name ∷ []) ++ e) mode_str name [] i
        (descriptor_of fat k) (some (record fat { calls = fat.calls + 1 + 1 + 1 }))
        (parse-path_of 0 name [] e (omega arith) ok t fits) bound mode
        (ap (λ w. (fat16_init dev room).open_file w (name ∷ []) Files.read) state ∙ answer) free
    where
      answer :
          (fat16_init dev room).open_file (some fat) (name ∷ []) Files.read
          ≡ (opened (descriptor_of fat k), some (record fat { calls = fat.calls + 1 + 1 + 1 }))
      answer = ground (arith, fat16_open-descriptor_of dev fat name k has memory)

  pub read_file-slice :
      (k size nmemb : ℕ)
      → IsDrive dev
      → fat.cluster_read_stream.disk ≡ the_disk
      → 2 ≤ fat16_get_first_cluster (root_item fat k)
      → fat16_get_first_cluster (root_item fat k) < 2 ^ 31
      → 0 < size_of_cluster_bytes fat
      → nmemb * size ≤ size_of_cluster_bytes fat
      → cluster_start fat (fat16_get_first_cluster (root_item fat k)) + nmemb * size < 2 ^ 31
      → (q : ℕ) × ((fat16_init dev room).read_file (some fat) (descriptor_of fat k) size nmemb ≡ (
        pos nmemb,
        slice dev (cluster_start fat (fat16_get_first_cluster (root_item fat k))) (nmemb * size),
        some (after fat q),
      ))
  unfolding fat16_init read_with on_disk
  read_file-slice k size nmemb d e lo small some_cluster fits low =
      let (q, done) =
        fat16_read-slice dev (root_item fat k) d size nmemb fat (descriptor_of fat k) refl e lo
          small some_cluster (omega arith) (omega arith) in
      (
        q,
        ground (
          arith,
          done,
          ap (λ p. slice dev p (nmemb * size))
              {x = cluster_start fat (fat16_get_first_cluster (root_item fat k)) + 0}
              {y = cluster_start fat (fat16_get_first_cluster (root_item fat k))} (omega arith),
        ),
      )

-- Let the FAT16 filesystem be bound to disk 0, a drive that holds bytes, let `name` be the name of
-- just one item that is looked at in its root directory, that of a file, and the first cluster of
-- that item a data cluster; let there be memory and a free slot in the table of open files, not the
-- last one. Then `fopen` for reading of the path of that name, of at most 108 bytes, terminates and
-- opens the file at that slot, and an `fread` of it, of some records that fit into one cluster and
-- lie below position 2^31, returns their number and the bytes that the disk holds at the start of
-- that cluster.
pub fopen-fread :
    (dev : Device) (room : ℕ → Bool) (f : Files Bound FatFileDescriptor) (fat : Fat)
    (name e mode_str : Bytes) (k i size nmemb : ℕ)
    → IsDrive dev
    → f.disk_filesystem ≡ some (fat16_init dev room)
    → f.world ≡ some fat
    → AllParts (name ∷ [])
    → Trails e
    → strlen (path_of 0 (name ∷ []) ++ e) ≤ max_path
    → file_get_mode_by_string mode_str ≡ Files.read
    → HasFile fat name k
    → HasRoom fat 3
    → free_slot f.descriptors 0 ≡ some i
    → i + 1 < max_file_descriptors
    → fat.cluster_read_stream.disk ≡ the_disk
    → 2 ≤ fat16_get_first_cluster (root_item fat k)
    → fat16_get_first_cluster (root_item fat k) < 2 ^ 31
    → 0 < size
    → 0 < nmemb
    → nmemb * size ≤ size_of_cluster_bytes fat
    → cluster_start fat (fat16_get_first_cluster (root_item fat k)) + nmemb * size < 2 ^ 31
    → (f1 f2 : Files Bound FatFileDescriptor) × (fopen f (path_of 0 (name ∷ []) ++ e) mode_str
        ≡ some (pos (i + 1), f1))
      × (fread f1 size nmemb (pos (i + 1)) ≡ (
        pos nmemb,
        slice dev (cluster_start fat (fat16_get_first_cluster (root_item fat k))) (nmemb * size),
        f2,
      ))
fopen-fread dev room f fat name e mode_str k i size nmemb d bound state ok t fits mode has memory
      free not_last disk lo small some_size some_nmemb inside low =
    let fat' : Fat = record fat { calls = fat.calls + 1 + 1 + 1 } in
    let fs : FileSystem Bound FatFileDescriptor = fat16_init dev room in
    let desc : FatFileDescriptor = descriptor_of fat k in
    let f1 : Files Bound FatFileDescriptor = with_open f fs i desc (some fat') in
    let some_bytes : 0 < nmemb * size = mul-pos some_nmemb some_size in
    let (q, reads) =
      read_file-slice dev room f fat' k size nmemb d disk lo small (omega arith) inside low in
    (
      f1,
      record f1 { world = some (after fat' q) },
      fopen-descriptor_of dev room f fat name e mode_str k i bound state ok t fits mode has memory
          free,
      fread-with_open f fs i desc (some fat') size nmemb (free_inside f i free) not_last some_size
            some_nmemb
          ∙ ap (λ r. (r.0, r.1, record f1 { world = r.2 })) reads,
    )
