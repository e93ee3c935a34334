-- ===== src/Files.antt =====
-- src/fs/file.c: the table of filesystems and the table of open files. A filesystem is the record of
-- its function pointers, as src/fs/file.h declares them, over the state `W` of the disks and the
-- private data `P` of an open file. Memory for a descriptor is taken to be there, as in the code.
pub mod Slots
pub mod Open
pub mod Close
mod Tests
use custom_peach_os.Prelude.{
  ℕ, zero, suc, ◌+◌, ◌-◌, Bool, true, false, not, ◌||◌, Option, none, some, List, [], ◌∷◌, ltb, leb,
  ◌==◌, if◌then◌else◌, get_or, set, replicate,
}
use custom_peach_os.Prelude.Int.{ℤ, pos, negsuc, is_neg, is_zero, word32}
use custom_peach_os.Status.{all_ok, einvarg, eio, enomem, max_file_descriptors, max_filesystems}
use custom_peach_os.CString.{Bytes, strncmp}
use custom_peach_os.PathParser.{PathRoot, parse}

pub data FileMode : Type 0 where
  read write append invalid : FileMode

-- What `open` returns: a pointer to private data, or an error in a pointer, `failed e` for -(e + 1).
pub data Opened (P : Type 0) : Type 0 where
  failed : ℕ → Opened P
  opened : P → Opened P

pub record Stat : Type 0 where
  pub flags : ℕ
  pub filesize : ℕ

pub record FileSystem (W P : Type 0) : Type 0 where
  pub resolve : W → ℤ × W
  pub open_file : W → List Bytes → FileMode → Opened P × W
  pub read_file : W → P → ℕ → ℕ → ℤ × List ℕ × W
  pub seek_file : P → ℕ → ℕ → ℤ × P
  pub stat_file : W → P → ℤ × Stat
  pub close_file : W → P → ℤ × W

pub record Descriptor (W P : Type 0) : Type 0 where
  pub index : ℕ
  pub filesystem : FileSystem W P
  pub private : P

-- The two tables, the filesystem of the one disk, and the state of the disks.
pub record Files (W P : Type 0) : Type 0 where
  pub filesystems : List (Option (FileSystem W P))
  pub descriptors : List (Option (Descriptor W P))
  pub disk_filesystem : Option (FileSystem W P)
  pub world : W

-- The first empty slot of a table, where index `i` is the first looked at.
unfoldable pub free_slot {ℓ} : {A : Type ℓ} → List (Option A) → ℕ → Option ℕ
free_slot [] i = none
free_slot (none ∷ slots) i = some i
free_slot (some a ∷ slots) i = free_slot slots (i + 1)

unfoldable pub file_get_mode_by_string : Bytes → FileMode
file_get_mode_by_string str =
    if is_zero (strncmp str (b'r' ∷ []) 1)
    then read
    else (if is_zero (strncmp str (b'w' ∷ []) 1)
        then write
        else (if is_zero (strncmp str (b'a' ∷ []) 1) then append else invalid))

module _ {W P : Type 0} where
  -- `none` is the endless loop that follows the message.
  unfoldable pub fs_insert_filesystem : Files W P → FileSystem W P → Option (Files W P)
  fs_insert_filesystem f fs = elim (free_slot f.filesystems 0) [
    | none ↦ none
    | some i ↦ some (record f { filesystems = set f.filesystems i (some fs) })
  ]

  -- `fs_init`, where `fat16` is the filesystem that `fat16_init` returns.
  unfoldable pub fs_init : Files W P → FileSystem W P → Option (Files W P)
  unfolding fs_insert_filesystem
  fs_init f fat16 =
      fs_insert_filesystem
        (record f {
          descriptors = replicate max_file_descriptors none;
          filesystems = replicate max_filesystems none;
        })
        fat16

  -- The first filesystem whose `resolve` answers 0, with what the calls do to the disks.
  unfoldable pub resolve_loop : List (Option (FileSystem W P)) → W → Option (FileSystem W P) × W
  resolve_loop [] w = (none, w)
  resolve_loop (none ∷ slots) w = resolve_loop slots w
  resolve_loop (some fs ∷ slots) w =
      let (res, w') = fs.resolve w in
      let rest = resolve_loop slots w' in
      elim res [ pos n ↦ if n == 0 then (some fs, w') else rest | negsuc n ↦ rest ]

  unfoldable pub fs_resolve : Files W P → Option (FileSystem W P) × W
  unfolding resolve_loop
  fs_resolve f = resolve_loop f.filesystems f.world

  -- The one disk is cleared, and searched for a filesystem (src/disk/disk.c); `blank` is the state of
  -- the disk whose bytes are 0.
  unfoldable pub disk_search_and_init : (blank : W) → Files W P → Files W P
  unfolding fs_resolve
  disk_search_and_init blank f =
      let (filesystem, world) = fs_resolve (record f { disk_filesystem = none; world = blank }) in
      record f { disk_filesystem = filesystem; world = world }

  unfoldable pub file_free_descriptor : Files W P → Descriptor W P → Files W P
  file_free_descriptor f desc = record f { descriptors = set f.descriptors (desc.index - 1) none }

  -- The index of the new descriptor, which `fopen` fills in.
  unfoldable pub file_new_descriptor :
      Files W P → FileSystem W P → P → Option (Descriptor W P × Files W P)
  file_new_descriptor f fs private = elim (free_slot f.descriptors 0) [
    | none ↦ none
    | some i ↦
        let desc : Descriptor W P = record { index = i + 1; filesystem = fs; private = private } in
        some (desc, record f { descriptors = set f.descriptors i (some desc) })
  ]

  unfoldable pub file_get_descriptor : Files W P → ℤ → Option (Descriptor W P)
  file_get_descriptor f (negsuc n) = none
  file_get_descriptor f (pos fd) =
      if fd == 0 || leb max_file_descriptors fd then none else get_or f.descriptors (fd - 1) none

  -- `disk_get`, and the test for the disk's filesystem.
  unfoldable pub disk_filesystem_of : Files W P → ℤ → Option (FileSystem W P)
  disk_filesystem_of f (negsuc n) = none
  disk_filesystem_of f (pos n) = if n == 0 then f.disk_filesystem else none

  -- The part of `fopen` behind the call of the filesystem.
  unfoldable pub finish_open : Files W P → FileSystem W P → Opened P → ℤ × Files W P
  finish_open f fs (failed e) = (negsuc e, f)
  finish_open f fs (opened private) = elim (file_new_descriptor f fs private) [
    | none ↦ (enomem, f)
    | some (desc, f') ↦ (pos desc.index, f')
  ]

  -- The part of `fopen` behind the test of the mode.
  unfoldable pub open_descriptor :
      Files W P → FileSystem W P → List Bytes → FileMode → ℤ × Files W P
  open_descriptor f fs parts mode =
      let (answer, w) = fs.open_file f.world parts mode in
      finish_open (record f { world = w }) fs answer

  -- From the test of the mode on.
  unfoldable pub open_mode : Files W P → FileSystem W P → List Bytes → FileMode → ℤ × Files W P
  open_mode f fs parts invalid = (einvarg, f)
  open_mode f fs parts mode = open_descriptor f fs parts mode

  -- From the test for a first part on.
  unfoldable pub open_parts : Files W P → ℤ → List Bytes → Bytes → ℤ × Files W P
  open_parts f drive_no [] mode_str = (einvarg, f)
  open_parts f drive_no (first ∷ others) mode_str = elim (disk_filesystem_of f drive_no) [
    | none ↦ (eio, f)
    | some fs ↦ open_mode f fs (first ∷ others) (file_get_mode_by_string mode_str)
  ]

  -- The code before `out:`; `none` is a fault of the path parser.
  unfoldable pub fopen_res : Files W P → Bytes → Bytes → Option (ℤ × Files W P)
  fopen_res f filename mode_str = elim (parse filename) [
    | none ↦ none
    | some none ↦ some (einvarg, f)
    | some (some root) ↦ some (open_parts f root.drive_no root.parts mode_str)
  ]

  -- A negative result becomes 0.
  unfoldable pub fopen : Files W P → Bytes → Bytes → Option (ℤ × Files W P)
  fopen f filename mode_str = elim (fopen_res f filename mode_str) [
    | none ↦ none
    | some (res, f') ↦ some (if is_neg res then pos 0 else res, f')
  ]

  unfoldable pub fstat : Files W P → ℤ → ℤ × Option Stat
  fstat f fd = elim (file_get_descriptor f fd) [
    | none ↦ (eio, none)
    | some desc ↦
        let (res, stat) = desc.filesystem.stat_file f.world desc.private in (res, some stat)
  ]

  unfoldable pub fclose : Files W P → ℤ → ℤ × Files W P
  unfolding file_free_descriptor
  fclose f fd = elim (file_get_descriptor f fd) [
    | none ↦ (eio, f)
    | some desc ↦
        let (res, w) = desc.filesystem.close_file f.world desc.private in
        let f' = record f { world = w } in
        elim res [
          | pos n ↦ if n == 0 then (pos n, file_free_descriptor f' desc) else (pos n, f')
          | negsuc n ↦ (negsuc n, f')
        ]
  ]

  -- The private data that `seek` changes is the descriptor's. The offset is passed as a `uint32_t`.
  unfoldable pub fseek : Files W P → ℤ → ℤ → ℕ → ℤ × Files W P
  fseek f fd offset whence = elim (file_get_descriptor f fd) [
    | none ↦ (eio, f)
    | some desc ↦
        let (res, private) = desc.filesystem.seek_file desc.private (word32 offset) whence in
        (
          res,
          record f {
            descriptors =
                set f.descriptors (desc.index - 1) (some (record desc { private = private }));
          },
        )
  ]

  -- The result, the bytes written to `ptr`, and the tables.
  unfoldable pub fread : Files W P → ℕ → ℕ → ℤ → ℤ × List ℕ × Files W P
  fread f size nmemb (negsuc n) = (einvarg, [], f)
  fread f size nmemb (pos fd) =
      if size == 0 || nmemb == 0 || ltb fd 1
      then (einvarg, [], f)
      else elim (file_get_descriptor f (pos fd)) [
        | none ↦ (einvarg, [], f)
        | some desc ↦
            let (res, out, w) = desc.filesystem.read_file f.world desc.private size nmemb in
            (res, out, record f { world = w })
      ]
