-- ===== src/Files/Open.antt =====
-- What `fopen` returns, and what it does to the table of open files.
use custom_peach_os.Prelude.{
  ℕ, ◌+◌, ◌<◌, ◌≡◌, refl, sym, ap, ◌∙◌, Option, none, some, List, [], ◌∷◌, arith, ◌==◌, ==_iff,
  Bool-cases, Option-cases, inl, inr, true, if◌then◌else◌, length, get_or, set, length-set,
  get_or-set_self, get_or-set_ne,
}
use mathlib.Core.Path.{subst}
use custom_peach_os.Prelude.Int.{ℤ, pos, is_neg}
use custom_peach_os.Status.{max_file_descriptors}
use custom_peach_os.CString.{Bytes}
use custom_peach_os.PathParser.Parts.{parse_total}
use custom_peach_os.Files.{
  FileMode, invalid, Opened, failed, opened, FileSystem, Descriptor, Files, free_slot,
  file_new_descriptor, file_get_mode_by_string, disk_filesystem_of, finish_open, open_descriptor,
  open_mode, open_parts, fopen_res, fopen,
}
use custom_peach_os.Files.Slots.{FirstFree, free_slot-some}

abbrev pub Table : Type 0 → Type 0 → Type 0
Table W P = List (Option (Descriptor W P))

module _ {W P : Type 0} where
  own-set :
      (table : Table W P) (k : ℕ) (d : Descriptor W P)
      → ((j : ℕ) (e : Descriptor W P) → get_or table j none ≡ some e → e.index ≡ j + 1)
      → d.index ≡ k + 1
      → k < length table
      → (j : ℕ) (e : Descriptor W P) → get_or (set table k (some d)) j none ≡ some e
      → e.index ≡ j + 1
  own-set table k d own own_d inside j e h = elim (Bool-cases (j == k)) [
    | inl same ↦
        let kj : j ≡ k = (==_iff j k).0 same in
        let de : d ≡ e = cc (
          get_or-set_self table k (some d) none inside,
          ap (λ i. get_or (set table k (some d)) i none) kj,
          h,
        ) in
        ap (λ (x : Descriptor W P). x.index) (sym de) ∙ own_d ∙ omega arith
    | inr other ↦ own j e (sym (get_or-set_ne table k j (some d) none (ground arith)) ∙ h)
  ]

  -- There are `max_file_descriptors` slots, and a descriptor knows its own.
  pub record IsValid (f : Files W P) : Type 0 where
    pub size : length f.descriptors ≡ max_file_descriptors
    pub own : (k : ℕ) (d : Descriptor W P) → get_or f.descriptors k none ≡ some d → d.index ≡ k + 1

  -- The code before `out:` fails with a negative result and leaves the table as it was; or it
  -- returns the number of the first empty slot, counted from 1, and fills that slot alone.
  data Result (table : Table W P) (res : ℤ) (table' : Table W P) : Type 0 where
    refused : is_neg res ≡ true → table' ≡ table → Result table res table'
    filled :
        (k : ℕ) (d : Descriptor W P)
        → res ≡ pos (k + 1)
        → FirstFree table k
        → d.index ≡ k + 1
        → table' ≡ set table k (some d)
        → Result table res table'

  finish_open-Result :
      (f : Files W P) (fs : FileSystem W P) (answer : Opened P)
      → Result f.descriptors (finish_open f fs answer).0 (finish_open f fs answer).1.descriptors
  unfolding finish_open file_new_descriptor
  finish_open-Result f fs (failed e) = refused refl refl
  finish_open-Result f fs (opened private) = elim (Option-cases (free_slot f.descriptors 0)) [
    | inl full ↦ rw (full, finish_open, file_new_descriptor) (refused refl refl)
    | inr (i, found) ↦
        let (k, e, first) = free_slot-some f.descriptors 0 found in
        rw (found, finish_open, file_new_descriptor)
          (filled i (record { index = i + 1; filesystem = fs; private = private }) refl
            (subst (FirstFree f.descriptors) {x = k} {y = i} (omega arith) first) refl refl)
  ]

  open_mode-Result :
      (f : Files W P) (fs : FileSystem W P) (parts : List Bytes) (mode : FileMode)
      → Result f.descriptors (open_mode f fs parts mode).0 (open_mode f fs parts mode).1.descriptors
  unfolding open_mode open_descriptor
  open_mode-Result f fs parts invalid = refused refl refl
  open_mode-Result f fs parts mode =
      let (answer, w) = fs.open_file f.world parts mode in
      finish_open-Result (record f { world = w }) fs answer

  open_parts-Result :
      (f : Files W P) (drive_no : ℤ) (parts : List Bytes) (mode_str : Bytes)
      → Result f.descriptors
          (open_parts f drive_no parts mode_str).0
          (open_parts f drive_no parts mode_str).1.descriptors
  unfolding open_parts
  open_parts-Result f drive_no [] mode_str = refused refl refl
  open_parts-Result f drive_no (p ∷ ps) mode_str =
      elim (Option-cases (disk_filesystem_of f drive_no)) [
        | inl no_disk ↦ rw (no_disk, open_parts) (refused refl refl)
        | inr (fs, there) ↦
            rw (there, open_parts)
              (open_mode-Result f fs (p ∷ ps) (file_get_mode_by_string mode_str))
      ]

  -- `fopen` returns 0 and leaves the table as it was, or returns the number of the first empty
  -- slot, counted from 1, and fills that slot alone.
  pub data FopenResult (table : Table W P) (res : ℤ) (table' : Table W P) : Type 0 where
    refused : res ≡ pos 0 → table' ≡ table → FopenResult table res table'
    filled :
        (k : ℕ) (d : Descriptor W P)
        → res ≡ pos (k + 1)
        → FirstFree table k
        → d.index ≡ k + 1
        → table' ≡ set table k (some d)
        → FopenResult table res table'

  fopen-FopenResult :
      (table table' : Table W P) (res : ℤ)
      → Result table res table'
      → FopenResult table (if is_neg res then pos 0 else res) table'
  fopen-FopenResult table table' res (Result.refused e same) =
      FopenResult.refused (ground arith) same
  fopen-FopenResult table table' res (Result.filled k d e first own same) =
      FopenResult.filled k d (ground arith) first own same

  -- `fopen` always returns; it answers 0 and leaves the table of descriptors as it was, or answers
  -- the number of the first empty slot, counted from 1, and fills that slot alone.
  pub fopen_total :
      (f : Files W P) (filename mode_str : Bytes)
      → (res : ℤ) × (f' : Files W P) × (fopen f filename mode_str ≡ some (res, f'))
        × FopenResult f.descriptors res f'.descriptors
  unfolding fopen fopen_res
  fopen_total f filename mode_str = elim (parse_total filename) [
    | inl null ↦ (pos 0, f, rw (null, fopen, fopen_res) refl, FopenResult.refused refl refl)
    | inr (root, d, parsed, drive, small, parts) ↦
        let (res, f') = open_parts f root.drive_no root.parts mode_str in
        (
          if is_neg res then pos 0 else res,
          f',
          rw (parsed, fopen, fopen_res) refl,
          fopen-FopenResult f.descriptors f'.descriptors res
              (open_parts-Result f root.drive_no root.parts mode_str),
        )
  ]

  -- The table stays valid.
  FopenResult-IsValid :
      (f f' : Files W P) (res : ℤ)
      → IsValid f
      → FopenResult f.descriptors res f'.descriptors
      → IsValid f'
  FopenResult-IsValid f f' res v (FopenResult.refused e same) = record {
    size = rw same v.size;
    own = rw same v.own;
  }
  FopenResult-IsValid f f' res v (FopenResult.filled k d e first own same) = record {
    size = rw same (length-set f.descriptors k (some d) ∙ v.size);
    own = rw same (own-set f.descriptors k d v.own own first.inside);
  }

  pub fopen-FopenResult_of :
      (f f' : Files W P) (filename mode_str : Bytes) (res : ℤ)
      → fopen f filename mode_str ≡ some (res, f')
      → FopenResult f.descriptors res f'.descriptors
  fopen-FopenResult_of f f' filename mode_str res h =
      let (r, g, done, result) = fopen_total f filename mode_str in
      let same_res : r ≡ res = cc (done, h) in
      let same_files : g ≡ f' = cc (done, h) in
      subst (λ (x : ℤ). FopenResult f.descriptors x f'.descriptors) same_res
        (subst (λ (x : Files W P). FopenResult f.descriptors r x.descriptors) same_files result)

  -- If `fopen` on a valid table returns some answer and tables, the table is valid still, and the
  -- answer is 0 with the table as it was, or the number of the first empty slot, counted from 1,
  -- with that slot alone filled.
  pub fopen-IsValid :
      (f f' : Files W P) (filename mode_str : Bytes) (res : ℤ)
      → IsValid f
      → fopen f filename mode_str ≡ some (res, f')
      → IsValid f' × FopenResult f.descriptors res f'.descriptors
  fopen-IsValid f f' filename mode_str res v h =
      let result = fopen-FopenResult_of f f' filename mode_str res h in
      (FopenResult-IsValid f f' res v result, result)
