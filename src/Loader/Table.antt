-- ===== src/Loader/Table.antt =====
-- Loading gives the descriptor back that it takes.
use custom_peach_os.Prelude.{
  ℕ, zero, suc, ◌+◌, ◌-◌, ◌<◌, ◌≡◌, ◌≢◌, refl, sym, ap, ◌∙◌, ◌⊎◌, inl, inr, none, some, arith, ◌==◌,
  ==_iff, Bool-cases, Option-cases, get_or, set, set-set, set_same, get_or-set_self, length,
  length-set,
}
use mathlib.Core.Path.{subst}
use custom_peach_os.Prelude.Int.{ℤ, pos, negsuc, is_zero}
use custom_peach_os.Status.{all_ok, eio, max_file_descriptors}
use custom_peach_os.CString.{Bytes}
use custom_peach_os.Files.{
  Descriptor, Files, file_get_descriptor, file_free_descriptor, fopen, fstat, fread, fclose,
}
use custom_peach_os.Files.Slots.{FirstFree}
use custom_peach_os.Files.Open.{Table, FopenResult, fopen_total}
use custom_peach_os.Loader.{
  Contents, Outcome, is_einformat, read_mode, elf_load_open, elf_load, load_binary_open,
  process_load_binary, process_load_data,
}

is_ok : (res : ℤ) → (res ≡ all_ok) ⊎ (res ≢ all_ok)
is_ok (pos zero) = inl refl
is_ok (pos (suc n)) = inr (λ e. cc e)
is_ok (negsuc n) = inr (λ e. cc e)

module _ {W P : Type 0} where
  -- What is left of the table of descriptors: it is as it was, or the first empty slot, and no other,
  -- has the descriptor that was opened there: because it is the last slot, which no descriptor leads
  -- to, or because the filesystem of that descriptor did not close its file, at the end of the load.
  pub data Returned (table : Table W P) (f' : Files W P) : Type 0 where
    restored : f'.descriptors ≡ table → Returned table f'
    last :
        (k : ℕ) (d : Descriptor W P)
        → k + 1 ≡ max_file_descriptors
        → FirstFree table k
        → f'.descriptors ≡ set table k (some d)
        → Returned table f'
    kept_open :
        (k : ℕ) (d : Descriptor W P) (w : W)
        → FirstFree table k
        → d.index ≡ k + 1
        → f'.descriptors ≡ set table k (some d)
        → f'.world ≡ (d.filesystem.close_file w d.private).1
        → (d.filesystem.close_file w d.private).0 ≢ all_ok
        → Returned table f'

  length-Returned :
      (table : Table W P) (f' : Files W P)
      → Returned table f'
      → length f'.descriptors ≡ length table
  length-Returned table f' (Returned.restored same) = ap length same
  length-Returned table f' (Returned.last k d full first same) =
      ap length same ∙ length-set table k (some d)
  length-Returned table f' (Returned.kept_open k d w first own same after bad) =
      ap length same ∙ length-set table k (some d)

  fread-descriptors :
      (f : Files W P) (size nmemb : ℕ) (fd : ℤ)
      → (fread f size nmemb fd).2.descriptors ≡ f.descriptors
  unfolding fread
  fread-descriptors f size nmemb (negsuc e) = refl
  fread-descriptors f size nmemb (pos fd) = ground arith

  close_zero : (f : Files W P) → (fclose f (pos 0)).1.descriptors ≡ f.descriptors
  unfolding fclose file_get_descriptor
  close_zero f = refl

  close_there :
      (f : Files W P) (k : ℕ) (d : Descriptor W P)
      → get_or f.descriptors k none ≡ some d
      → k + 1 < max_file_descriptors
      → d.index ≡ k + 1
      → (d.filesystem.close_file f.world d.private).0 ≡ all_ok
      → (fclose f (pos (k + 1))).1.descriptors ≡ set f.descriptors k none
  unfolding fclose file_get_descriptor file_free_descriptor
  close_there f k d there small own ok = ground (
    arith,
    ap (λ i. get_or f.descriptors i none) {x = k + 1 - 1} {y = k} (omega arith),
    ap (λ i. set f.descriptors i none) {x = d.index - 1} {y = k} (omega arith),
  )

  -- A descriptor whose filesystem does not close its file stays.
  close_kept :
      (f : Files W P) (k : ℕ) (d : Descriptor W P)
      → get_or f.descriptors k none ≡ some d
      → k + 1 < max_file_descriptors
      → (d.filesystem.close_file f.world d.private).0 ≢ all_ok
      → ((fclose f (pos (k + 1))).1.descriptors ≡ f.descriptors)
        × ((fclose f (pos (k + 1))).1.world ≡ (d.filesystem.close_file f.world d.private).1)
  unfolding fclose file_get_descriptor
  close_kept f k d there small bad =
      let found = ap (λ i. get_or f.descriptors i none) {x = k + 1 - 1} {y = k} (omega arith) in
      (ground (arith, found), ground (arith, found))

  -- The last descriptor is not found.
  close_last :
      (f : Files W P) (fd : ℕ)
      → fd ≡ max_file_descriptors
      → (fclose f (pos fd)).1.descriptors ≡ f.descriptors
  unfolding fclose file_get_descriptor
  close_last f fd e = rw e refl

  close-Returned :
      (table : Table W P) (f : Files W P) (fd : ℤ)
      → length table ≡ max_file_descriptors
      → FopenResult table fd f.descriptors
      → Returned table (fclose f fd).1
  close-Returned table f fd size (FopenResult.refused null same) =
      Returned.restored (rw null (close_zero f ∙ same))
  close-Returned table f fd size (FopenResult.filled k d number first own same) =
      elim (Bool-cases (k + 1 == max_file_descriptors)) [
        | inl full ↦
            let at : k + 1 ≡ max_file_descriptors = (==_iff (k + 1) max_file_descriptors).0 full in
            Returned.last k d at first
              (ap (λ n. (fclose f n).1.descriptors) number ∙ close_last f (k + 1) at ∙ same)
        | inr room ↦
            let there : get_or f.descriptors k none ≡ some d =
              ap (λ t. get_or t k none) same ∙ get_or-set_self table k (some d) none first.inside in
            let small : k + 1 < max_file_descriptors = ground (arith, first.inside) in
            elim (is_ok (d.filesystem.close_file f.world d.private).0) [
              | inr bad ↦
                  Returned.kept_open k d f.world first own
                    (ap (λ n. (fclose f n).1.descriptors) number
                      ∙ (close_kept f k d there small bad).0
                      ∙ same)
                    (ap (λ n. (fclose f n).1.world) number ∙ (close_kept f k d there small bad).1)
                    bad
              | inl ok ↦ Returned.restored (
                  ap (λ n. (fclose f n).1.descriptors) number
                  ∙ close_there f k d there small own ok
                  ∙ ap (λ t. set t k none) same
                  ∙ set-set table k (some d) none
                  ∙ set_same table k none none first.inside first.empty)
            ]
      ]

  elf_load_open-descriptors :
      (alloc : ℕ → ℕ) (behind : Contents) (f : Files W P) (fd : ℤ)
      → (elf_load_open alloc behind f fd).1.descriptors ≡ f.descriptors
  unfolding elf_load_open
  elf_load_open-descriptors alloc behind f fd = elim (Option-cases (fstat f fd).1) [
    | inl none_there ↦ ground arith
    | inr (stat, there) ↦ ground (arith, fread-descriptors f stat.filesize 1 fd)
  ]

  load_binary_open-descriptors :
      (alloc : ℕ → ℕ) (behind : Contents) (n : ℕ) (f : Files W P) (fd : ℤ)
      → (load_binary_open alloc behind n f fd).1.descriptors ≡ f.descriptors
  unfolding load_binary_open
  load_binary_open-descriptors alloc behind n f fd = elim (Option-cases (fstat f fd).1) [
    | inl none_there ↦ ground arith
    | inr (stat, there) ↦ ground (arith, fread-descriptors f stat.filesize 1 fd)
  ]

  FopenResult-not_neg :
      (table table' : Table W P) (e : ℕ) → FopenResult table (negsuc e) table' → 0 < 0
  FopenResult-not_neg table table' e (FopenResult.refused null same) = absurd (cc null)
  FopenResult-not_neg table table' e (FopenResult.filled k d number first own same) =
      absurd (cc number)

  module _ (alloc : ℕ → ℕ) (behind : Contents) where
    -- With a table of 512 descriptors `elf_load` terminates and gives back the descriptor that it takes,
    -- with the exceptions of the type.
    pub elf_load-Returned :
        (f : Files W P) (filename : Bytes)
        → length f.descriptors ≡ max_file_descriptors
        → (outcome : Outcome) × (f' : Files W P) × (elf_load alloc behind f filename
            ≡ some (outcome, f'))
          × Returned f.descriptors f'
    unfolding elf_load
    elf_load-Returned f filename size =
        let (res, f1, done, result) = fopen_total f filename read_mode in
        behind_fopen res f1 done result
      where
        behind_fopen :
            (res : ℤ) (f1 : Files W P)
            → fopen f filename read_mode ≡ some (res, f1)
            → FopenResult f.descriptors res f1.descriptors
            → (outcome : Outcome) × (f' : Files W P) × (elf_load alloc behind f filename
                ≡ some (outcome, f'))
              × Returned f.descriptors f'
        behind_fopen (negsuc e) f1 done result =
            absurd (omega (arith, FopenResult-not_neg f.descriptors f1.descriptors e result))
        behind_fopen (pos fd) f1 done result =
            let r : Outcome × Files W P = elf_load_open alloc behind f1 (pos fd) in
            (
              r.0,
              (fclose r.1 (pos fd)).1,
              rw (elf_load, done) refl,
              close-Returned f.descriptors r.1 (pos fd) size (
                  subst (FopenResult f.descriptors (pos fd))
                    (sym (elf_load_open-descriptors alloc behind f1 (pos fd))) result),
            )

    -- The same for `process_load_binary`.
    pub process_load_binary-Returned :
        (n : ℕ) (f : Files W P) (filename : Bytes)
        → length f.descriptors ≡ max_file_descriptors
        → (outcome : Outcome) × (f' : Files W P) × (process_load_binary alloc behind n f filename
            ≡ some (outcome, f'))
          × Returned f.descriptors f'
    unfolding process_load_binary
    process_load_binary-Returned n f filename size =
        let (res, f1, done, result) = fopen_total f filename read_mode in
        let r : Outcome × Files W P = load_binary_open alloc behind n f1 res in
        let opened = close-Returned f.descriptors r.1 res size (
          subst (FopenResult f.descriptors res)
            (sym (load_binary_open-descriptors alloc behind n f1 res)) result) in
        elim (Bool-cases (is_zero res)) [
          | inl null ↦ (
            (eio, none),
            (fclose f1 res).1,
            rw (process_load_binary, done, null) refl,
            close-Returned f.descriptors f1 res size result,
          )
          | inr some_fd ↦
              (r.0, (fclose r.1 res).1, rw (process_load_binary, done, some_fd) refl, opened)
        ]

    -- With a table of 512 descriptors, and whatever the filesystem answers and the file holds,
    -- `process_load_data` terminates, and each of its two attempts, the second of which may not be made,
    -- gives back the descriptor that it takes: it leaves the table as it was, unless its first empty
    -- slot was the last one, or the filesystem did not close the file that had been opened; then that
    -- slot, and no other, keeps the descriptor.
    pub process_load_data-Returned :
        (f : Files W P) (filename : Bytes)
        → length f.descriptors ≡ max_file_descriptors
        → (outcome : Outcome) × (f' : Files W P) × (between : Files W P) × (process_load_data alloc
              behind f filename
            ≡ some (outcome, f'))
          × Returned f.descriptors between
          × Returned between.descriptors f'
    unfolding process_load_data
    process_load_data-Returned f filename size =
        let (first, f1, loads, returned) = elf_load-Returned f filename size in
        let (second, f2, runs, returned2) =
          process_load_binary-Returned 2 f1 filename
            (length-Returned f.descriptors f1 returned ∙ size) in
        elim (Bool-cases (is_einformat first.0)) [
          | inl no_elf ↦
              (second, f2, f1, rw (process_load_data, loads, no_elf) runs, returned, returned2)
          | inr decided ↦ (
            first,
            f1,
            f1,
            rw (process_load_data, loads, decided) refl,
            returned,
            Returned.restored refl,
          )
        ]
