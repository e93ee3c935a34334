-- ===== src/Files/Close.antt =====
-- `fclose`, and the last descriptor.
use custom_peach_os.Prelude.{
  ℕ, ◌+◌, ◌-◌, ◌≤◌, ◌<◌, ◌≡◌, ◌≢◌, refl, sym, ap, ◌∙◌, none, some, [], arith, ◌==◌, ==_iff,
  Bool-cases, inl, inr, length, get_or, set, length-set, get_or-set_self, get_or-set_ne,
}
use custom_peach_os.Prelude.Int.{ℤ, pos}
use custom_peach_os.Status.{eio, einvarg, all_ok, max_file_descriptors}
use custom_peach_os.CString.{Bytes}
use custom_peach_os.Files.{Descriptor, Files, file_get_descriptor, fopen, fclose, fread}
use custom_peach_os.Files.Slots.{FirstFree, FirstFree-unique}
use custom_peach_os.Files.Open.{Table, IsValid, FopenResult, refused, filled, fopen-FopenResult_of}

module _ {W P : Type 0} where
  closed : Files W P → Descriptor W P → Files W P
  closed f d = record f {
    world = (d.filesystem.close_file f.world d.private).1;
    descriptors = set f.descriptors (d.index - 1) none;
  }

  fclose-closed :
      (f : Files W P) (fd : ℤ) (d : Descriptor W P)
      → file_get_descriptor f fd ≡ some d
      → (d.filesystem.close_file f.world d.private).0 ≡ all_ok
      → fclose f fd ≡ (all_ok, closed f d)
  unfolding fclose closed
  fclose-closed f fd d there ok = rw (there, fclose) (rw ok refl)

  fd_slot :
      (f : Files W P) (fd : ℕ) (d : Descriptor W P)
      → file_get_descriptor f (pos fd) ≡ some d
      → (0 < fd) × (fd < max_file_descriptors) × (get_or f.descriptors (fd - 1) none ≡ some d)
  unfolding file_get_descriptor
  fd_slot f fd d there = ground arith

  own-clear :
      (table : Table W P) (i : ℕ)
      → ((j : ℕ) (e : Descriptor W P) → get_or table j none ≡ some e → e.index ≡ j + 1)
      → i < length table
      → (j : ℕ) (e : Descriptor W P) → get_or (set table i none) j none ≡ some e
      → e.index ≡ j + 1
  own-clear table i own inside j e h = elim (Bool-cases (j == i)) [
    | inl same ↦ cc (
      get_or-set_self table i none none inside,
      ap (λ k. get_or (set table i none) k none) ((==_iff j i).0 same),
      h,
    )
    | inr other ↦ own j e (sym (get_or-set_ne table i j none none (ground arith)) ∙ h)
  ]

  -- On a valid table `fclose` of an open descriptor, where the filesystem's `close` answers 0,
  -- answers 0, empties the descriptor's slot and no other, and leaves the table valid.
  pub fclose_lem :
      (f : Files W P) (fd : ℕ) (d : Descriptor W P)
      → IsValid f
      → file_get_descriptor f (pos fd) ≡ some d
      → (d.filesystem.close_file f.world d.private).0 ≡ all_ok
      → ((fclose f (pos fd)).0 ≡ all_ok)
        × ((fclose f (pos fd)).1.descriptors ≡ set f.descriptors (fd - 1) none)
        × IsValid (fclose f (pos fd)).1
  unfolding closed
  fclose_lem f fd d v there ok =
      let (lo, hi, slot) = fd_slot f fd d there in
      let i : d.index - 1 ≡ fd - 1 = omega (arith, v.own (fd - 1) d slot) in
      rw (fclose-closed f (pos fd) d there ok) (
        refl,
        ap (λ k. set f.descriptors k none) i,
        record {
          size = length-set f.descriptors (d.index - 1) none ∙ v.size;
          own = own-clear f.descriptors (d.index - 1) v.own (omega (arith, i, v.size));
        },
      )

  file_get_descriptor_past :
      (f : Files W P) (fd : ℕ) → max_file_descriptors ≤ fd → file_get_descriptor f (pos fd) ≡ none
  unfolding file_get_descriptor
  file_get_descriptor_past f fd h = ground arith

  fclose-none : (f : Files W P) (fd : ℤ) → file_get_descriptor f fd ≡ none → fclose f fd ≡ (eio, f)
  unfolding fclose
  fclose-none f fd e = rw (e, fclose)

  fread-none :
      (f : Files W P) (size nmemb fd : ℕ)
      → file_get_descriptor f (pos fd) ≡ none
      → fread f size nmemb (pos fd) ≡ (einvarg, [], f)
  unfolding fread
  fread-none f size nmemb fd e = ground arith

  lost_of :
      (table : Table W P) (f' : Files W P) (res : ℤ) (size nmemb : ℕ)
      → FirstFree table 511
      → FopenResult table res f'.descriptors
      → res ≢ pos 0
      → (fclose f' res ≡ (eio, f')) × (fread f' size nmemb res ≡ (einvarg, [], f'))
  lost_of table f' res size nmemb only (refused e same) ne = absurd (ne e)
  lost_of table f' res size nmemb only (filled k d e first own same) ne =
      let k_last : k ≡ 511 = FirstFree-unique table k 511 first only in
      let past = file_get_descriptor_past f' (k + 1) (omega arith) in
      rw e (fclose-none f' (pos (k + 1)) past, fread-none f' size nmemb (k + 1) past)

  -- When the first 511 slots are taken and the last is empty, what `fopen` opens can be neither
  -- closed nor read: `fclose` and `fread` of it are refused and change nothing.
  pub fopen_last_lost :
      (f f' : Files W P) (filename mode_str : Bytes) (res : ℤ) (size nmemb : ℕ)
      → FirstFree f.descriptors 511
      → fopen f filename mode_str ≡ some (res, f')
      → res ≢ pos 0
      → (fclose f' res ≡ (eio, f')) × (fread f' size nmemb res ≡ (einvarg, [], f'))
  fopen_last_lost f f' filename mode_str res size nmemb only h ne =
      lost_of f.descriptors f' res size nmemb only
        (fopen-FopenResult_of f f' filename mode_str res h) ne
