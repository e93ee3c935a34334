-- ===== src/Fat/Open/Seek.antt =====
-- `fat16_seek`, on every branch.
use custom_peach_os.Prelude.{
  ℕ, zero, suc, ◌+◌, ◌%◌, ◌^◌, ◌≤◌, ◌<◌, ◌≡◌, refl, inl, inr, some, List, arith, leb, sym, leb→le,
  Bool-cases,
}
use mathlib.Core.Path.{subst}
use custom_peach_os.Prelude.Int.{ℤ}
use custom_peach_os.Status.{all_ok, eio, einvarg, eunimp}
use custom_peach_os.Fat.Directory.{file, item_of}
use custom_peach_os.Fat.Open.{FatFileDescriptor, filesize, seek_mode_switch, fat16_seek}

-- What a seek on a file of `size` bytes may answer, and the descriptor it leaves.
pub data SeekResult (size : ℕ) (desc : FatFileDescriptor) (offset mode : ℕ)
    : ℤ → FatFileDescriptor → Type 0 where
  past_end : size ≤ offset → SeekResult size desc offset mode eio desc
  set_to :
      offset < size
      → mode ≡ 0
      → SeekResult size desc offset mode all_ok (record desc { position = offset })
  from_current :
      offset < size
      → mode ≡ 1
      → SeekResult size desc offset mode all_ok
          (record desc { position = (desc.position + offset) % 2 ^ 32 })
  from_end : offset < size → mode ≡ 2 → SeekResult size desc offset mode eunimp desc
  unknown : offset < size → 2 < mode → SeekResult size desc offset mode einvarg desc

unknown_mode :
    (desc : FatFileDescriptor) (offset mode : ℕ)
    → 2 < mode
    → seek_mode_switch desc offset mode ≡ (einvarg, desc)
unfolding seek_mode_switch
unknown_mode desc offset mode lt = ground arith

switch-SeekResult :
    (size : ℕ) (desc : FatFileDescriptor) (offset mode : ℕ)
    → offset < size
    → SeekResult size desc offset mode
        (seek_mode_switch desc offset mode).0
        (seek_mode_switch desc offset mode).1
unfolding seek_mode_switch
switch-SeekResult size desc offset zero lt = SeekResult.set_to lt refl
switch-SeekResult size desc offset (suc zero) lt = SeekResult.from_current lt refl
switch-SeekResult size desc offset (suc (suc zero)) lt = SeekResult.from_end lt refl
switch-SeekResult size desc offset (suc (suc (suc n))) lt =
    subst (λ r. SeekResult size desc offset (suc (suc (suc n))) r.0 r.1)
      (sym (unknown_mode desc offset (suc (suc (suc n))) (omega arith)))
      (SeekResult.unknown lt (omega arith))

accepted :
    (desc : FatFileDescriptor) (item : List ℕ) (offset mode : ℕ)
    → desc.item.type ≡ file
    → desc.item.held ≡ item_of (some item)
    → offset < filesize item
    → fat16_seek desc offset mode ≡ some (seek_mode_switch desc offset mode)
unfolding fat16_seek
accepted desc item offset mode is_file holds lt = ground arith

rejected :
    (desc : FatFileDescriptor) (item : List ℕ) (offset mode : ℕ)
    → desc.item.type ≡ file
    → desc.item.held ≡ item_of (some item)
    → filesize item ≤ offset
    → fat16_seek desc offset mode ≡ some (eio, desc)
unfolding fat16_seek
rejected desc item offset mode is_file holds le = ground arith

-- On a descriptor of a file `fat16_seek` always returns. An offset that is not below the file's
-- size is refused with -EIO; any other is set for mode 0 and added to the position, modulo 2^32,
-- for mode 1; mode 2 is refused with -EUNIMP and all others with -EINVARG. Where it refuses, the
-- descriptor is as it was.
pub fat16_seek-SeekResult :
    (desc : FatFileDescriptor) (item : List ℕ) (offset mode : ℕ)
    → desc.item.type ≡ file
    → desc.item.held ≡ item_of (some item)
    → (res : ℤ) × (desc' : FatFileDescriptor) × (fat16_seek desc offset mode ≡ some (res, desc'))
      × SeekResult (filesize item) desc offset mode res desc'
fat16_seek-SeekResult desc item offset mode is_file holds =
    elim (Bool-cases (leb (filesize item) offset)) [
      | inl past ↦
          let le : filesize item ≤ offset = leb→le (filesize item) offset past in
          (eio, desc, rejected desc item offset mode is_file holds le, SeekResult.past_end le)
      | inr short ↦
          let lt : offset < filesize item = ground arith in
          (
            (seek_mode_switch desc offset mode).0,
            (seek_mode_switch desc offset mode).1,
            accepted desc item offset mode is_file holds lt,
            switch-SeekResult (filesize item) desc offset mode lt,
          )
    ]
