-- ===== src/Files/Tests.antt =====
-- A filesystem that opens every file, and the theorems at it.
use custom_peach_os.Prelude.{
  ℕ, ◌+◌, ◌-◌, ◌≡◌, refl, Option, none, some, List, [], ◌∷◌, arith, set, replicate,
  length-replicate, get_or-replicate, get_or-replicate_in, length-set, get_or-set_self,
  get_or-set_ne,
}
use custom_peach_os.Prelude.Int.{ℤ, pos}
use custom_peach_os.Status.{all_ok, eio, einvarg}
use custom_peach_os.CString.{Bytes, strlen, strnlen, strncmp}
use custom_peach_os.PathParser.{parse}
use custom_peach_os.Files.{
  opened, FileSystem, Descriptor, Files, fopen, fclose, fread, file_get_descriptor, fopen_res,
  open_parts, disk_filesystem_of, open_mode, file_get_mode_by_string, open_descriptor, finish_open,
  file_new_descriptor, free_slot,
}
use custom_peach_os.Files.Slots.{FirstFree}
use custom_peach_os.Files.Open.{IsValid, FopenResult, fopen_total, fopen-IsValid}
use custom_peach_os.Files.Close.{fclose_lem, fopen_last_lost}

abbrev open_all : FileSystem ℕ ℕ
open_all = record {
  resolve = λ w. (all_ok, w);
  open_file = λ w parts mode. (opened 7, w + 1);
  read_file = λ w p size nmemb. (pos nmemb, [], w);
  seek_file = λ p offset whence. (all_ok, p);
  stat_file = λ w p. (all_ok, record { flags = 0; filesize = 0 });
  close_file = λ w p. (all_ok, w);
}

abbrev no_descriptor : Option (Descriptor ℕ ℕ)
no_descriptor = none

abbrev idle : Files ℕ ℕ
idle = record {
  filesystems = some open_all ∷ [];
  descriptors = replicate 512 no_descriptor;
  disk_filesystem = some open_all;
  world = 0;
}

idle-IsValid : IsValid idle
idle-IsValid = record {
  size = length-replicate 512 no_descriptor;
  own = λ k d h. absurd (cc (h, get_or-replicate 512 k no_descriptor));
}

abbrev path : Bytes
path = b'0' ∷ b':' ∷ b'/' ∷ b'a' ∷ []

abbrev mode : Bytes
mode = b'r' ∷ []

fopen_total_example :
    (res : ℤ) × (f' : Files ℕ ℕ) × (fopen idle path mode ≡ some (res, f'))
    × FopenResult idle.descriptors res f'.descriptors
fopen_total_example = fopen_total idle path mode

abbrev file : Descriptor ℕ ℕ
file = record { index = 1; filesystem = open_all; private = 7 }

abbrev busy : Files ℕ ℕ
busy = record idle { descriptors = set idle.descriptors 0 (some file); world = 1 }

fopen-idle : fopen idle path mode ≡ some (pos 1, busy)
unfolding fopen fopen_res parse strlen strnlen open_parts disk_filesystem_of open_mode
    file_get_mode_by_string strncmp open_descriptor finish_open file_new_descriptor free_slot
fopen-idle = refl

opened-IsValid_run : IsValid busy × FopenResult idle.descriptors (pos 1) busy.descriptors
opened-IsValid_run = fopen-IsValid idle busy path mode (pos 1) idle-IsValid fopen-idle

file_is_open : file_get_descriptor busy (pos 1) ≡ some file
unfolding file_get_descriptor
file_is_open = refl

busy-IsValid : IsValid busy
busy-IsValid = (fopen-IsValid idle busy path mode (pos 1) idle-IsValid fopen-idle).0

fclose_lem_example :
    ((fclose busy (pos 1)).0 ≡ all_ok)
    × ((fclose busy (pos 1)).1.descriptors ≡ set busy.descriptors (1 - 1) none)
    × IsValid (fclose busy (pos 1)).1
fclose_lem_example = fclose_lem busy 1 file busy-IsValid file_is_open refl

-- All slots but the last are taken.
abbrev crowd : List (Option (Descriptor ℕ ℕ))
crowd = replicate 512 (some file)

abbrev crowded : Files ℕ ℕ
crowded = record idle { descriptors = set crowd 511 no_descriptor }

crowded-FirstFree : FirstFree crowded.descriptors 511
crowded-FirstFree = record {
  inside = omega (arith, length-set crowd 511 no_descriptor, length-replicate 512 (some file));
  empty =
      get_or-set_self crowd 511 no_descriptor none
        (omega (arith, length-replicate 512 (some file)));
  taken = λ j lt e. cc (
    get_or-set_ne crowd 511 j no_descriptor none (omega arith),
    get_or-replicate_in 512 j (some file) none (omega arith),
    e,
  );
}

abbrev last_file : Descriptor ℕ ℕ
last_file = record { index = 512; filesystem = open_all; private = 7 }

abbrev full : Files ℕ ℕ
full = record crowded { descriptors = set crowded.descriptors 511 (some last_file); world = 1 }

fopen-crowded : fopen crowded path mode ≡ some (pos 512, full)
unfolding fopen fopen_res parse strlen strnlen open_parts disk_filesystem_of open_mode
    file_get_mode_by_string strncmp open_descriptor finish_open file_new_descriptor free_slot
fopen-crowded = refl

last_lost : (fclose full (pos 512) ≡ (eio, full)) × (fread full 1 1 (pos 512) ≡ (einvarg, [], full))
last_lost =
    fopen_last_lost crowded full path mode (pos 512) 1 1 crowded-FirstFree fopen-crowded (λ e. cc e)
