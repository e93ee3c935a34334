-- ===== src/Loader/Sample.antt =====
-- For the runs at fixed inputs: a filesystem with one file, of three bytes that are no ELF header.
use custom_peach_os.Prelude.{ℕ, ◌+◌, ◌*◌, ◌≡◌, refl, Option, none, some, [], ◌∷◌, replicate}
use custom_peach_os.Prelude.Int.{pos}
use custom_peach_os.Status.{all_ok}
use custom_peach_os.CString.{Bytes, strlen, strnlen, strncmp}
use custom_peach_os.PathParser.{parse}
use custom_peach_os.Files.{
  opened, FileSystem, Descriptor, Files, fopen, fopen_res, open_parts, open_mode, open_descriptor,
  finish_open, disk_filesystem_of, file_get_mode_by_string, file_new_descriptor, free_slot, fstat,
  fread, fclose, file_get_descriptor, file_free_descriptor,
}
use custom_peach_os.Elf.{elf_process_loaded, elf_validate_loaded}
use custom_peach_os.Process.Mapping.{binary}
use custom_peach_os.Loader.{
  Contents, elf_header, elf_from, elf_load_open, elf_load, load_binary_open, process_load_binary,
  process_load_data,
}

abbrev pub small : FileSystem ℕ ℕ
small = record {
  resolve = λ w. (all_ok, w);
  open_file = λ w parts mode. (opened 7, w);
  read_file = λ w p size nmemb. (pos nmemb, 0x90 ∷ 0x90 ∷ 0xc3 ∷ [], w);
  seek_file = λ p offset whence. (all_ok, p);
  stat_file = λ w p. (all_ok, record { flags = 0; filesize = 3 });
  close_file = λ w p. (all_ok, w);
}

abbrev pub no_descriptor : Option (Descriptor ℕ ℕ)
no_descriptor = none

abbrev pub idle : Files ℕ ℕ
idle = record {
  filesystems = some small ∷ [];
  descriptors = replicate 512 no_descriptor;
  disk_filesystem = some small;
  world = 0;
}

abbrev pub path : Bytes
path = b'0' ∷ b':' ∷ b'/' ∷ b'a' ∷ []

abbrev pub alloc : ℕ → ℕ
alloc n = 0x0100_0000 + n * 0x4000

abbrev pub zeros : Contents
zeros i = 0

-- The file is no ELF file, and is loaded as it is.
pub loads_binary :
    process_load_data alloc zeros idle path ≡ some ((all_ok, some (binary 0x0100_8000 3)), idle)
unfolding process_load_data elf_load elf_load_open elf_from elf_header elf_process_loaded
    elf_validate_loaded process_load_binary load_binary_open fopen fopen_res parse strlen strnlen
    open_parts disk_filesystem_of open_mode file_get_mode_by_string strncmp open_descriptor
    finish_open file_new_descriptor free_slot fstat fread fclose file_get_descriptor
    file_free_descriptor
loads_binary = refl
