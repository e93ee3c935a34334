-- ===== src/Elf.antt =====
-- src/loader/formats/elfloader.c: which files are accepted, and the extent of the segments that are
-- loaded. A header is what the checks read of it; the program headers are the list of the `e_phnum`
-- headers that stand behind each other in the file. Addresses are 32-bit numbers.
pub mod Extent
mod Tests
use custom_peach_os.Prelude.{
  ℕ, ◌+◌, ◌%◌, ◌^◌, Bool, not, ◌&&◌, ◌||◌, Option, none, some, List, [], ◌∷◌, leb, ◌==◌,
  if◌then◌else◌, get_or,
}
use custom_peach_os.Prelude.Int.{ℤ, is_neg}
use custom_peach_os.Status.{all_ok, einformat}

pub record ElfHeader : Type 0 where
  pub e_ident : List ℕ
  pub e_type : ℕ
  pub e_entry : ℕ
  pub e_phoff : ℕ

pub record Phdr : Type 0 where
  pub p_type : ℕ
  pub p_offset : ℕ
  pub p_vaddr : ℕ
  pub p_filesz : ℕ
  pub p_memsz : ℕ
  pub p_flags : ℕ

-- `header` is what stands at `elf_memory`.
pub record ElfFile : Type 0 where
  pub elf_memory : ℕ
  pub header : ElfHeader
  pub virtual_base_address : ℕ
  pub virtual_end_address : ℕ
  pub physical_base_address : ℕ
  pub physical_end_address : ℕ

abbrev pub pt_load : ℕ
pt_load = 0x01

abbrev pub program_virtual_address : ℕ
program_virtual_address = 0x40_0000

-- `memcmp` of the four bytes with the signature's.
unfoldable pub elf_valid_signature : ElfHeader → Bool
elf_valid_signature header =
    (get_or header.e_ident 0 0 == 0x7f && get_or header.e_ident 1 0 == b'E')
    && (get_or header.e_ident 2 0 == b'L' && get_or header.e_ident 3 0 == b'F')

unfoldable pub elf_valid_class : ElfHeader → Bool
elf_valid_class header = get_or header.e_ident 4 0 == 0 || get_or header.e_ident 4 0 == 1

unfoldable pub elf_valid_encoding : ElfHeader → Bool
elf_valid_encoding header = get_or header.e_ident 5 0 == 0 || get_or header.e_ident 5 0 == 1

unfoldable pub elf_is_executable : ElfHeader → Bool
elf_is_executable header = header.e_type == 2 && leb program_virtual_address header.e_entry

unfoldable pub elf_has_program_header : ElfHeader → Bool
elf_has_program_header header = not (header.e_phoff == 0x0)

unfoldable pub elf_validate_loaded : ElfHeader → ℤ
unfolding elf_valid_signature elf_valid_class elf_valid_encoding elf_has_program_header
elf_validate_loaded header =
    if elf_valid_signature header
      && (elf_valid_class header && (elf_valid_encoding header && elf_has_program_header header))
    then all_ok
    else einformat

-- The offset is a pattern of 32 bits.
unfoldable pub elf_phdr_phys_address : ElfFile → Phdr → ℕ
elf_phdr_phys_address file phdr = (file.elf_memory + phdr.p_offset) % 2 ^ 32

unfoldable pub elf_process_phdr_pt_load : ElfFile → Phdr → ℤ × ElfFile
elf_process_phdr_pt_load file phdr =
    let file1 =
      if leb phdr.p_vaddr file.virtual_base_address || file.virtual_base_address == 0x0
      then record file {
        virtual_base_address = phdr.p_vaddr;
        physical_base_address = (file.elf_memory + phdr.p_offset) % 2 ^ 32;
      }
      else file in
    let end_virtual_address = (phdr.p_vaddr + phdr.p_filesz) % 2 ^ 32 in
    let file2 =
      if leb file1.virtual_end_address end_virtual_address || file1.virtual_end_address == 0x0
      then record file1 {
        virtual_end_address = end_virtual_address;
        physical_end_address = (file.elf_memory + phdr.p_offset + phdr.p_filesz) % 2 ^ 32;
      }
      else file1 in
    (all_ok, file2)

unfoldable pub elf_process_pheader : ElfFile → Phdr → ℤ × ElfFile
elf_process_pheader file phdr =
    if phdr.p_type == pt_load then elf_process_phdr_pt_load file phdr else (all_ok, file)

-- The loop over the headers; it stops at a negative result.
unfoldable pub elf_process_pheaders : ElfFile → List Phdr → ℤ × ElfFile
elf_process_pheaders file [] = (all_ok, file)
elf_process_pheaders file (phdr ∷ phdrs) =
    let (res, file') = elf_process_pheader file phdr in
    let rest = elf_process_pheaders file' phdrs in if is_neg res then (res, file') else rest

unfoldable pub elf_process_loaded : ElfFile → ElfHeader → List Phdr → ℤ × ElfFile
unfolding elf_validate_loaded elf_process_pheaders
elf_process_loaded file header phdrs =
    let res = elf_validate_loaded header in
    if is_neg res then (res, file) else elf_process_pheaders file phdrs
