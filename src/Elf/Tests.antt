-- ===== src/Elf/Tests.antt =====
-- A file of three segments, two of which are loaded.
use custom_peach_os.Prelude.{◌≡◌, refl, ◌⊎◌, List, [], ◌∷◌, arith}
use custom_peach_os.Status.{all_ok, einformat}
use custom_peach_os.Elf.{ElfHeader, Phdr, ElfFile, elf_validate_loaded, elf_process_loaded}
use custom_peach_os.Elf.Extent.{AllLoadable, Covers, StartsAt, elf_process_loaded-Covers}

abbrev header : ElfHeader
header = record {
  e_ident = 0x7f ∷ b'E' ∷ b'L' ∷ b'F' ∷ 1 ∷ 1 ∷ [];
  e_type = 2;
  e_entry = 0x40_0000;
  e_phoff = 52;
}

header_valid : elf_validate_loaded header ≡ all_ok
unfolding elf_validate_loaded
header_valid = refl

wide_class :
    elf_validate_loaded (record header { e_ident = 0x7f ∷ b'E' ∷ b'L' ∷ b'F' ∷ 2 ∷ 1 ∷ [] })
    ≡ einformat
unfolding elf_validate_loaded
wide_class = refl

abbrev segments : List Phdr
segments =
    record {
      p_type = 1;
      p_offset = 0x1000;
      p_vaddr = 0x40_1000;
      p_filesz = 0x200;
      p_memsz = 0x200;
      p_flags = 5;
    }
    ∷ record { p_type = 6; p_offset = 0; p_vaddr = 0; p_filesz = 0; p_memsz = 0; p_flags = 5 }
    ∷ record {
      p_type = 1;
      p_offset = 0x2000;
      p_vaddr = 0x40_0000;
      p_filesz = 0x100;
      p_memsz = 0x100;
      p_flags = 5;
    }
    ∷ []

segments-AllLoadable : AllLoadable segments
segments-AllLoadable = (
  λ load. (omega arith, omega arith),
  (λ load. absurd (omega arith), (λ load. (omega arith, omega arith), tt)),
)

abbrev fresh : ElfFile
fresh = record {
  elf_memory = 0x0100_0000;
  header = header;
  virtual_base_address = 0;
  virtual_end_address = 0;
  physical_base_address = 0;
  physical_end_address = 0;
}

elf_process_loaded-Covers_example :
    let f' = (elf_process_loaded fresh header segments).1 in
    ((elf_process_loaded fresh header segments).0 ≡ all_ok)
    × Covers f' segments
    × ((f'.virtual_base_address ≡ 0) ⊎ StartsAt f' segments)
elf_process_loaded-Covers_example =
    elf_process_loaded-Covers fresh header segments header_valid segments-AllLoadable refl
