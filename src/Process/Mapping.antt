-- ===== src/Process/Mapping.antt =====
-- How src/task/process.c maps a loaded program and its stack into the pages of a process. What the
-- field `filetype` and the union say is one data type.
pub mod Pages
pub mod Whole
use custom_peach_os.Prelude.{
  ℕ, ◌+◌, ◌-◌, ◌*◌, ◌%◌, ◌^◌, List, [], ◌∷◌, not, ◌==◌, if◌then◌else◌, bit_and, bit_or,
}
use custom_peach_os.Prelude.Int.{ℤ, is_neg}
use custom_peach_os.Status.{all_ok}
use custom_peach_os.Paging.{Words, paging_align_address, paging_align_to_lower_page, paging_map_to}
use custom_peach_os.Elf.{Phdr, ElfFile, program_virtual_address, elf_phdr_phys_address}

abbrev pub user_program_stack_size : ℕ
user_program_stack_size = 1024 * 16

abbrev pub program_virtual_stack_address_end : ℕ
program_virtual_stack_address_end = 0x3f_f000 - user_program_stack_size

-- PAGING_IS_PRESENT, PAGING_ACCESS_FROM_ALL and PAGING_IS_WRITABLE.
abbrev pub is_present : ℕ
is_present = 0b001

abbrev pub access_from_all : ℕ
access_from_all = 0b100

abbrev pub is_writable : ℕ
is_writable = 0b010

abbrev pub pf_w : ℕ
pf_w = 0x02

pub data Image : Type 0 where
  elf : ElfFile → List Phdr → Image
  binary : (ptr size : ℕ) → Image

-- The result of the mapping is not passed on.
unfoldable pub process_map_binary : Words → ℕ → ℕ → ℕ → ℤ × Words
process_map_binary mem directory ptr size = (
  all_ok,
  (paging_map_to mem directory program_virtual_address ptr
      (paging_align_address ((ptr + size) % 2 ^ 32))
      (bit_or (bit_or is_present access_from_all) is_writable)).1,
)

abbrev pub segment_flags : Phdr → ℕ
segment_flags phdr =
    if not (bit_and phdr.p_flags pf_w == 0)
    then bit_or (bit_or is_present access_from_all) is_writable
    else bit_or is_present access_from_all

-- `res` is the last result.
unfoldable pub map_elf_loop : ℤ → Words → ℕ → ElfFile → List Phdr → ℤ × Words
map_elf_loop res mem directory file [] = (res, mem)
map_elf_loop res mem directory file (phdr ∷ phdrs) =
    let phys = elf_phdr_phys_address file phdr in
    let (res', mem') =
      paging_map_to mem directory (paging_align_to_lower_page phdr.p_vaddr)
        (paging_align_to_lower_page phys) (paging_align_address ((phys + phdr.p_memsz) % 2 ^ 32))
        (segment_flags phdr) in
    let rest = map_elf_loop res' mem' directory file phdrs in
    if is_neg res' then (res', mem') else rest

unfoldable pub process_map_elf : Words → ℕ → ElfFile → List Phdr → ℤ × Words
unfolding map_elf_loop
process_map_elf mem directory file phdrs = map_elf_loop all_ok mem directory file phdrs

unfoldable pub map_image : Words → ℕ → Image → ℤ × Words
unfolding process_map_binary process_map_elf
map_image mem directory (elf file phdrs) = process_map_elf mem directory file phdrs
map_image mem directory (binary ptr size) = process_map_binary mem directory ptr size

-- The result of mapping the stack is not passed on.
unfoldable pub process_map_memory : Words → ℕ → Image → ℕ → ℤ × Words
unfolding map_image
process_map_memory mem directory image stack =
    let (res, mem') = map_image mem directory image in
    if is_neg res then (res, mem') else (
      res,
      (paging_map_to mem' directory program_virtual_stack_address_end stack
          (paging_align_address ((stack + user_program_stack_size) % 2 ^ 32))
          (bit_or (bit_or is_present access_from_all) is_writable)).1,
    )
