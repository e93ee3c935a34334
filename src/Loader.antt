-- ===== src/Loader.antt =====
-- Loading a program from a file: `elf_load` of src/loader/formats/elfloader.c, and the functions of
-- src/task/process.c that try it first. `alloc n` is the address that the call number `n` of
-- `kzalloc` gives, 0 if there is no memory, and `behind i` the byte at index `i` of the memory from
-- that address on, where the file that is read there has no such byte.
pub mod Table
pub mod Sample
pub mod Disk
mod Tests
use custom_peach_os.Prelude.{
  ℕ, zero, suc, ◌+◌, ◌*◌, ◌^◌, ◌%◌, Option, none, some, List, [], ◌∷◌, not, ◌==◌, if◌then◌else◌,
  get_elem?, Bool, false,
}
use custom_peach_os.Prelude.Int.{ℤ, pos, negsuc, is_neg, is_zero}
use custom_peach_os.Status.{all_ok, eio, enomem}
use custom_peach_os.CString.{Bytes}
use custom_peach_os.Files.{Files, fopen, fstat, fread, fclose}
use custom_peach_os.Elf.{ElfHeader, Phdr, ElfFile, elf_process_loaded}
use custom_peach_os.Process.Mapping.{Image, elf, binary}

-- The memory from the first byte of a file on.
abbrev pub Contents : Type 0
Contents = ℕ → ℕ

abbrev pub contents : List ℕ → Contents → Contents
contents out behind i = elim (get_elem? out i) [ none ↦ behind i | some b ↦ b ]

abbrev pub half_at : Contents → ℕ → ℕ
half_at bytes i = bytes i + bytes (i + 1) * 2 ^ 8

abbrev pub word_at : Contents → ℕ → ℕ
word_at bytes i = half_at bytes i + half_at bytes (i + 2) * 2 ^ 16

-- The fields at their places in a `struct elf_header`.
unfoldable pub elf_header : Contents → ElfHeader
elf_header bytes = record {
  e_ident = bytes 0 ∷ bytes 1 ∷ bytes 2 ∷ bytes 3 ∷ bytes 4 ∷ bytes 5 ∷ [];
  e_type = half_at bytes 16;
  e_entry = word_at bytes 24;
  e_phoff = word_at bytes 28;
}

unfoldable pub e_phnum : Contents → ℕ
e_phnum bytes = half_at bytes 44

-- The `struct elf32_phdr` at a place, which is an address of 32 bits.
unfoldable pub phdr_at : Contents → ℕ → Phdr
phdr_at bytes i = record {
  p_type = word_at bytes i;
  p_offset = word_at bytes (i + 4);
  p_vaddr = word_at bytes (i + 8);
  p_filesz = word_at bytes (i + 16);
  p_memsz = word_at bytes (i + 20);
  p_flags = word_at bytes (i + 24);
}

-- The program headers from a place on.
unfoldable pub elf_pheaders : Contents → (place rounds : ℕ) → List Phdr
unfolding phdr_at
elf_pheaders bytes place zero = []
elf_pheaders bytes place (suc rounds) =
    phdr_at bytes place ∷ elf_pheaders bytes ((place + 32) % 2 ^ 32) rounds

abbrev pub read_mode : Bytes
read_mode = b'r' ∷ []

-- A code, and the program where the code is 0.
abbrev pub Outcome : Type 0
Outcome = ℤ × Option Image

-- What `elf_load` does with the bytes of the file.
unfoldable pub elf_from : (ℕ → ℕ) → Contents → List ℕ → Outcome
unfolding elf_header e_phnum elf_pheaders
elf_from alloc behind out =
    let bytes = contents out behind in
    let header = elf_header bytes in
    let phdrs = elf_pheaders bytes header.e_phoff (e_phnum bytes) in
    let fresh : ElfFile = record {
      elf_memory = alloc 1;
      header = header;
      virtual_base_address = 0;
      virtual_end_address = 0;
      physical_base_address = 0;
      physical_end_address = 0;
    } in
    let (res, file) = elf_process_loaded fresh header phdrs in
    if is_neg res then (res, none) else (res, some (elf file phdrs))

-- `res == -EINFORMAT`
abbrev pub is_einformat : ℤ → Bool
is_einformat (pos n) = false
is_einformat (negsuc n) = n == 8

module _ {W P : Type 0} (alloc : ℕ → ℕ) (behind : Contents) where
  -- From `fstat` on, up to `out:`.
  unfoldable pub elf_load_open : Files W P → ℤ → Outcome × Files W P
  elf_load_open f fd =
      let (status, answer) = fstat f fd in
      elim answer [
        | none ↦ ((status, none), f)
        | some stat ↦
            let (res, out, f') = fread f stat.filesize 1 fd in
            if is_neg status
            then ((status, none), f)
            else (if is_neg res then ((res, none), f') else (elf_from alloc behind out, f'))
      ]

  -- The calls 0 and 1 of `kzalloc` are not tested; `none` is a fault of the path parser.
  unfoldable pub elf_load : Files W P → Bytes → Option (Outcome × Files W P)
  unfolding elf_load_open
  elf_load f filename = elim (fopen f filename read_mode) [
    | none ↦ none
    | some (negsuc e, f1) ↦ some ((negsuc e, none), (fclose f1 (pos 0)).1)
    | some (pos fd, f1) ↦
        let (outcome, f2) = elf_load_open f1 (pos fd) in some (outcome, (fclose f2 (pos fd)).1)
  ]

  -- From `fstat` on, up to `out:`; `n` is the number of the call of `kzalloc`.
  unfoldable pub load_binary_open : ℕ → Files W P → ℤ → Outcome × Files W P
  load_binary_open n f fd =
      let (status, answer) = fstat f fd in
      elim answer [
        | none ↦ ((status, none), f)
        | some stat ↦
            let (count, out, f') = fread f stat.filesize 1 fd in
            if not (is_zero status)
            then ((status, none), f)
            else (if alloc n == 0 then ((enomem, none), f) else elim count [
              | negsuc e ↦ ((eio, none), f')
              | pos c ↦
                  if c == 1
                  then ((all_ok, some (binary (alloc n) stat.filesize)), f')
                  else ((eio, none), f')
            ])
      ]

  unfoldable pub process_load_binary : ℕ → Files W P → Bytes → Option (Outcome × Files W P)
  unfolding load_binary_open
  process_load_binary n f filename = elim (fopen f filename read_mode) [
    | none ↦ none
    | some (fd, f1) ↦
        let (outcome, f2) = load_binary_open n f1 fd in
        if is_zero fd
        then some ((eio, none), (fclose f1 fd).1)
        else some (outcome, (fclose f2 fd).1)
  ]

  unfoldable pub process_load_data : Files W P → Bytes → Option (Outcome × Files W P)
  unfolding elf_load process_load_binary
  process_load_data f filename = elim (elf_load f filename) [
    | none ↦ none
    | some (outcome, f') ↦
        if is_einformat outcome.0 then process_load_binary 2 f' filename else some (outcome, f')
  ]
