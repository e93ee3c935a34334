-- ===== src/Process/Load/Sample.antt =====
-- A FAT16 disk with a program in its root directory, for the runs.
use custom_peach_os.Prelude.{
  ℕ, zero, suc, ◌+◌, ◌-◌, ◌%◌, ◌<◌, ◌≡◌, ◌≢◌, refl, inl, Bool, true, Option, none, some, List, [],
  ◌∷◌, ◌++◌, arith, replicate, get_or, leb, ◌||◌, ◌==◌, if◌then◌else◌,
}
use custom_peach_os.Status.{all_ok}
use custom_peach_os.CString.{Bytes, strlen, istrncmp, tolower}
use custom_peach_os.PathParser.Parts.{AllParts}
use custom_peach_os.Streamer.{Device}
use custom_peach_os.Streamer.Read.{IsDrive}
use custom_peach_os.Files.{FileSystem, Files, free_slot}
use custom_peach_os.Fat.Disk.{Fat, header_of, fat16_init_private}
use custom_peach_os.Fat.Disk.Resolve.{resolved}
use custom_peach_os.Fat.Clusters.{fat16_get_first_cluster}
use custom_peach_os.Fat.Directory.{fat16_to_proper_string, fat16_get_full_relative_filename}
use custom_peach_os.Fat.Directory.Search.{HasName}
use custom_peach_os.Fat.Open.{FatFileDescriptor, Bound, fat16_init}
use custom_peach_os.Fat.Open.Lookup.{HasFile}
use custom_peach_os.Elf.{
  elf_phdr_phys_address, elf_validate_loaded, elf_process_phdr_pt_load, elf_process_pheader,
  elf_process_pheaders, elf_process_loaded,
}
use custom_peach_os.Task.{Tasks, zeroed}
use custom_peach_os.Loader.{elf_header, e_phnum, phdr_at, elf_pheaders, elf_from}
use custom_peach_os.Loader.Disk.{IsStored, file_bytes}
use custom_peach_os.Loader.Sample
use custom_peach_os.Process.{Processes}
use custom_peach_os.Process.Mapping.{Image, elf}
use custom_peach_os.Process.Load.{Loading, blank_process}
use custom_peach_os.Process.Load.Enter.{Ready}

abbrev pub no_tasks : Tasks
no_tasks = record {
  store = λ a. record { page_directory = 0; registers = zeroed; process = 0; next = 0; prev = 0 };
  task_head = 0;
  task_tail = 0;
  current_task = 0;
}

abbrev pub no_processes : Processes
no_processes = replicate 12 0

-- An ELF file of 84 bytes: the header, and the header of one segment, the file itself at 0x400000.
abbrev elf_bytes : Bytes
elf_bytes =
    0x7f
    ∷ b'E'
    ∷ b'L'
    ∷ b'F'
    ∷ 1
    ∷ 1
    ∷ (replicate 10 0
        ++ 2
          ∷ (replicate 9 0
              ++ 0x40
                ∷ 0
                ∷ 52
                ∷ (replicate 15 0
                    ++ 1
                      ∷ (replicate 7 0
                          ++ 1
                            ∷ (replicate 9 0
                                ++ 0x40
                                  ∷ (replicate 5 0
                                      ++ 84 ∷ 0 ∷ 0 ∷ 0 ∷ 84 ∷ 0 ∷ 0 ∷ 0 ∷ 5 ∷ replicate 7 0))))))

-- One sector per cluster, one reserved sector, one table of one sector, 16 items in the root
-- directory; there the file BLANK.ELF, in cluster 2.
abbrev item_bytes : Bytes
item_bytes =
    b'B'
    ∷ b'L'
    ∷ b'A'
    ∷ b'N'
    ∷ b'K'
    ∷ (replicate 3 0x20
        ++ b'E' ∷ b'L' ∷ b'F' ∷ 0x20 ∷ (replicate 14 0 ++ 2 ∷ 0 ∷ 84 ∷ 0 ∷ 0 ∷ 0 ∷ []))

abbrev pub disk_byte : ℕ → ℕ
disk_byte p =
    if p == 13 || p == 14 || p == 16 || p == 22
    then 1
    else if p == 17
    then 16
    else if p == 38
    then 0x29
    else if leb 1536 p
    then get_or elf_bytes (p - 1536) 0
    else if leb 1024 p
    then get_or item_bytes (p - 1024) 0
    else 0

abbrev pub elf_disk : Device
elf_disk p = disk_byte p % 256

pub elf_disk-IsDrive : IsDrive elf_disk
elf_disk-IsDrive p = omega arith

abbrev pub memory : ℕ → Bool
memory n = true

abbrev pub fat : Fat
fat = resolved elf_disk memory 0 1

abbrev pub name : Bytes
name = b'b' ∷ b'l' ∷ b'a' ∷ b'n' ∷ b'k' ∷ b'.' ∷ b'e' ∷ b'l' ∷ b'f' ∷ []

abbrev full : Bytes
full = b'B' ∷ b'L' ∷ b'A' ∷ b'N' ∷ b'K' ∷ b'.' ∷ b'E' ∷ b'L' ∷ b'F' ∷ replicate 99 0x00

-- The table of filesystems.
abbrev pub Slots : Type 0
Slots = List (Option (FileSystem Bound FatFileDescriptor))

abbrev pub booted : Slots → Files Bound FatFileDescriptor
booted slots = record {
  filesystems = slots;
  descriptors = replicate 512 none;
  disk_filesystem = some (fat16_init elf_disk memory);
  world = some fat;
}

it : HasName fat.root_directory.items name 0
unfolding header_of fat16_init_private resolved fat16_get_full_relative_filename
    fat16_to_proper_string istrncmp tolower
it = record { full = full; reads = refl; same = refl }

has_file : HasFile fat name 0
unfolding header_of fat16_init_private resolved
has_file = record {
  total = 1;
  counts = refl;
  inside = omega arith;
  it = it;
  others = λ j ne lt. absurd (omega (arith, ne_zero j ne lt));
  plain = refl;
}
  where
    ne_zero : (j : ℕ) → j ≢ 0 → j < 1 → 0 < 0
    ne_zero zero ne lt = absurd (ne refl)
    ne_zero (suc j) ne lt = absurd (omega arith)

name-AllParts : AllParts (name ∷ [])
name-AllParts = ground arith

pub stored : (slots : Slots) → IsStored elf_disk memory (booted slots) fat name [] 0 0
unfolding header_of fat16_init_private resolved strlen free_slot fat16_get_first_cluster
stored slots = record {
  drive = elf_disk-IsDrive;
  bound = refl;
  state = refl;
  part = name-AllParts;
  trails = inl refl;
  path_fits = omega arith;
  has = has_file;
  memory = λ j lt. refl;
  free = refl;
  not_last = omega arith;
  disk = refl;
  data_cluster = omega arith;
  cluster_small = omega arith;
  some_byte = omega arith;
  inside = omega arith;
  low = omega arith;
}

abbrev pub blank_elf : Image
blank_elf =
    elf
      (record {
        elf_memory = Sample.alloc 1;
        header = record {
          e_ident = 0x7f ∷ b'E' ∷ b'L' ∷ b'F' ∷ 1 ∷ 1 ∷ [];
          e_type = 2;
          e_entry = 0x40_0000;
          e_phoff = 52;
        };
        virtual_base_address = 0x40_0000;
        virtual_end_address = 0x40_0054;
        physical_base_address = Sample.alloc 1;
        physical_end_address = Sample.alloc 1 + 84;
      })
      (record {
        p_type = 1;
        p_offset = 0;
        p_vaddr = 0x40_0000;
        p_filesz = 84;
        p_memsz = 84;
        p_flags = 5;
      }
        ∷ [])

pub accepted :
    elf_from Sample.alloc Sample.zeros (file_bytes elf_disk fat 0) ≡ (all_ok, some blank_elf)
unfolding header_of fat16_init_private resolved fat16_get_first_cluster elf_from elf_header e_phnum
    phdr_at elf_pheaders elf_process_loaded elf_validate_loaded elf_process_pheaders
    elf_process_pheader elf_process_phdr_pt_load
accepted = refl

abbrev pub from_disk : Loading Bound FatFileDescriptor
from_disk = record {
  files = booted [];
  pages = λ a. 0;
  tasks = no_tasks;
  store = λ a. blank_process;
  freed = [];
}

pub from_disk-Ready : Ready Sample.alloc from_disk no_processes 0 blank_elf []
unfolding elf_phdr_phys_address
from_disk-Ready = record {
  length_ps = refl;
  slot_in = omega arith;
  slot_free = refl;
  taken = λ j lt. absurd (omega arith);
  process_block = λ e. omega (arith, e);
  stack_block = λ e. omega (arith, e);
  stack_aligned = refl;
  stack_fits = omega arith;
  task_block = λ e. omega (arith, e);
  directory_block = λ e. omega (arith, e);
  pages = record {
    aligned = λ n le. omega arith;
    below = λ n le. omega arith;
    distinct = λ n m le le' e. omega (arith, e);
  };
  fits = (record { in_memory = omega arith; in_space = omega arith }, tt);
  tasks = record { head_first = refl; tail_last = refl; linked = tt; distinct = tt };
  new = tt;
}
