-- ===== src/Process/Load/FromDisk.antt =====
-- A program from a FAT16 disk, up to its first instruction: the path parser, Files, Fat and Streamer,
-- the ELF loader, the new process and task with their pages, and the task switch.
use custom_peach_os.Prelude.{
  ℕ, ◌+◌, ◌≡◌, refl, ap, ◌∙◌, Bool, none, some, List, [], ◌∷◌, ◌++◌, arith, set, bit_or,
  if◌then◌else◌, Bool-cases, inl, inr,
}
use mathlib.Core.Path.{subst}
use custom_peach_os.Prelude.Int.{ℤ, is_neg}
use custom_peach_os.Status.{all_ok}
use custom_peach_os.CString.{Bytes}
use custom_peach_os.PathParser.RoundTrip.{path_of}
use custom_peach_os.Streamer.{Device}
use custom_peach_os.Fat.Disk.{Fat}
use custom_peach_os.Fat.Open.{FatFileDescriptor, Bound}
use custom_peach_os.Elf.{
  Phdr, ElfFile, ElfHeader, elf_process_phdr_pt_load, elf_process_pheader, elf_process_pheaders,
  elf_process_loaded,
}
use custom_peach_os.Loader.{
  Contents, Outcome, contents, word_at, elf_header, e_phnum, elf_pheaders, elf_from, is_einformat,
}
use custom_peach_os.Loader.Disk.{IsStored, file_bytes, process_load_data-file_bytes}
use custom_peach_os.Task.Switch.{Cpu, task_run_first_ever_task}
use custom_peach_os.Process.{Processes, process_load_switch}
use custom_peach_os.Process.Mapping.{Image, elf}
use custom_peach_os.Process.Mapping.Pages.{Shows}
use custom_peach_os.Process.Mapping.Whole.{process_view}
use custom_peach_os.Process.Load.{Loading, load_program}
use custom_peach_os.Process.Load.Steps.{entry_point, started}
use custom_peach_os.Process.Load.Enter.{Ready, process_load_switch-enters}

pheader-header :
    (file : ElfFile) (phdr : Phdr) → (elf_process_pheader file phdr).1.header ≡ file.header
unfolding elf_process_pheader elf_process_phdr_pt_load
pheader-header file phdr = ground arith

pheaders-header :
    (phdrs : List Phdr) (file : ElfFile) → (elf_process_pheaders file phdrs).1.header ≡ file.header
unfolding elf_process_pheaders
pheaders-header [] file = refl
pheaders-header (phdr ∷ phdrs) file =
    ground
      (arith, pheader-header file phdr, pheaders-header phdrs (elf_process_pheader file phdr).1)

loaded-header :
    (file : ElfFile) (header : ElfHeader) (phdrs : List Phdr)
    → (elf_process_loaded file header phdrs).1.header ≡ file.header
unfolding elf_process_loaded
loaded-header file header phdrs = ground (arith, pheaders-header phdrs file)

-- The outcome of processing a file.
outcome_of : ℤ × ElfFile → List Phdr → Outcome
outcome_of r phdrs = if is_neg r.0 then (r.0, none) else (r.0, some (elf r.1 phdrs))

outcome-entry :
    (r : ℤ × ElfFile) (phdrs : List Phdr) (image : Image)
    → outcome_of r phdrs ≡ (all_ok, some image)
    → entry_point image ≡ r.1.header.e_entry
unfolding outcome_of
outcome-entry r phdrs image e = elim (Bool-cases (is_neg r.0)) [
  | inl bad ↦ absurd (ground arith)
  | inr ok ↦
      let same : elf r.1 phdrs ≡ image = ground arith in
      subst (λ q. entry_point q ≡ r.1.header.e_entry) same refl
]

-- An accepted file is entered where its header says.
elf_from-entry :
    (alloc : ℕ → ℕ) (behind : Contents) (out : Bytes) (image : Image)
    → elf_from alloc behind out ≡ (all_ok, some image)
    → entry_point image ≡ word_at (contents out behind) 24
unfolding elf_from outcome_of elf_header
elf_from-entry alloc behind out image e =
    let bytes = contents out behind in
    let header = elf_header bytes in
    let phdrs = elf_pheaders bytes header.e_phoff (e_phnum bytes) in
    let fresh : ElfFile = record {
      elf_memory = alloc 1;
      header = header;
      virtual_base_address = 0;
      virtual_end_address = 0;
      physical_base_address = 0;
      physical_end_address = 0;
    } in
    outcome-entry (elf_process_loaded fresh header phdrs) phdrs image e
    ∙ ap (λ (h : ElfHeader). h.e_entry) (loaded-header fresh header phdrs)

-- With no task yet and slot 0 of the processes free, let a program be stored in the root directory
-- of the FAT16 disk, in one cluster, with memory and room for all that is asked for, and let its
-- bytes on the disk be those of an ELF file that is accepted and whose parts fit into the address
-- space. Then `process_load_switch` of its path terminates and returns 0 with the new process in
-- slot 0 as the current one, and `task_run_first_ever_task` after it leaves the kernel for the
-- program: at the address in the header at byte 24 of the file on the disk, with the segments of
-- the user, the stack at 0x3ff000, EBP the stack pointer that `task_return` was entered with, the
-- other registers 0 and the kernel's flags with interrupts allowed. The directory that is loaded is
-- that of the task, in whose pages the segments of the file and the stack are mapped.
pub process_load_switch-from_disk :
    (alloc : ℕ → ℕ) (behind : Contents) (dev : Device) (room : ℕ → Bool) (fat : Fat)
    (name e : Bytes) (k i : ℕ) (s : Loading Bound FatFileDescriptor) (ps : Processes)
    (current kernel_flags kernel_esp : ℕ) (cpu : Cpu) (image : Image)
    → IsStored dev room s.files fat name e k i
    → elf_from alloc behind (file_bytes dev fat k) ≡ (all_ok, some image)
    → Ready alloc s ps 0 image []
    → (s' : Loading Bound FatFileDescriptor) × (process_load_switch
          (load_program alloc behind (path_of 0 (name ∷ []) ++ e))
          s
          ps
          current
        ≡ some (all_ok, s', set ps 0 (alloc 3), alloc 3))
      × (task_run_first_ever_task kernel_flags kernel_esp (record { cpu = cpu; tasks = s'.tasks })
          ≡ some (
            record {
              registers = record (started (word_at (contents (file_bytes dev fat k) behind) 24)) {
                flags = bit_or kernel_flags 0x200;
                ebp = kernel_esp;
              };
              data_segment = 0x23;
            },
            record { cpu = record cpu { current_directory = alloc 6 }; tasks = s'.tasks },
          ))
      × Shows (process_view (λ page. page + 5) image (alloc 4)) (alloc 6) (all_ok, s'.pages)
process_load_switch-from_disk alloc behind dev room fat name e k i s ps current kernel_flags
      kernel_esp cpu image stored accepted ready =
    let (files, found, same) =
      process_load_data-file_bytes alloc behind dev room s.files fat name e k i stored
        (ap (λ (o : Outcome). is_einformat o.0) accepted) in
    let (s', loads, enters, pages) =
      process_load_switch-enters alloc behind (path_of 0 (name ∷ []) ++ e) s ps current kernel_flags
        kernel_esp cpu image files ready (found ∙ ap (λ o. some (o, files)) accepted) in
    (
      s',
      loads,
      enters
          ∙ ap
              (λ (ip : ℕ). some (
                record {
                  registers = record (started ip) {
                    flags = bit_or kernel_flags 0x200;
                    ebp = kernel_esp;
                  };
                  data_segment = 0x23;
                },
                record { cpu = record cpu { current_directory = alloc 6 }; tasks = s'.tasks },
              ))
              (elf_from-entry alloc behind (file_bytes dev fat k) image accepted),
      pages,
    )
