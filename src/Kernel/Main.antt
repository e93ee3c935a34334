-- ===== src/Kernel/Main.antt =====
-- `kernel_main` on a FAT16 drive that holds the first program, from power-on into that program.
use custom_peach_os.Prelude.{ℕ, ◌+◌, ◌≡◌, refl, Bool, some, [], ◌∷◌, ◌++◌, set, get_or}
use mathlib.Core.Path.{subst}
use custom_peach_os.Status.{all_ok}
use custom_peach_os.CString.{Bytes}
use custom_peach_os.Gdt.Decode.{AllRead}
use custom_peach_os.Heap.{Heap}
use custom_peach_os.Idt.{null_desc}
use custom_peach_os.Idt.Table.{handler}
use custom_peach_os.PathParser.RoundTrip.{path_of}
use custom_peach_os.Streamer.{Device}
use custom_peach_os.Fat.Open.{FatFileDescriptor, Bound}
use custom_peach_os.Commands.{isr80h_command1_print}
use custom_peach_os.Commands.Calls.{registered}
use custom_peach_os.Loader.{Contents}
use custom_peach_os.Task.Switch.{Running, Entered, task_run_first_ever_task}
use custom_peach_os.Task.Append.{IsTaskList}
use custom_peach_os.Process.{Processes, process_load_switch}
use custom_peach_os.Process.Mapping.{Image}
use custom_peach_os.Process.Mapping.Pages.{Shows}
use custom_peach_os.Process.Mapping.Whole.{process_view}
use custom_peach_os.Process.Load.{Loading, load_program}
use custom_peach_os.Process.Load.Enter.{Ready}
use custom_peach_os.Kernel
use custom_peach_os.Kernel.{System, gdt_structured, first_program, start}

-- The name of the first program.
abbrev pub blank_elf : Bytes
blank_elf = b'b' ∷ b'l' ∷ b'a' ∷ b'n' ∷ b'k' ∷ b'.' ∷ b'e' ∷ b'l' ∷ b'f' ∷ []

first_program_is : first_program ≡ path_of 0 (blank_elf ∷ []) ++ []
first_program_is = refl

-- The processor is in the program, and what is left behind in the kernel serves it.
pub record IsStarted (alloc : ℕ → ℕ) (image : Kernel.Image) (program : Image) (s s' : System)
    : Type 0 where
  pub segments : AllRead (gdt_structured image.tss) s'.gdt
  pub kernel_calls : handler (get_or s'.idt 0x80 null_desc) ≡ image.isr80h_wrapper
  pub commands : s'.commands ≡ registered (isr80h_command1_print image.print_buffer)
  pub keyboard : get_or s'.hardware.callbacks 0x21 0 ≡ image.keyboard_handler
  pub processes : s'.processes ≡ set s.processes 0 (alloc 3)
  pub current : s'.current_process ≡ alloc 3
  pub directory : s'.cpu.current_directory ≡ alloc 6
  pub pages :
      Shows (process_view (λ page. page + 5) program (alloc 4)) (alloc 6) (all_ok, s'.loading.pages)

-- What is asked for does not depend on the files, nor on the pages.
pub later :
    {alloc : ℕ → ℕ} {l l' : Loading Bound FatFileDescriptor} {ps : Processes} {image : Image}
    → l.tasks ≡ l'.tasks
    → Ready alloc l ps 0 image []
    → Ready alloc l' ps 0 image []
later same ready = record {
  length_ps = ready.length_ps;
  slot_in = ready.slot_in;
  slot_free = ready.slot_free;
  taken = ready.taken;
  process_block = ready.process_block;
  stack_block = ready.stack_block;
  stack_aligned = ready.stack_aligned;
  stack_fits = ready.stack_fits;
  task_block = ready.task_block;
  directory_block = ready.directory_block;
  pages = ready.pages;
  fits = ready.fits;
  tasks = subst (λ t. IsTaskList t []) same ready.tasks;
  new = ready.new;
}

module _ (dev : Device) (room : ℕ → Bool) (kernel_alloc alloc : ℕ → ℕ) (behind : Contents)
    (image : Kernel.Image) where
  start_of :
      (s : System) (loading : Loading Bound FatFileDescriptor) (ps : Processes) (current : ℕ)
      (entered : Entered) (r : Running)
      → process_load_switch
          (load_program alloc behind first_program)
          s.loading
          s.processes
          s.current_process
        ≡ some (all_ok, loading, ps, current)
      → task_run_first_ever_task image.flags image.esp
          (record { cpu = s.cpu; tasks = loading.tasks })
        ≡ some (entered, r)
      → start dev room kernel_alloc alloc behind image s
        ≡ some (
          entered,
          record s {
            cpu = r.cpu;
            loading = record loading { tasks = r.tasks };
            processes = ps;
            current_process = current;
          },
        )
  unfolding start
  start_of s loading ps current entered r a b = rw a (rw b refl)
