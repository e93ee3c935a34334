-- ===== src/Kernel.antt =====
-- `kernel_main` of src/kernel.c: the parts of the kernel are set up in order, and the first program is
-- loaded and entered. What the parts need of the machine is a parameter: the drive, the memory that
-- `kzalloc` finds, and the addresses of handlers. `none` is a panic or a fault.
pub mod SetUp
pub mod Main
mod Tests
use custom_peach_os.Prelude.{
  ℕ, ◌+◌, ◌*◌, Bool, true, not, Option, none, some, List, [], ◌∷◌, if◌then◌else◌,
}
use custom_peach_os.Prelude.Int.{ℤ, is_zero}
use custom_peach_os.CString.{Bytes}
use custom_peach_os.Heap.{Heap, kheap_init}
use custom_peach_os.Terminal.{Terminal, terminal_init}
use custom_peach_os.Gdt.{GdtStructured, Target, gdt_structured_to_gdt}
use custom_peach_os.Idt.{IdtDesc, idt_init}
use custom_peach_os.Keyboard.Drivers.{Driver, Hardware, keyboard_init}
use custom_peach_os.Streamer.{Device}
use custom_peach_os.Files.{Files, fs_init, disk_search_and_init}
use custom_peach_os.Fat.Open.{FatFileDescriptor, Bound, fat16_init}
use custom_peach_os.Paging.Chunk.{paging_new_4gb}
use custom_peach_os.Task.Switch.{Cpu, paging_switch, Running, Entered, task_run_first_ever_task}
use custom_peach_os.Commands.{Commands, isr80h_command1_print, isr80h_register_commands}
use custom_peach_os.Process.{Processes, process_load_switch}
use custom_peach_os.Process.Load.{Loading, load_program}
use custom_peach_os.Loader.{Contents}

-- The addresses that the linker gives, and the flags of the processor and the stack pointer with which
-- `task_return` is entered.
pub record Image : Type 0 where
  pub tss : ℕ
  pub interrupt_pointer_table : List ℕ
  pub idt_zero : ℕ
  pub isr80h_wrapper : ℕ
  pub keyboard_handler : ℕ
  pub print_buffer : ℕ
  pub flags : ℕ
  pub esp : ℕ

-- What the calls of `kzalloc` answer: whether those of Fat find memory, and the addresses that those of
-- the kernel's page tables and of the loading of a program give.
pub record Answers : Type 0 where
  pub room : ℕ → Bool
  pub kernel_alloc : ℕ → ℕ
  pub alloc : ℕ → ℕ

-- Where the processor finds the kernel's stack when a program is interrupted.
pub record Tss : Type 0 where
  pub esp0 : ℕ
  pub ss0 : ℕ

pub record System : Type 0 where
  pub screen : Terminal
  pub gdt : List Target
  pub idt : List IdtDesc
  pub tss : Tss
  pub cpu : Cpu
  pub paging : Bool
  pub kernel_chunk : ℕ
  pub commands : Commands
  pub drivers : List Driver
  pub hardware : Hardware
  pub loading : Loading Bound FatFileDescriptor
  pub processes : Processes
  pub current_process : ℕ

abbrev pub gdt_structured : (tss : ℕ) → List GdtStructured
gdt_structured tss =
    record { base = 0x0; limit = 0x00; type = 0x00 }
    ∷ record { base = 0x0; limit = 0xffff_ffff; type = 0x9a }
    ∷ record { base = 0x0; limit = 0xffff_ffff; type = 0x92 }
    ∷ record { base = 0x0; limit = 0xffff_ffff; type = 0xf8 }
    ∷ record { base = 0x0; limit = 0xffff_ffff; type = 0xf2 }
    ∷ record { base = tss; limit = 100; type = 0xe9 }
    ∷ []

-- "0:/blank.elf"
abbrev pub first_program : Bytes
first_program =
    b'0' ∷ 0x3a ∷ b'/' ∷ b'b' ∷ b'l' ∷ b'a' ∷ b'n' ∷ b'k' ∷ b'.' ∷ b'e' ∷ b'l' ∷ b'f' ∷ []

infixl 5 ◌>>=◌
abbrev pub ◌>>=◌ : {A B : Type 0} → Option A → (A → Option B) → Option B
none >>= k = none
some a >>= k = k a

module _ (dev : Device) (room : ℕ → Bool) (kernel_alloc alloc : ℕ → ℕ) (behind : Contents)
    (image : Image) where
  -- Up to the loading of the first program, but for the heap.
  unfoldable pub set_up : System → Option System
  set_up s = do
    gdt ← gdt_structured_to_gdt (gdt_structured image.tss)
    files ← fs_init s.loading.files (fat16_init dev room)
    let made = paging_new_4gb kernel_alloc 0b111 s.loading.pages
    commands ← isr80h_register_commands (isr80h_command1_print image.print_buffer) s.commands
    let keyboards = keyboard_init image.keyboard_handler s.drivers s.hardware
    some (record s {
      screen = terminal_init s.screen;
      gdt = gdt;
      idt = idt_init image.interrupt_pointer_table image.idt_zero image.isr80h_wrapper;
      tss = record { esp0 = 0x60_0000; ss0 = 0x10 };
      cpu = paging_switch s.cpu made.1;
      paging = true;
      kernel_chunk = made.1;
      commands = commands;
      drivers = keyboards.0;
      hardware = keyboards.1;
      loading = record (s.loading) { files = disk_search_and_init none files; pages = made.0 };
    })

  -- The loading of the first program, and the jump into it.
  unfoldable pub start : System → Option (Entered × System)
  start s = do
    loaded ←
        process_load_switch (load_program alloc behind first_program) s.loading s.processes
          s.current_process
    if not (is_zero loaded.0) then none else (do
      entered ←
          task_run_first_ever_task image.flags image.esp
            (record { cpu = s.cpu; tasks = (loaded.1).tasks })
      some (
        entered.0,
        record s {
          cpu = (entered.1).cpu;
          loading = record (loaded.1) { tasks = (entered.1).tasks };
          processes = loaded.2;
          current_process = loaded.3;
        },
      ))

-- `kzalloc` says what its calls answer on the heap that `kheap_init` leaves; it is made before any of
-- them. `kernel_heap` and `memory` are what stands in memory before.
unfoldable pub answers : (kzalloc : Heap → Answers) (kernel_heap : Heap) (memory : ℕ → ℕ) → Answers
answers kzalloc kernel_heap memory = kzalloc (kheap_init kernel_heap memory).1

unfoldable pub kernel_main :
    (dev : Device) (behind : Contents) (image : Image) (kzalloc : Heap → Answers)
    (kernel_heap : Heap) (memory : ℕ → ℕ)
    → System
    → Option (Entered × System)
unfolding set_up start answers
kernel_main dev behind image kzalloc kernel_heap memory s =
    let a = answers kzalloc kernel_heap memory in
    set_up dev a.room a.kernel_alloc a.alloc behind image s
    >>= start dev a.room a.kernel_alloc a.alloc behind image
