-- ===== src/Kernel/Tests.antt =====
-- The kernel comes up on a disk with the first program in its root directory.
use custom_peach_os.Prelude.{ℕ, none, [], false, replicate}
use custom_peach_os.Files.{Files}
use custom_peach_os.Fat.Open.{FatFileDescriptor, Bound}
use custom_peach_os.Commands.Calls.{no_commands}
use custom_peach_os.Loader.Sample
use custom_peach_os.Process.Load.Sample.{no_processes, memory, from_disk}
use custom_peach_os.Kernel
use custom_peach_os.Kernel.{System, Answers}
use custom_peach_os.Heap.{Heap}

abbrev image : Kernel.Image
image = record {
  tss = 0x10_4000;
  interrupt_pointer_table = replicate 512 0x10_1000;
  idt_zero = 0x10_1100;
  isr80h_wrapper = 0x10_1200;
  keyboard_handler = 0x10_1300;
  print_buffer = 0x10_2000;
  flags = 2;
  esp = 0x1f_ffc0;
}

abbrev kzalloc : Heap → Answers
kzalloc h = record { room = memory; kernel_alloc = Sample.alloc; alloc = Sample.alloc }

abbrev kernel_heap : Heap
kernel_heap = record { entries = []; saddr = 0 }

abbrev bytes : ℕ → ℕ
bytes a = 0xff

abbrev unbooted : Files Bound FatFileDescriptor
unbooted = record { filesystems = []; descriptors = []; disk_filesystem = none; world = none }

abbrev off : System
off = record {
  screen = record { video_mem = λ p. 0; row = 0; col = 0 };
  gdt = [];
  idt = [];
  tss = record { esp0 = 0; ss0 = 0 };
  cpu = record { current_directory = 0; data_segment = 0x10 };
  paging = false;
  kernel_chunk = 0;
  commands = no_commands;
  drivers = [];
  hardware = record { callbacks = replicate 512 0; outputs = [] };
  loading = record from_disk { files = unbooted };
  processes = no_processes;
  current_process = 0;
}
