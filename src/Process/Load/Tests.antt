-- ===== src/Process/Load/Tests.antt =====
-- Programs that are loaded into the first slot: the one of Loader.Sample, and one from a FAT16 disk.
use custom_peach_os.Prelude.{ℕ, ◌+◌, ◌≡◌, refl, some, [], ◌∷◌, ◌++◌, arith, set, bit_or}
use custom_peach_os.Status.{all_ok}
use custom_peach_os.PathParser.RoundTrip.{path_of}
use custom_peach_os.Fat.Disk.{header_of, fat16_init_private}
use custom_peach_os.Fat.Disk.Resolve.{resolved}
use custom_peach_os.Fat.Clusters.{fat16_get_first_cluster}
use custom_peach_os.Fat.Open.{FatFileDescriptor, Bound}
use custom_peach_os.Task.Switch.{task_run_first_ever_task}
use custom_peach_os.Loader.{contents, word_at}
use custom_peach_os.Loader.Disk.{file_bytes}
use custom_peach_os.Loader.Sample
use custom_peach_os.Process.{process_load, process_load_switch}
use custom_peach_os.Process.Mapping.{Image, binary}
use custom_peach_os.Process.Mapping.Pages.{Shows}
use custom_peach_os.Process.Mapping.Whole.{process_view}
use custom_peach_os.Process.Load.{Loading, blank_process, load_program}
use custom_peach_os.Process.Load.Steps.{started}
use custom_peach_os.Process.Load.Enter.{
  Ready, IsLoaded, process_load-IsLoaded, process_load_switch-enters,
}
use custom_peach_os.Process.Load.FromDisk.{process_load_switch-from_disk}
use custom_peach_os.Process.Load.Sample.{
  no_tasks, no_processes, elf_disk, memory, fat, name, blank_elf, accepted, stored, from_disk,
  from_disk-Ready,
}

-- The program of Loader.Sample is loaded into the first slot.
abbrev at_start : Loading ℕ ℕ
at_start = record {
  files = Sample.idle;
  pages = λ a. 0;
  tasks = no_tasks;
  store = λ a. blank_process;
  freed = [];
}

abbrev program : Image
program = binary 0x0100_8000 3

at_start-Ready : Ready Sample.alloc at_start no_processes 0 program []
at_start-Ready = record {
  length_ps = refl;
  slot_in = omega arith;
  slot_free = refl;
  taken = λ j lt. absurd (omega arith);
  process_block = λ e. omega (arith, e);
  stack_block = λ e. omega (arith, e);
  stack_aligned = refl;
  stack_fits = omega arith;
  task_block = λ e. omega (arith, e);
  directory_block = λ e. omega (arith, e);
  pages = from_disk-Ready.pages;
  fits = record { aligned = refl; in_memory = omega arith; in_space = omega arith };
  tasks = from_disk-Ready.tasks;
  new = tt;
}

process_load-IsLoaded_example :
    (s' : Loading ℕ ℕ) × (process_load
        (load_program Sample.alloc Sample.zeros Sample.path)
        at_start
        no_processes
      ≡ some (all_ok, some (Sample.alloc 3), s', set no_processes 0 (Sample.alloc 3)))
    × IsLoaded Sample.alloc at_start s' Sample.idle Sample.path 0 program []
process_load-IsLoaded_example =
    process_load-IsLoaded Sample.alloc Sample.zeros Sample.path at_start no_processes 0 program []
      Sample.idle at_start-Ready Sample.loads_binary

enters_program :
    (s' : Loading ℕ ℕ) × (process_load_switch
        (load_program Sample.alloc Sample.zeros Sample.path)
        at_start
        no_processes
        0
      ≡ some (all_ok, s', set no_processes 0 (Sample.alloc 3), Sample.alloc 3))
    × (task_run_first_ever_task 2 0x1f_ffc0 (record {
      cpu = record { current_directory = 0x5000; data_segment = 0x10 };
      tasks = s'.tasks;
    })
        ≡ some (
          record {
            registers = record (started 0x40_0000) { flags = bit_or 2 0x200; ebp = 0x1f_ffc0 };
            data_segment = 0x23;
          },
          record {
            cpu = record { current_directory = Sample.alloc 6; data_segment = 0x10 };
            tasks = s'.tasks;
          },
        ))
    × Shows
        (process_view (λ page. page + 5) program (Sample.alloc 4))
        (Sample.alloc 6)
        (all_ok, s'.pages)
enters_program =
    process_load_switch-enters Sample.alloc Sample.zeros Sample.path at_start no_processes 0 2
      0x1f_ffc0 (record { current_directory = 0x5000; data_segment = 0x10 }) program Sample.idle
      at_start-Ready Sample.loads_binary

process_load_switch-from_disk_example :
    (s' : Loading Bound FatFileDescriptor) × (process_load_switch
        (load_program Sample.alloc Sample.zeros (path_of 0 (name ∷ []) ++ []))
        from_disk
        no_processes
        0
      ≡ some (all_ok, s', set no_processes 0 (Sample.alloc 3), Sample.alloc 3))
    × (task_run_first_ever_task 2 0x1f_ffc0 (record {
      cpu = record { current_directory = 0x5000; data_segment = 0x10 };
      tasks = s'.tasks;
    })
        ≡ some (
          record {
            registers =
                record (started (word_at (contents (file_bytes elf_disk fat 0) Sample.zeros) 24)) {
                  flags = bit_or 2 0x200;
                  ebp = 0x1f_ffc0;
                };
            data_segment = 0x23;
          },
          record {
            cpu = record { current_directory = Sample.alloc 6; data_segment = 0x10 };
            tasks = s'.tasks;
          },
        ))
    × Shows
        (process_view (λ page. page + 5) blank_elf (Sample.alloc 4))
        (Sample.alloc 6)
        (all_ok, s'.pages)
process_load_switch-from_disk_example =
    process_load_switch-from_disk Sample.alloc Sample.zeros elf_disk memory fat name [] 0 0
      from_disk no_processes 0 2 0x1f_ffc0
      (record { current_directory = 0x5000; data_segment = 0x10 }) blank_elf (stored []) accepted
      from_disk-Ready

-- The entry that is in the file.
entered_at : word_at (contents (file_bytes elf_disk fat 0) Sample.zeros) 24 ≡ 0x40_0000
unfolding header_of fat16_init_private resolved fat16_get_first_cluster
entered_at = refl
