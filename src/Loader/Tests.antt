-- ===== src/Loader/Tests.antt =====
-- A load from a filesystem with one file.
use custom_peach_os.Prelude.{ℕ, ◌≡◌, some, length-replicate}
use custom_peach_os.Files.{Files}
use custom_peach_os.Loader.{Outcome, process_load_data}
use custom_peach_os.Loader.Table.{Returned, process_load_data-Returned}
use custom_peach_os.Loader.Sample.{no_descriptor, idle, path, alloc, zeros}

process_load_data-Returned_example :
    (outcome : Outcome) × (f' : Files ℕ ℕ) × (between : Files ℕ ℕ) × (process_load_data alloc zeros
        idle path
      ≡ some (outcome, f'))
    × Returned idle.descriptors between
    × Returned between.descriptors f'
process_load_data-Returned_example =
    process_load_data-Returned alloc zeros idle path (length-replicate 512 no_descriptor)
