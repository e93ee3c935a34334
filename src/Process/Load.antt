-- ===== src/Process/Load.antt =====
-- Loading a program into a new process with a task of its own: `task_new` and `task_free` of
-- src/task/task.c, and `process_load_for_slot` of src/task/process.c behind its first test.
-- `alloc n` is the address that the place number `n` of the code gets from `kzalloc`, 0 if there is no
-- memory: 0 to 2 are those of Loader, 3 is the process, 4 its stack and 5 its task; from 6 on are the
-- directory, the tables and the structure of `paging_new_4gb`. `none` is a fault.
pub mod Steps
pub mod Enter
pub mod FromDisk
pub mod Sample
mod Tests
use custom_peach_os.Prelude.{
  ℕ, ◌+◌, ◌%◌, ◌^◌, Option, none, some, List, [], ◌∷◌, ◌++◌, ◌==◌, if◌then◌else◌, replicate,
}
use custom_peach_os.Prelude.Int.{ℤ, pos, is_neg}
use custom_peach_os.Status.{all_ok, enomem}
use custom_peach_os.CString.{Bytes, strncpy}
use custom_peach_os.Keyboard.{KeyboardBuffer}
use custom_peach_os.Files.{Files}
use custom_peach_os.Paging.{Words}
use custom_peach_os.Paging.Chunk.{paging_new_4gb, paging_free_4gb}
use custom_peach_os.Task.{Task, Tasks, write, task_init, task_link, task_list_remove}
use custom_peach_os.Process.{Allocations}
use custom_peach_os.Process.Mapping.{Image, elf, binary, process_map_memory}
use custom_peach_os.Loader.{Contents, process_load_data}

-- `image` is `filetype`, the union and `size`; `none` is what `process_init` leaves there.
pub record Process : Type 0 where
  pub id : ℕ
  pub filename : Bytes
  pub task : ℕ
  pub allocations : Allocations
  pub image : Option Image
  pub stack : ℕ
  pub keyboard : KeyboardBuffer

-- `process_init`
abbrev pub blank_process : Process
blank_process = record {
  id = 0;
  filename = replicate 108 0;
  task = 0;
  allocations = replicate 1024 0;
  image = none;
  stack = 0;
  keyboard = record { buffer = replicate 1024 0; tail = 0; head = 0 };
}

-- The open files, the memory of the page tables, the tasks, the `struct process` at each address, and
-- the addresses that have been given to `kfree`.
pub record Loading (W P : Type 0) : Type 0 where
  pub files : Files W P
  pub pages : Words
  pub tasks : Tasks
  pub store : ℕ → Process
  pub freed : List ℕ

-- `elf_header(process->elf_file)->e_entry` for an ELF file.
abbrev pub elf_entry : Image → Option ℕ
elf_entry (elf file phdrs) = some file.header.e_entry
elf_entry (binary ptr size) = none

module _ {W P : Type 0} where
  abbrev pub put_process : Loading W P → ℕ → Process → Loading W P
  put_process s p process = record s { store = λ a. if a == p then process else s.store a }

  -- `chunk` is the address of the structure that points to the task's directory.
  unfoldable pub task_free : Loading W P → (chunk task : ℕ) → Loading W P
  task_free s chunk task = record s {
    tasks = task_list_remove s.tasks task;
    freed =
        s.freed ++ paging_free_4gb s.pages (s.tasks.store task).page_directory chunk ++ task ∷ [];
  }

module _ {W P : Type 0} (alloc : ℕ → ℕ) (behind : Contents) where
  -- `made` is what `paging_new_4gb` returns. Where there is no memory, `task_free` reads through the
  -- null pointer that it is given, or that the task has for a directory.
  unfoldable pub task_new_with :
      Loading W P → (process : ℕ) → Image → (made : Words × ℕ) → Option (ℕ × Loading W P)
  task_new_with s process image (pages, directory) =
      let task = alloc 5 in
      let (res, t) = task_init directory (elf_entry image) process in
      if task == 0
      then none
      else if is_neg res
      then none
      else some (
        task,
        record s {
          pages = pages;
          tasks = task_link (record (s.tasks) { store = write s.tasks.store task t }) task;
        },
      )

  unfoldable pub task_new : Loading W P → (process : ℕ) → Image → Option (ℕ × Loading W P)
  task_new s process image =
      task_new_with s process image (paging_new_4gb (λ n. alloc (6 + n)) 0b101 s.pages)

  -- What `process_map_memory` returns decides; an error frees the task again.
  unfoldable pub task_mapped :
      Loading W P → (process task : ℕ) → ℤ × Words → ℤ × Option ℕ × Loading W P
  task_mapped s process task (res, pages) =
      let s' = record s { pages = pages } in
      if is_neg res
      then (res, none, task_free s' (alloc (6 + 1025)) task)
      else (res, some process, s')

  unfoldable pub map_task :
      (process : ℕ) → Image → Option (ℕ × Loading W P) → Option (ℤ × Option ℕ × Loading W P)
  unfolding task_mapped
  map_task process image none = none
  map_task process image (some (task, s)) =
      let s' = put_process s process (record (s.store process) { task = task }) in
      if task == 0
      then some (pos 0, none, s)
      else some (
          task_mapped s' process task (
            process_map_memory s'.pages (s'.tasks.store task).page_directory image
              (s'.store process).stack))

  unfoldable pub load_task :
      Loading W P → (process : ℕ) → Image → Option (ℤ × Option ℕ × Loading W P)
  unfolding map_task task_new
  load_task s process image = map_task process image (task_new s process image)

  -- The size of the program's name is that of the field. Where no image is there in spite of the
  -- code, a null pointer is read.
  unfoldable pub load_program : Bytes → Loading W P → ℕ → Option (ℤ × Option ℕ × Loading W P)
  load_program filename s slot =
      let process = alloc 3 in
      let stack = alloc 4 in
      if process == 0
      then some (enomem, none, s)
      else elim (process_load_data alloc behind s.files filename) [
        | none ↦ none
        | some ((res, loaded), files) ↦
            let s1 =
              put_process (record s { files = files }) process
                (record blank_process { image = loaded }) in
            if is_neg res
            then some (res, none, s1)
            else if stack == 0
            then some (enomem, none, s1)
            else elim (strncpy blank_process.filename filename 108) [
              | none ↦ none
              | some name ↦ elim loaded [
                | none ↦ none
                | some image ↦
                    load_task
                      (put_process s1 process (record blank_process {
                        image = some image;
                        filename = name;
                        stack = stack;
                        id = slot % 2 ^ 16;
                      }))
                      process image
              ]
            ]
      ]
