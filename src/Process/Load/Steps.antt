-- ===== src/Process/Load/Steps.antt =====
-- The steps of loading, where nothing fails.
use custom_peach_os.Prelude.{
  ℕ, ◌+◌, ◌%◌, ◌^◌, ◌≡◌, ◌≢◌, refl, ap, ◌∙◌, false, some, List, [], ◌∷◌, arith, ◌==◌,
}
use mathlib.Core.Path.{subst}
use custom_peach_os.Status.{all_ok}
use custom_peach_os.CString.{Bytes, strncpy}
use custom_peach_os.Files.{Files}
use custom_peach_os.Paging.{Words}
use custom_peach_os.Paging.Chunk.{paging_new_4gb}
use custom_peach_os.Task.{Registers, Task, Tasks, write, zeroed, task_init, task_link}
use custom_peach_os.Task.Append.{Fresh, Linked}
use custom_peach_os.Process.Mapping.{Image, elf, binary, process_map_memory}
use custom_peach_os.Loader.{Contents, process_load_data}
use custom_peach_os.Process.Load.{
  Process, blank_process, Loading, elf_entry, put_process, task_new_with, task_mapped, map_task,
  load_task, load_program,
}

-- Where a program begins.
abbrev pub entry_point : Image → ℕ
entry_point (elf file phdrs) = file.header.e_entry
entry_point (binary ptr size) = 0x40_0000

abbrev pub started : ℕ → Registers
started ip = record zeroed { ip = ip; ss = 0x23; cs = 0x1b; esp = 0x3f_f000 }

abbrev pub new_task : (directory process ip : ℕ) → Task
new_task directory process ip = record {
  page_directory = directory;
  registers = started ip;
  process = process;
  next = 0;
  prev = 0;
}

init_of :
    (directory process : ℕ) (image : Image)
    → directory ≢ 0
    → task_init directory (elf_entry image) process
      ≡ (all_ok, new_task directory process (entry_point image))
unfolding task_init
init_of directory process (elf file phdrs) ne = ground arith
init_of directory process (binary ptr size) ne = ground arith

-- A task that is not among them does not change how the tasks are linked.
pub Linked-write :
    (store : ℕ → Task) (a p : ℕ) (t : Task) (xs : List ℕ)
    → Fresh a xs
    → Linked store p xs
    → Linked (write store a t) p xs
Linked-write store a p t [] f l = tt
Linked-write store a p t (x ∷ xs) f l =
    (l.0, ground (arith, l.1, f.0), ground (arith, l.2, f.0), Linked-write store a x t xs f.1 l.3)

-- The process before its task is made.
abbrev pub unstarted : (name : Bytes) → (slot stack : ℕ) → Image → Process
unstarted name slot stack image = record blank_process {
  image = some image;
  filename = name;
  stack = stack;
  id = slot % 2 ^ 16;
}

is_not_null : (p : ℕ) → p ≢ 0 → (p == 0) ≡ false
is_not_null p ne = ground arith

-- The addresses that `paging_new_4gb` gets.
abbrev pub chunk : (ℕ → ℕ) → ℕ → ℕ
chunk alloc n = alloc (6 + n)

-- What `task_link` does not change of the new task.
pub record Keeps (old new : Task) : Type 0 where
  pub directory : new.page_directory ≡ old.page_directory
  pub registers : new.registers ≡ old.registers
  pub process : new.process ≡ old.process

link-Keeps : (t : Tasks) (a : ℕ) → Keeps (t.store a) ((task_link t a).store a)
unfolding task_link
link-Keeps t a = record {
  directory = ground arith;
  registers = ground arith;
  process = ground arith;
}

module _ {W P : Type 0} (alloc : ℕ → ℕ) (behind : Contents) where
  -- The state with the new task, in an address space that is `made`.
  abbrev pub with_task : Loading W P → (process : ℕ) → Image → Words × ℕ → Loading W P
  with_task s process image (pages, directory) = record s {
    pages = pages;
    tasks =
        task_link
          (record (s.tasks) {
            store = write s.tasks.store (alloc 5) (new_task directory process (entry_point image));
          })
          (alloc 5);
  }

  task_new_of :
      (s : Loading W P) (process : ℕ) (image : Image) (made : Words × ℕ)
      → alloc 5 ≢ 0
      → made.1 ≢ 0
      → task_new_with alloc behind s process image made
        ≡ some (alloc 5, with_task s process image made)
  unfolding task_new_with
  task_new_of s process image (pages, directory) ne ne' =
      rw (init_of directory process image ne', task_new_with) (ground arith)

  -- The state with the process and its task, and the program mapped.
  abbrev pub loaded : Loading W P → (process : ℕ) → Image → Words × ℕ → Words → Loading W P
  loaded s process image made mapped =
      record (put_process (with_task s process image made) process
        (record (s.store process) { task = alloc 5 })) { pages = mapped }

  pub new_is :
      (s : Loading W P) (process : ℕ) (image : Image) (made : Words × ℕ)
      → Keeps
          (new_task made.1 process (entry_point image))
          ((with_task s process image made).tasks.store (alloc 5))
  new_is s process image made =
      let t : Tasks = record (s.tasks) {
        store = write s.tasks.store (alloc 5) (new_task made.1 process (entry_point image));
      } in
      let here : t.store (alloc 5) ≡ new_task made.1 process (entry_point image) = ground arith in
      subst (λ q. Keeps q ((task_link t (alloc 5)).store (alloc 5))) here (link-Keeps t (alloc 5))

  map_task_of :
      (s : Loading W P) (process : ℕ) (image : Image) (mapped : Words) (task directory stack : ℕ)
      → task ≢ 0
      → (s.tasks.store task).page_directory ≡ directory
      → (s.store process).stack ≡ stack
      → process_map_memory s.pages directory image stack ≡ (all_ok, mapped)
      → map_task alloc behind process image (some (task, s))
        ≡ some (
          all_ok,
          some process,
          record (put_process s process (record (s.store process) { task = task })) {
            pages = mapped;
          },
        )
  unfolding map_task
  map_task_of s process image mapped task directory stack ne d st maps =
      let s' : Loading W P = put_process s process (record (s.store process) { task = task }) in
      let kept : (s'.store process).stack ≡ stack = ground arith in
      let e : process_map_memory s.pages (s.tasks.store task).page_directory image
            (s'.store process).stack
          ≡ (all_ok, mapped) =
        ap (process_map_memory s.pages (s.tasks.store task).page_directory image) kept
        ∙ ap (λ q. process_map_memory s.pages q image stack) d
        ∙ maps in
      ground (arith, ap (task_mapped alloc behind s' process task) e)

  pub load_task_of :
      (s : Loading W P) (process : ℕ) (image : Image) (made : Words × ℕ) (mapped : Words)
      → alloc 5 ≢ 0
      → made.1 ≢ 0
      → paging_new_4gb (chunk alloc) 5 s.pages ≡ made
      → process_map_memory made.0 made.1 image (s.store process).stack ≡ (all_ok, mapped)
      → load_task alloc behind s process image
        ≡ some (all_ok, some process, loaded s process image made mapped)
  unfolding load_task
  load_task_of s process image made mapped ne ne' new maps =
      ap (λ m. map_task alloc behind process image (task_new_with alloc behind s process image m))
        new
      ∙ ap (map_task alloc behind process image) (task_new_of s process image made ne ne')
      ∙ map_task_of (with_task s process image made) process image mapped (alloc 5) made.1
          (s.store process).stack ne ((new_is s process image made).directory) refl maps

  abbrev pub prepared : Loading W P → Files W P → (name : Bytes) → (slot : ℕ) → Image → Loading W P
  prepared s files name slot image =
      put_process
        (put_process (record s { files = files }) (alloc 3)
          (record blank_process { image = some image }))
        (alloc 3) (unstarted name slot (alloc 4) image)

  pub load_program_of :
      (filename name : Bytes) (s : Loading W P) (slot : ℕ) (image : Image) (files : Files W P)
      → alloc 3 ≢ 0
      → alloc 4 ≢ 0
      → process_load_data alloc behind s.files filename ≡ some ((all_ok, some image), files)
      → strncpy blank_process.filename filename 108 ≡ some name
      → load_program alloc behind filename s slot
        ≡ load_task alloc behind (prepared s files name slot image) (alloc 3) image
  unfolding load_program
  load_program_of filename name s slot image files ne ne' loads named =
      rw (is_not_null (alloc 3) ne, loads, load_program)
        (rw (is_not_null (alloc 4) ne', named, load_program) refl)
