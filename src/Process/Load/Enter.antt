-- ===== src/Process/Load/Enter.antt =====
-- A program is loaded, and its task is the one that the processor enters.
use custom_peach_os.Prelude.{
  ℕ, suc, ◌+◌, ◌%◌, ◌^◌, ◌<◌, ◌≡◌, ◌≢◌, refl, sym, ap, ◌∙◌, some, List, [], ◌∷◌, ◌++◌, arith,
  length, get_or, set, take, drop, replicate, bit_or,
}
use mathlib.Core.Path.{subst}
use custom_peach_os.Status.{all_ok, max_processes}
use custom_peach_os.CString.{Bytes, cstr}
use custom_peach_os.CString.Copy.{strncpy-copy}
use custom_peach_os.Files.{Files}
use custom_peach_os.Paging.{Words}
use custom_peach_os.Paging.Chunk.{paging_new_4gb}
use custom_peach_os.Paging.Chunk.Round.{IsAllocator}
use custom_peach_os.Task.{Tasks, write, task_link}
use custom_peach_os.Task.Append.{Fresh, IsTaskList, task_link-IsTaskList}
use custom_peach_os.Task.Switch.{Cpu, Running, task_return, task_run_first_ever_task}
use custom_peach_os.Process.{Processes, process_load, process_load_switch}
use custom_peach_os.Process.Slots.{installed, process_load-first}
use custom_peach_os.Process.Mapping.{Image, user_program_stack_size, process_map_memory}
use custom_peach_os.Process.Mapping.Pages.{Shows}
use custom_peach_os.Process.Mapping.Whole.{
  ImageFits, process_view, process_map_memory-paging_new_4gb,
}
use custom_peach_os.Loader.{Contents, process_load_data}
use custom_peach_os.Process.Load.{Process, blank_process, Loading, put_process, load_program}
use custom_peach_os.Process.Load.Steps.{
  entry_point, started, new_task, Linked-write, unstarted, chunk, with_task, new_is, loaded,
  load_task_of, prepared, load_program_of,
}

paging_new_4gb-directory :
    (alloc : ℕ → ℕ) (mem : Words) → (paging_new_4gb (chunk alloc) 5 mem).1 ≡ alloc 6
unfolding paging_new_4gb
paging_new_4gb-directory alloc mem = refl

-- The name that a process has in its field of 108 bytes.
abbrev pub name_of : Bytes → Bytes
name_of filename =
    take 107 (cstr filename)
    ++ (0 ∷ drop (suc (length (take 107 (cstr filename)))) (replicate 108 0))

-- There is memory, a free slot, room in the address space, and a list of tasks without the new one.
pub record Ready {W P : Type 0} (alloc : ℕ → ℕ) (s : Loading W P) (ps : Processes) (slot : ℕ)
    (image : Image) (xs : List ℕ) : Type 0 where
  pub length_ps : length ps ≡ max_processes
  pub slot_in : slot < max_processes
  pub slot_free : get_or ps slot 0 ≡ 0
  pub taken : (j : ℕ) → j < slot → get_or ps j 0 ≢ 0
  pub process_block : alloc 3 ≢ 0
  pub stack_block : alloc 4 ≢ 0
  pub stack_aligned : alloc 4 % 4096 ≡ 0
  pub stack_fits : alloc 4 + user_program_stack_size < 2 ^ 32
  pub task_block : alloc 5 ≢ 0
  pub directory_block : alloc 6 ≢ 0
  pub pages : IsAllocator (chunk alloc)
  pub fits : ImageFits image
  pub tasks : IsTaskList s.tasks xs
  pub new : Fresh (alloc 5) xs

-- The new process and the new task, each pointing to the other, and the task's pages.
pub record IsLoaded {W P : Type 0} (alloc : ℕ → ℕ) (s s' : Loading W P) (files : Files W P)
    (filename : Bytes) (slot : ℕ) (image : Image) (xs : List ℕ) : Type 0 where
  pub tasks : IsTaskList s'.tasks (xs ++ (alloc 5 ∷ []))
  pub registers : (s'.tasks.store (alloc 5)).registers ≡ started (entry_point image)
  pub directory : (s'.tasks.store (alloc 5)).page_directory ≡ alloc 6
  pub process : (s'.tasks.store (alloc 5)).process ≡ alloc 3
  pub pages : Shows (process_view (λ page. page + 5) image (alloc 4)) (alloc 6) (all_ok, s'.pages)
  pub entry : s'.store (alloc 3) ≡ record blank_process {
    id = slot;
    filename = name_of filename;
    task = alloc 5;
    image = some image;
    stack = alloc 4;
  }
  pub others : (a : ℕ) → a ≢ alloc 3 → s'.store a ≡ s.store a
  pub files_same : s'.files ≡ files
  pub freed_same : s'.freed ≡ s.freed

put_get :
    {W P : Type 0} (s : Loading W P) (p : ℕ) (process : Process)
    → (put_process s p process).store p ≡ process
put_get s p process = ground arith

enters :
    (kernel_flags kernel_esp : ℕ) (r : Running) (a ip directory : ℕ)
    → a ≢ 0
    → r.tasks.task_head ≡ a
    → r.tasks.current_task ≡ a
    → (r.tasks.store a).registers ≡ started ip
    → (r.tasks.store a).page_directory ≡ directory
    → task_run_first_ever_task kernel_flags kernel_esp r
      ≡ some (
        record {
          registers = record (started ip) { flags = bit_or kernel_flags 0x200; ebp = kernel_esp };
          data_segment = 0x23;
        },
        record { cpu = record (r.cpu) { current_directory = directory }; tasks = r.tasks },
      )
unfolding task_run_first_ever_task task_return
enters kernel_flags kernel_esp r a ip directory ne head current regs dir =
    ground (arith, ap r.tasks.store head)

module _ {W P : Type 0} (alloc : ℕ → ℕ) (behind : Contents) (filename : Bytes) where
  tasks_after :
      (s : Loading W P) (process : ℕ) (image : Image) (made : Words × ℕ) (xs : List ℕ)
      → IsTaskList s.tasks xs
      → alloc 5 ≢ 0
      → Fresh (alloc 5) xs
      → IsTaskList (with_task alloc behind s process image made).tasks (xs ++ (alloc 5 ∷ []))
  tasks_after s process image made xs v ne fresh =
      let t : Tasks = record (s.tasks) {
        store = write s.tasks.store (alloc 5) (new_task made.1 process (entry_point image));
      } in
      task_link-IsTaskList t xs (alloc 5)
        (record {
          head_first = v.head_first;
          tail_last = v.tail_last;
          linked =
              Linked-write s.tasks.store (alloc 5) 0 (new_task made.1 process (entry_point image))
                xs fresh v.linked;
          distinct = v.distinct;
        })
        ne fresh (ground arith) (ground arith)

  first_is_current :
      (s : Loading W P) (image : Image) (made : Words × ℕ)
      → s.tasks.task_head ≡ 0
      → (with_task alloc behind s (alloc 3) image made).tasks.current_task ≡ alloc 5
  unfolding task_link
  first_is_current s image made none_yet = ground arith

  -- The state after the loading.
  abbrev after : Loading W P → Files W P → (slot : ℕ) → Image → Loading W P
  after s files slot image =
      let made = paging_new_4gb (chunk alloc) 5 s.pages in
      loaded alloc behind (prepared alloc behind s files (name_of filename) slot image) (alloc 3)
        image made (process_map_memory made.0 made.1 image (alloc 4)).1

  loads :
      (s : Loading W P) (ps : Processes) (slot : ℕ) (image : Image) (xs : List ℕ)
      (files : Files W P)
      → Ready alloc s ps slot image xs
      → process_load_data alloc behind s.files filename ≡ some ((all_ok, some image), files)
      → load_program alloc behind filename s slot
        ≡ some (all_ok, some (alloc 3), after s files slot image)
  loads s ps slot image xs files r found =
      let made = paging_new_4gb (chunk alloc) 5 s.pages in
      let shown =
        process_map_memory-paging_new_4gb (chunk alloc) s.pages image (alloc 4) r.pages r.fits
          r.stack_aligned r.stack_fits in
      let s0 : Loading W P = prepared alloc behind s files (name_of filename) slot image in
      let same_stack : (s0.store (alloc 3)).stack ≡ alloc 4 = ground arith in
      load_program_of alloc behind filename (name_of filename) s slot image files r.process_block
        r.stack_block found
        (strncpy-copy blank_process.filename filename 108 (omega arith) (omega arith))
      ∙ load_task_of alloc behind s0 (alloc 3) image made
          (process_map_memory made.0 made.1 image (alloc 4)).1 r.task_block
          (λ e. r.directory_block (sym (paging_new_4gb-directory alloc s.pages) ∙ e)) refl
          (ap (process_map_memory made.0 made.1 image) same_stack
            ∙ ap (λ q. (q, (process_map_memory made.0 made.1 image (alloc 4)).1)) shown.ok)

  after-IsLoaded :
      (s : Loading W P) (ps : Processes) (slot : ℕ) (image : Image) (xs : List ℕ)
      (files : Files W P)
      → Ready alloc s ps slot image xs
      → IsLoaded alloc s (after s files slot image) files filename slot image xs
  after-IsLoaded s ps slot image xs files r =
      let made = paging_new_4gb (chunk alloc) 5 s.pages in
      let shown =
        process_map_memory-paging_new_4gb (chunk alloc) s.pages image (alloc 4) r.pages r.fits
          r.stack_aligned r.stack_fits in
      let s0 : Loading W P = prepared alloc behind s files (name_of filename) slot image in
      let kept = new_is alloc behind s0 (alloc 3) image made in
      let same : slot % 2 ^ 16 ≡ slot = omega (arith, r.slot_in) in
      record {
        tasks = tasks_after s0 (alloc 3) image made xs r.tasks r.task_block r.new;
        registers = kept.registers;
        directory = kept.directory ∙ paging_new_4gb-directory alloc s.pages;
        process = kept.process;
        pages =
            subst
              (λ (d : ℕ).
                Shows (process_view (λ page. page + 5) image (alloc 4)) d
                  (all_ok, (process_map_memory made.0 made.1 image (alloc 4)).1))
              (paging_new_4gb-directory alloc s.pages)
              (record { ok = refl; chunk = shown.chunk; pages = shown.pages });
        entry =
            put_get (with_task alloc behind s0 (alloc 3) image made) (alloc 3)
              (record (s0.store (alloc 3)) { task = alloc 5 })
            ∙ ap (λ (q : Process). record q { task = alloc 5 })
                (put_get
                  (put_process (record s { files = files }) (alloc 3)
                    (record blank_process { image = some image }))
                  (alloc 3) (unstarted (name_of filename) slot (alloc 4) image))
            ∙ ap
                (λ (i : ℕ). record (unstarted (name_of filename) slot (alloc 4) image) {
                  task = alloc 5;
                  id = i;
                })
                same;
        others = λ a ne. ground arith;
        files_same = refl;
        freed_same = refl;
      }

  -- Where a slot is free, there is memory for all that is asked for, and the program is found in the
  -- file and fits into the address space, `process_load` terminates and returns 0. The new process is
  -- in the first free slot, with its number, name and image; its task is at the end of the list of
  -- tasks and starts at the program's entry, with the segments of the user and the stack at 0x3ff000.
  -- In the pages of that task each page is mapped to itself and not writable, but for those of the
  -- program's segments and, over these, the four of the stack; every other process is as it was, and
  -- nothing is freed.
  pub process_load-IsLoaded :
      (s : Loading W P) (ps : Processes) (slot : ℕ) (image : Image) (xs : List ℕ)
      (files : Files W P)
      → Ready alloc s ps slot image xs
      → process_load_data alloc behind s.files filename ≡ some ((all_ok, some image), files)
      → (s' : Loading W P) × (process_load (load_program alloc behind filename) s ps
          ≡ some (all_ok, some (alloc 3), s', set ps slot (alloc 3)))
        × IsLoaded alloc s s' files filename slot image xs
  process_load-IsLoaded s ps slot image xs files r found = (
    after s files slot image,
    process_load-first (load_program alloc behind filename) s ps slot r.length_ps r.slot_in
          r.slot_free r.taken
        ∙ ap (installed ps slot) (loads s ps slot image xs files r found),
    after-IsLoaded s ps slot image xs files r,
  )

  -- With no task and no process yet, and under the conditions of the loading, `process_load_switch`
  -- returns 0 with the new process in slot 0 as the current one, and `task_run_first_ever_task`
  -- after it leaves the kernel for the program: at its entry, with the segments of the user, the
  -- stack at 0x3ff000, EBP the stack pointer that `task_return` was entered with, the other
  -- registers 0 and the kernel's flags with interrupts allowed. The directory that is loaded is
  -- that of the task, in whose pages the program and the stack are mapped.
  pub process_load_switch-enters :
      (s : Loading W P) (ps : Processes) (current kernel_flags kernel_esp : ℕ) (cpu : Cpu)
      (image : Image) (files : Files W P)
      → Ready alloc s ps 0 image []
      → process_load_data alloc behind s.files filename ≡ some ((all_ok, some image), files)
      → (s' : Loading W P) × (process_load_switch (load_program alloc behind filename) s ps current
          ≡ some (all_ok, s', set ps 0 (alloc 3), alloc 3))
        × (task_run_first_ever_task kernel_flags kernel_esp (record { cpu = cpu; tasks = s'.tasks })
            ≡ some (
              record {
                registers = record (started (entry_point image)) {
                  flags = bit_or kernel_flags 0x200;
                  ebp = kernel_esp;
                };
                data_segment = 0x23;
              },
              record { cpu = record cpu { current_directory = alloc 6 }; tasks = s'.tasks },
            ))
        × Shows (process_view (λ page. page + 5) image (alloc 4)) (alloc 6) (all_ok, s'.pages)
  unfolding process_load_switch
  process_load_switch-enters s ps current kernel_flags kernel_esp cpu image files r found =
      let l = after-IsLoaded s ps 0 image [] files r in
      let s' : Loading W P = after s files 0 image in
      let done =
        process_load-first (load_program alloc behind filename) s ps 0 r.length_ps r.slot_in
          r.slot_free r.taken
        ∙ ap (installed ps 0) (loads s ps 0 image [] files r found) in
      (
        s',
        rw (done, process_load_switch) refl,
        enters kernel_flags kernel_esp (record { cpu = cpu; tasks = s'.tasks }) (alloc 5)
            (entry_point image) (alloc 6) r.task_block l.tasks.head_first
            (first_is_current (prepared alloc behind s files (name_of filename) 0 image) image
              (paging_new_4gb (chunk alloc) 5 s.pages) r.tasks.head_first)
            l.registers l.directory,
        l.pages,
      )
