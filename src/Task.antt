-- ===== src/Task.antt =====
-- src/task/task.c: the linked list of tasks, and the registers of a task. The store has the
-- `struct task` at each address; address 0 is a null pointer. The blocks of a task and of its page
-- directory come from the heap, whose addresses are arguments here.
pub mod Append
pub mod Remove
pub mod Switch
pub mod Copy
mod Tests
pub mod Sample
use custom_peach_os.Prelude.{ℕ, Bool, not, Option, none, some, ◌==◌, if◌then◌else◌}
use custom_peach_os.Prelude.Int.{ℤ}
use custom_peach_os.Status.{all_ok, eio}

pub record InterruptFrame : Type 0 where
  pub edi : ℕ
  pub esi : ℕ
  pub ebp : ℕ
  pub reserved : ℕ
  pub ebx : ℕ
  pub edx : ℕ
  pub ecx : ℕ
  pub eax : ℕ
  pub ip : ℕ
  pub cs : ℕ
  pub flags : ℕ
  pub esp : ℕ
  pub ss : ℕ

pub record Registers : Type 0 where
  pub edi : ℕ
  pub esi : ℕ
  pub ebp : ℕ
  pub ebx : ℕ
  pub edx : ℕ
  pub ecx : ℕ
  pub eax : ℕ
  pub ip : ℕ
  pub cs : ℕ
  pub flags : ℕ
  pub esp : ℕ
  pub ss : ℕ

pub record Task : Type 0 where
  pub page_directory : ℕ
  pub registers : Registers
  pub process : ℕ
  pub next : ℕ
  pub prev : ℕ

abbrev pub Store : Type 0
Store = ℕ → Task

abbrev pub write : Store → ℕ → Task → Store
write store p t a = if a == p then t else store a

-- The store, and the three global pointers.
pub record Tasks : Type 0 where
  pub store : Store
  pub task_head : ℕ
  pub task_tail : ℕ
  pub current_task : ℕ

-- The end of `task_new`, for a task at address `task` that is allocated and initialised.
unfoldable pub task_link : Tasks → ℕ → Tasks
task_link t task =
    if t.task_head == 0
    then record t { task_head = task; task_tail = task; current_task = task }
    else (let store1 = write t.store t.task_tail (record (t.store t.task_tail) { next = task }) in
        let store2 = write store1 task (record (store1 task) { prev = t.task_tail }) in
        record t { store = store2; task_tail = task })

unfoldable pub task_get_next : Tasks → ℕ
task_get_next t =
    let next = (t.store t.current_task).next in if next == 0 then t.task_head else next

unfoldable pub task_list_remove : Tasks → ℕ → Tasks
unfolding task_get_next
task_list_remove t task =
    let prev = (t.store task).prev in
    let t1 =
      if not (prev == 0)
      then record t {
        store = write t.store prev (record (t.store prev) { next = (t.store task).next });
      }
      else t in
    let t2 = if task == t1.task_head then record t1 { task_head = (t1.store task).next } else t1 in
    let t3 = if task == t2.task_tail then record t2 { task_tail = (t2.store task).prev } else t2 in
    if task == t3.current_task then record t3 { current_task = task_get_next t3 } else t3

unfoldable pub task_save_state : Task → InterruptFrame → Task
task_save_state task frame = record task {
  registers = record {
    edi = frame.edi;
    esi = frame.esi;
    ebp = frame.ebp;
    ebx = frame.ebx;
    edx = frame.edx;
    ecx = frame.ecx;
    eax = frame.eax;
    ip = frame.ip;
    cs = frame.cs;
    flags = frame.flags;
    esp = frame.esp;
    ss = frame.ss;
  };
}

abbrev pub zeroed : Registers
zeroed = record {
  edi = 0;
  esi = 0;
  ebp = 0;
  ebx = 0;
  edx = 0;
  ecx = 0;
  eax = 0;
  ip = 0;
  cs = 0;
  flags = 0;
  esp = 0;
  ss = 0;
}

-- `page_directory` is what `paging_new_4gb` returns, and `elf_entry` the entry of an ELF file's
-- header; `none` is a plain binary.
unfoldable pub task_init : ℕ → Option ℕ → ℕ → ℤ × Task
task_init page_directory elf_entry process =
    let task : Task = record {
      page_directory = page_directory;
      registers = zeroed;
      process = 0;
      next = 0;
      prev = 0;
    } in
    if page_directory == 0 then (eio, task) else (
      all_ok,
      record task {
        registers = record zeroed {
          ip = elim elf_entry [ none ↦ 0x40_0000 | some e_entry ↦ e_entry ];
          ss = 0x23;
          cs = 0x1b;
          esp = 0x3f_f000;
        };
        process = process;
      },
    )
