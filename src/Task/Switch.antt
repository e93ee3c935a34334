-- ===== src/Task/Switch.antt =====
-- Switching between the kernel's pages and a task's: `paging_switch` of
-- src/memory/paging/paging.c, `kernel_page` of src/kernel.c and the functions of src/task/task.c that
-- use it. Of the processor, the directory that is loaded and the data segments are kept, and of the
-- first task what `task_return` of src/task/task.asm loads for it. `none` is a panic, or a read through
-- a null pointer.
use custom_peach_os.Prelude.{ℕ, Option, none, some, ◌==◌, if◌then◌else◌, bit_or}
use custom_peach_os.Task.{InterruptFrame, Registers, Tasks, write, task_save_state}

-- `current_directory` is the directory that is loaded; the four data segments are loaded together.
pub record Cpu : Type 0 where
  pub current_directory : ℕ
  pub data_segment : ℕ

unfoldable pub paging_switch : Cpu → ℕ → Cpu
paging_switch cpu directory = record cpu { current_directory = directory }

unfoldable pub user_registers : Cpu → Cpu
user_registers cpu = record cpu { data_segment = 0x23 }

unfoldable pub kernel_registers : Cpu → Cpu
kernel_registers cpu = record cpu { data_segment = 0x10 }

unfoldable pub kernel_page : Cpu → ℕ → Cpu
unfolding kernel_registers paging_switch
kernel_page cpu kernel_chunk = paging_switch (kernel_registers cpu) kernel_chunk

-- The processor and the tasks.
pub record Running : Type 0 where
  pub cpu : Cpu
  pub tasks : Tasks

unfoldable pub task_switch : Running → ℕ → Option Running
unfolding paging_switch
task_switch s task =
    if task == 0
    then none
    else some (record {
      cpu = paging_switch s.cpu (s.tasks.store task).page_directory;
      tasks = record (s.tasks) { current_task = task };
    })

unfoldable pub task_page : Running → Option Running
unfolding task_switch user_registers
task_page s = task_switch (record s { cpu = user_registers s.cpu }) s.tasks.current_task

unfoldable pub task_page_task : Cpu → ℕ → Cpu
unfolding paging_switch user_registers
task_page_task cpu page_directory = paging_switch (user_registers cpu) page_directory

unfoldable pub task_current_save_state : Running → InterruptFrame → Option Running
task_current_save_state s frame =
    let task = s.tasks.current_task in
    if task == 0
    then none
    else some (record s {
      tasks = record (s.tasks) {
        store = write s.tasks.store task (task_save_state (s.tasks.store task) frame);
      };
    })

-- What the processor has when a program goes on: the registers, and the data segments.
pub record Entered : Type 0 where
  pub registers : Registers
  pub data_segment : ℕ

-- The flags are those of the kernel, with interrupts allowed. `restore_general_purpose_registers` ends
-- with `pop ebp`, so that EBP is not that of the registers but what `task_return` set it to: the stack
-- pointer that it was entered with, `kernel_esp`.
unfoldable pub task_return : (kernel_flags kernel_esp : ℕ) → Registers → Entered
task_return kernel_flags kernel_esp regs = record {
  registers = record regs { flags = bit_or kernel_flags 0x200; ebp = kernel_esp };
  data_segment = regs.ss;
}

unfoldable pub task_run_first_ever_task :
    (kernel_flags kernel_esp : ℕ) → Running → Option (Entered × Running)
unfolding task_switch
task_run_first_ever_task kernel_flags kernel_esp s =
    if s.tasks.current_task == 0 then none else elim (task_switch s s.tasks.task_head) [
      | none ↦ none
      | some s' ↦
          some
            (task_return kernel_flags kernel_esp (s'.tasks.store s'.tasks.task_head).registers, s')
    ]
