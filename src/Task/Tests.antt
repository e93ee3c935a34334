-- ===== src/Task/Tests.antt =====
-- Two tasks are added, and one is removed; a string is copied from a task.
use custom_peach_os.Prelude.{ℕ, ◌<◌, ◌≡◌, refl, some, true, [], ◌∷◌, arith, length}
use custom_peach_os.Status.{all_ok}
use custom_peach_os.CString.{cstr}
use custom_peach_os.Heap.Search.{free_at}
use custom_peach_os.Heap.Alloc.{address_of}
use custom_peach_os.Task.Copy.{World, copy_string_from_task}
use custom_peach_os.Task.Copy.Strings.{seen}
use custom_peach_os.Task.Copy.Whole.{Copied, copy_string_from_task_lem}
use custom_peach_os.Task.Sample.{
  kernel_directory, task_directory, pages, kernel, kernel-IsPlaced, kernel-IsWhole, kernel-Run,
  task-IsChunk, kernel-IsIdentity, place, sees_string, blocks-IsApart,
}
use custom_peach_os.Task.{Registers, Task, Tasks, task_link, task_list_remove}
use custom_peach_os.Task.Append.{IsTaskList, task_link-IsTaskList}
use custom_peach_os.Task.Remove.{task_list_remove-IsTaskList}

abbrev blank_registers : Registers
blank_registers = record {
  edi = 0;
  esi = 0;
  ebp = 0;
  ebx = 0;
  edx = 0;
  ecx = 0;
  eax = 0;
  ip = 0;
  cs = 0;
  flags = 0;
  esp = 0;
  ss = 0;
}

abbrev blank : Task
blank = record { page_directory = 0; registers = blank_registers; process = 0; next = 0; prev = 0 }

abbrev no_tasks : Tasks
no_tasks = record { store = λ a. blank; task_head = 0; task_tail = 0; current_task = 0 }

-- Tasks at two addresses.
abbrev two_tasks : Tasks
two_tasks = task_link (task_link no_tasks 0x5000) 0x6000

no_tasks-IsTaskList : IsTaskList no_tasks []
no_tasks-IsTaskList = record { head_first = refl; tail_last = refl; linked = tt; distinct = tt }

one_task-IsTaskList : IsTaskList (task_link no_tasks 0x5000) (0x5000 ∷ [])
one_task-IsTaskList =
    task_link-IsTaskList no_tasks [] 0x5000 no_tasks-IsTaskList (omega arith) tt refl refl

store_blank : ((task_link no_tasks 0x5000).store 0x6000).next ≡ 0
unfolding task_link
store_blank = refl

store_blank_prev : ((task_link no_tasks 0x5000).store 0x6000).prev ≡ 0
unfolding task_link
store_blank_prev = refl

task_link-IsTaskList_example : IsTaskList two_tasks (0x5000 ∷ 0x6000 ∷ [])
task_link-IsTaskList_example =
    task_link-IsTaskList (task_link no_tasks 0x5000) (0x5000 ∷ []) 0x6000 one_task-IsTaskList
      (omega arith) (omega arith, tt) store_blank store_blank_prev

two_tasks-IsTaskList : IsTaskList two_tasks (0x5000 ∷ 0x6000 ∷ [])
two_tasks-IsTaskList =
    task_link-IsTaskList (task_link no_tasks 0x5000) (0x5000 ∷ []) 0x6000 one_task-IsTaskList
      (omega arith) (omega arith, tt) store_blank store_blank_prev

task_list_remove-IsTaskList_example : IsTaskList (task_list_remove two_tasks 0x6000) (0x5000 ∷ [])
task_list_remove-IsTaskList_example =
    task_list_remove-IsTaskList two_tasks 0x6000 0x5000 [] two_tasks-IsTaskList

-- The new head still points back to the task that was removed.
stale_prev : ((task_list_remove two_tasks 0x5000).store 0x6000).prev ≡ 0x5000
unfolding task_list_remove task_link
stale_prev = refl

abbrev world : World
world = record {
  kernel = kernel;
  pages = pages;
  cpu = record { current_directory = kernel_directory; data_segment = 0x10 };
}

copy_string_from_task_lem_example :
    (s : ℕ) × (w' : World) × (s < length kernel.heap.entries)
    × (free_at kernel.heap.entries s ≡ true)
    × (copy_string_from_task world kernel_directory task_directory 0x40_0000 0x5f_0000 1024
        ≡ some (all_ok, w'))
    × Copied world w' kernel_directory 0x5f_0000
        (address_of kernel.heap s)
        (cstr (seen kernel.mem place 1023))
copy_string_from_task_lem_example =
    copy_string_from_task_lem world kernel_directory task_directory 0x40_0000 0x5f_0000 1024 0 place
      kernel-IsPlaced kernel-IsWhole refl (omega arith) (omega arith) kernel-Run task-IsChunk
      kernel-IsIdentity (omega arith) (omega arith) sees_string (λ s lt was_free. blocks-IsApart s)
