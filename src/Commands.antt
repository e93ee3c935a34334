-- ===== src/Commands.antt =====
-- src/isr80h: the commands that a program gives the kernel by interrupt 0x80, over the state of the
-- kernel and the current task. What a task has on its stack, and the string that it prints, are read
-- through its page tables. `none` is a fault.
pub mod Calls
pub mod Print
mod Tests
use custom_peach_os.Prelude.{
  ℕ, zero, suc, ◌+◌, ◌-◌, ◌*◌, ◌%◌, ◌^◌, Bool, Option, none, some, List, [], ◌∷◌, ltb, ◌==◌,
  if◌then◌else◌,
}
use custom_peach_os.Prelude.Int.{ℤ, pos}
use custom_peach_os.CString.{Bytes}
use custom_peach_os.Memory.{Mem, Kernel}
use custom_peach_os.Paging.{Words}
use custom_peach_os.Process.{Allocations, process_malloc, process_free}
use custom_peach_os.Keyboard.{KeyboardBuffer, pop}
use custom_peach_os.Terminal.{Terminal, terminal_writechar, print}
use custom_peach_os.Task.{InterruptFrame, Task, task_save_state}
use custom_peach_os.Task.Switch.{Cpu, kernel_page, task_page_task}
use custom_peach_os.Task.Copy.{World, copy_string_from_task, task_get_stack_item}
use custom_peach_os.Idt.{Command, isr80h_register_command, isr80h_handle_command}

pub record Machine : Type 0 where
  pub kernel : Kernel
  pub allocations : Allocations
  pub keyboard : Option KeyboardBuffer
  pub screen : Terminal
  pub task : Task
  pub pages : Words
  pub cpu : Cpu
  pub kernel_chunk : ℕ

abbrev pub State : Type 0
State = Option Machine

-- What a command does where nothing has failed.
abbrev pub command : (Machine → ℕ × State) → Command State
command c none = (0, none)
command c (some m) = c m

-- What a command does with the item of the stack at an index, and the state behind its reading.
unfoldable pub with_stack_item : Machine → ℕ → (ℕ → Machine → ℕ × State) → ℕ × State
with_stack_item m index f =
    elim (task_get_stack_item (record { kernel = m.kernel; pages = m.pages; cpu = m.cpu })
      m.kernel_chunk m.task.page_directory m.task.registers.esp index) [
        | none ↦ (0, none)
        | some (item, w) ↦ f item (record m { kernel = w.kernel; pages = w.pages; cpu = w.cpu })
      ]

-- The bits of an `int` that is made of a `char`.
abbrev pub from_char : ℕ → ℕ
from_char c = if ltb c 128 then c else c + 2 ^ 32 - 256

unfoldable pub isr80h_command0_sum : Command State
unfolding with_stack_item
isr80h_command0_sum =
    command
      λ m. with_stack_item m 1 λ v2 m1. with_stack_item m1 0 λ v1 m2. ((v1 + v2) % 2 ^ 32, some m2)

-- The bytes before the first NUL of a buffer; a buffer without one is read behind its end.
unfoldable pub string_at : Mem → (ptr size : ℕ) → Option Bytes
string_at mem ptr zero = none
string_at mem ptr (suc size) =
    let rest = string_at mem (ptr + 1) size in
    if mem ptr == 0 then some [] else elim rest [ none ↦ none | some s ↦ some (mem ptr ∷ s) ]

abbrev pub print_string : Machine → World → Option Bytes → ℕ × State
print_string m w none = (0, none)
print_string m w (some s) = (
  0,
  some (record m { kernel = w.kernel; pages = w.pages; cpu = w.cpu; screen = print m.screen s }),
)

-- What the copy returns is not looked at.
abbrev pub print_copy : Machine → (buf : ℕ) → Option (ℤ × World) → ℕ × State
print_copy m buf none = (0, none)
print_copy m buf (some (res, w)) = print_string m w (string_at w.kernel.mem buf 1024)

abbrev pub print_message : (buf message : ℕ) → Machine → ℕ × State
print_message buf message m =
    let w : World = record { kernel = m.kernel; pages = m.pages; cpu = m.cpu } in
    print_copy m buf (copy_string_from_task w m.kernel_chunk m.task.page_directory message buf 1024)

-- `buf` is on the kernel's stack.
unfoldable pub isr80h_command1_print : (buf : ℕ) → Command State
unfolding with_stack_item
isr80h_command1_print buf = command λ m. with_stack_item m 0 (print_message buf)

unfoldable pub isr80h_command2_getkey : Command State
isr80h_command2_getkey = command λ m.
    let (c, keyboard) = pop m.keyboard in (from_char c, some (record m { keyboard = keyboard }))

unfoldable pub isr80h_command3_putchar : Command State
unfolding with_stack_item
isr80h_command3_putchar = command λ m0.
    with_stack_item m0 0
      λ c m. (0, some (record m { screen = terminal_writechar m.screen (c % 2 ^ 8) 15 }))

abbrev pub malloc_size : (size : ℕ) → Machine → ℕ × State
malloc_size size m = elim (process_malloc m.kernel m.allocations size) [
  | none ↦ (0, none)
  | some (ptr, kernel, allocations) ↦
      (ptr, some (record m { kernel = kernel; allocations = allocations }))
]

unfoldable pub isr80h_command4_malloc : Command State
unfolding with_stack_item
isr80h_command4_malloc = command λ m. with_stack_item m 0 malloc_size

abbrev pub free_ptr : (ptr_to_free : ℕ) → Machine → ℕ × State
free_ptr ptr_to_free m = elim (process_free m.kernel m.allocations ptr_to_free) [
  | none ↦ (0, none)
  | some (kernel, allocations) ↦ (0, some (record m { kernel = kernel; allocations = allocations }))
]

unfoldable pub isr80h_command5_free : Command State
unfolding with_stack_item
isr80h_command5_free = command λ m. with_stack_item m 0 free_ptr

abbrev pub Commands : Type 0
Commands = List (Option (Command State))

infixl 5 ◌>>=◌
abbrev ◌>>=◌ : {A B : Type 0} → Option A → (A → Option B) → Option B
none >>= k = none
some a >>= k = k a

-- `none` is the endless loop behind a message.
unfoldable pub isr80h_register_commands : Command State → Commands → Option Commands
isr80h_register_commands print_command commands = do
  c0 ← isr80h_register_command commands (pos 0) isr80h_command0_sum
  c1 ← isr80h_register_command c0 (pos 1) print_command
  c2 ← isr80h_register_command c1 (pos 2) isr80h_command2_getkey
  c3 ← isr80h_register_command c2 (pos 3) isr80h_command3_putchar
  c4 ← isr80h_register_command c3 (pos 4) isr80h_command4_malloc
  isr80h_register_command c4 (pos 5) isr80h_command5_free

abbrev pub enter : Machine → InterruptFrame → Machine
enter m frame = record m {
  cpu = kernel_page m.cpu m.kernel_chunk;
  task = task_save_state m.task frame;
}

-- The task that goes on is the current one.
abbrev pub leave : State → State
leave none = none
leave (some m) = some (record m { cpu = task_page_task m.cpu m.task.page_directory })

unfoldable pub isr80h_handler : Commands → ℤ → InterruptFrame → Machine → ℕ × State
isr80h_handler commands number frame m =
    let (res, s) = isr80h_handle_command commands number (some (enter m frame)) in (res, leave s)
