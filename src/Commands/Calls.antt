-- ===== src/Commands/Calls.antt =====
-- Commands through the handler: the table, the state of the task, the process and the heap.
use custom_peach_os.Prelude.{
  ℕ, ◌*◌, ◌<◌, ◌≡◌, ◌≢◌, refl, sym, ap, ◌∙◌, Option, none, some, arith, get_or, set, length,
  replicate,
}
use custom_peach_os.Prelude.Int.{pos}
use custom_peach_os.Heap.Search.{Run}
use custom_peach_os.Heap.Alloc.{blocks_for, IsPlaced, address_of}
use custom_peach_os.Heap.Whole.{IsWhole}
use custom_peach_os.Memory.{Mem, Kernel, kfree}
use custom_peach_os.Task.Copy.{word_seen, advance, task_get_stack_item}
use custom_peach_os.Process.{Allocations, process_malloc, process_free}
use custom_peach_os.Process.Alloc.{Lacks, process_free-malloc}
use custom_peach_os.Task.{InterruptFrame, task_save_state}
use custom_peach_os.Task.Switch.{kernel_page, task_page_task}
use custom_peach_os.Idt.{Command, isr80h_register_command, isr80h_handle_command}
use custom_peach_os.Commands.{
  Machine, State, Commands, with_stack_item, malloc_size, free_ptr, isr80h_command0_sum,
  isr80h_command2_getkey, isr80h_command3_putchar, isr80h_command4_malloc, isr80h_command5_free,
  isr80h_register_commands, enter, leave, isr80h_handler,
}

abbrev no_command : Option (Command State)
no_command = none

-- The table of the kernel, as it is at the start.
abbrev pub no_commands : Commands
no_commands = replicate 1024 no_command

pub registered : (print : Command State) → Commands
registered print =
    set
      (set
        (set
          (set (set (set no_commands 0 (some isr80h_command0_sum)) 1 (some print)) 2
            (some isr80h_command2_getkey))
          3 (some isr80h_command3_putchar))
        4 (some isr80h_command4_malloc))
      5 (some isr80h_command5_free)

pub register_commands_lem :
    (print : Command State) → isr80h_register_commands print no_commands ≡ some (registered print)
unfolding isr80h_register_commands isr80h_register_command registered
register_commands_lem print = refl

pub dispatch_print :
    (print : Command State) (s : State)
    → isr80h_handle_command (registered print) (pos 1) s ≡ print s
unfolding isr80h_handle_command registered
dispatch_print print s = refl

dispatch_malloc :
    (print : Command State) (s : State)
    → isr80h_handle_command (registered print) (pos 4) s ≡ isr80h_command4_malloc s
unfolding isr80h_handle_command registered
dispatch_malloc print s = refl

dispatch_free :
    (print : Command State) (s : State)
    → isr80h_handle_command (registered print) (pos 5) s ≡ isr80h_command5_free s
unfolding isr80h_handle_command registered
dispatch_free print s = refl

-- The handler enters the kernel, and leaves it with what the command has done.
pub left :
    (commands : Commands) (number : ℕ) (frame : InterruptFrame) (m : Machine) (res : ℕ) (s : State)
    → isr80h_handle_command commands (pos number) (some (enter m frame)) ≡ (res, s)
    → isr80h_handler commands (pos number) frame m ≡ (res, leave s)
unfolding isr80h_handler
left commands number frame m res s e = ap (λ (q : ℕ × State). (q.0, leave q.1)) e

-- The first word on the stack that a frame points to, as the task sees it.
abbrev pub argument : Machine → InterruptFrame → Option ℕ
argument m frame = word_seen m.pages m.kernel.mem m.task.page_directory (advance frame.esp (4 * 0))

-- A command that has entered the kernel goes on with that word.
pub with_argument :
    (m : Machine) (frame : InterruptFrame) (item : ℕ) (f : ℕ → Machine → ℕ × State)
    → argument m frame ≡ some item
    → with_stack_item (enter m frame) 0 f ≡ f item (enter m frame)
unfolding with_stack_item task_get_stack_item task_save_state kernel_page task_page_task
with_argument m frame item f e = rw (e, with_stack_item, task_get_stack_item) refl

malloc_call :
    (print : Command State) (m : Machine) (frame : InterruptFrame) (size ptr : ℕ) (k : Kernel)
    (own : Allocations)
    → argument m frame ≡ some size
    → process_malloc m.kernel m.allocations size ≡ some (ptr, k, own)
    → isr80h_handler (registered print) (pos 4) frame m
      ≡ (ptr, leave (some (record (enter m frame) { kernel = k; allocations = own })))
unfolding isr80h_command4_malloc
malloc_call print m frame size ptr k own a done =
    left (registered print) 4 frame m ptr
      (some (record (enter m frame) { kernel = k; allocations = own }))
      (dispatch_malloc print (some (enter m frame))
        ∙ with_argument m frame size malloc_size a
        ∙ ground (arith, done))

free_call :
    (print : Command State) (m : Machine) (frame : InterruptFrame) (ptr : ℕ) (k : Kernel)
    (own : Allocations)
    → argument m frame ≡ some ptr
    → process_free m.kernel m.allocations ptr ≡ some (k, own)
    → isr80h_handler (registered print) (pos 5) frame m
      ≡ (0, leave (some (record (enter m frame) { kernel = k; allocations = own })))
unfolding isr80h_command5_free
free_call print m frame ptr k own a done =
    left (registered print) 5 frame m 0
      (some (record (enter m frame) { kernel = k; allocations = own }))
      (dispatch_free print (some (enter m frame))
        ∙ with_argument m frame ptr free_ptr a
        ∙ ground (arith, done))

-- Releasing does not depend on the bytes of the memory, which stay as they are.
process_free-mem :
    (k k2 : Kernel) (own own2 : Allocations) (ptr : ℕ) (mem : Mem)
    → process_free k own ptr ≡ some (k2, own2)
    → process_free (record k { mem = mem }) own ptr ≡ some (record k2 { mem = mem }, own2)
unfolding process_free kfree
process_free-mem k k2 own own2 ptr mem e = ground (arith, e)

-- With the table that `isr80h_register_commands` makes, on a heap that lies in the address space
-- and whose table is whole, with enough free blocks in a row for the size that the program has on
-- its stack, an empty entry in the array of allocations of its process, and no address of a block
-- in that array: the command 4 returns the address of a block of the heap, and the command 5, at
-- whose time the program has changed its memory and has that address on its stack, returns 0 and
-- gives back the heap and the array of allocations as they were.
pub isr80h_handler-malloc_free :
    (print : Command State) (commands : Commands) (m : Machine) (frame frame' : InterruptFrame)
    (mem' : ℕ → Mem) (size t i : ℕ)
    → isr80h_register_commands print no_commands ≡ some commands
    → argument m frame ≡ some size
    → IsPlaced m.kernel.heap
    → IsWhole m.kernel.heap.entries
    → 0 < blocks_for size
    → Run m.kernel.heap.entries t (blocks_for size)
    → i < length m.allocations
    → get_or m.allocations i 0 ≡ 0
    → ((j : ℕ) → j < i → get_or m.allocations j 0 ≢ 0)
    → ((s : ℕ)
        → s < length m.kernel.heap.entries
        → Lacks m.allocations (address_of m.kernel.heap s))
    → ((s : ℕ)
        → word_seen m.pages (mem' s) m.task.page_directory (advance frame'.esp (4 * 0))
          ≡ some (address_of m.kernel.heap s))
    → (s : ℕ) × (m1 m2 : Machine) × (isr80h_handler commands (pos 4) frame m
        ≡ (address_of m.kernel.heap s, some m1))
      × (isr80h_handler commands
            (pos 5)
            frame'
            (record m1 { kernel = record (m1.kernel) { mem = mem' s } })
          ≡ (0, some m2))
      × (m2.kernel.heap ≡ m.kernel.heap)
      × (m2.allocations ≡ m.allocations)
unfolding task_save_state
isr80h_handler-malloc_free print commands m frame frame' mem' size t i table asked p whole pos_n run
      lt e taken lacks passed =
    let (s, k, mallocs, zeroed, frees) =
      process_free-malloc m.kernel m.allocations size t i p whole pos_n run lt e taken lacks in
    let ptr : ℕ = address_of m.kernel.heap s in
    let m1 : Machine = record (enter m frame) {
      kernel = k;
      allocations = set m.allocations i ptr;
      cpu = task_page_task (kernel_page m.cpu m.kernel_chunk) m.task.page_directory;
    } in
    let m1' : Machine = record m1 { kernel = record k { mem = mem' s } } in
    let k2 : Kernel = record { heap = m.kernel.heap; mem = mem' s } in
    let same : registered print ≡ commands = cc (register_commands_lem print, table) in
    (
      s,
      m1,
      record (enter m1' frame') {
        kernel = k2;
        allocations = m.allocations;
        cpu = task_page_task (kernel_page m1.cpu m.kernel_chunk) m.task.page_directory;
      },
      ap (λ c. isr80h_handler c (pos 4) frame m) (sym same)
          ∙ malloc_call print m frame size ptr k (set m.allocations i ptr) asked mallocs,
      ap (λ c. isr80h_handler c (pos 5) frame' m1') (sym same)
          ∙ free_call print m1' frame' ptr k2 m.allocations (passed s) (
              process_free-mem k (record k { heap = m.kernel.heap }) (set m.allocations i ptr)
                m.allocations ptr (mem' s) frees),
      refl,
      refl,
    )
