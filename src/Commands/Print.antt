-- ===== src/Commands/Print.antt =====
-- The command `print` through the handler.
use custom_peach_os.Prelude.{
  ℕ, zero, suc, ◌+◌, ◌-◌, ◌%◌, ◌^◌, ◌≤◌, ◌<◌, ◌≡◌, refl, ap, ◌∙◌, some, true, [], ◌∷◌, arith,
  length, get_or,
}
use custom_peach_os.Prelude.Int.{pos}
use custom_peach_os.CString.{Bytes, cstr}
use custom_peach_os.Heap.Search.{Run, free_at}
use custom_peach_os.Heap.Alloc.{blocks_for, IsPlaced, address_of}
use custom_peach_os.Heap.Whole.{IsWhole}
use custom_peach_os.Memory.{Mem}
use custom_peach_os.Paging.Entries.{IsChunk}
use custom_peach_os.Terminal.{print}
use custom_peach_os.Task.{InterruptFrame, task_save_state}
use custom_peach_os.Task.Switch.{kernel_page, task_page_task}
use custom_peach_os.Task.Copy.{World, translate, copy_string_from_task}
use custom_peach_os.Task.Copy.Strings.{
  seen, write_bytes-inside, NoNul, cstr-NoNul, length-cstr-seen,
}
use custom_peach_os.Task.Copy.Shared.{IsIdentity, IsApart}
use custom_peach_os.Task.Copy.Whole.{Copied, copy_string_from_task_lem}
use custom_peach_os.Commands.{
  Machine, Commands, print_message, string_at, print_string, print_copy, isr80h_command1_print,
  isr80h_register_commands, enter, isr80h_handler,
}
use custom_peach_os.Commands.Calls.{
  no_commands, registered, register_commands_lem, dispatch_print, left, argument, with_argument,
}

-- A string that stands in a buffer with its NUL is found.
string_at-of :
    (s : Bytes) (mem : Mem) (ptr size : ℕ)
    → NoNul s
    → length s < size
    → ((i : ℕ) → i ≤ length s → mem (ptr + i) ≡ get_or s i 0)
    → string_at mem ptr size ≡ some s
unfolding string_at
string_at-of s mem ptr zero ok lt h = absurd (omega arith)
string_at-of [] mem ptr (suc size) ok lt h =
    ground (arith, ap mem {x = ptr} {y = ptr + 0} (omega arith), h 0 (omega arith))
string_at-of (c ∷ s) mem ptr (suc size) ok lt h = ground (
  arith,
  ok.0,
  ap mem {x = ptr} {y = ptr + 0} (omega arith),
  h 0 (omega arith),
  string_at-of s mem (ptr + 1) size ok.1 (omega arith)
      (λ i le. ap mem {x = ptr + 1 + i} {y = ptr + suc i} (omega arith) ∙ h (suc i) (omega arith)),
)

print_of :
    (buf virt : ℕ) (m0 : Machine) (frame : InterruptFrame) (w' : World) (s : Bytes)
    → argument m0 frame ≡ some virt
    → copy_string_from_task
        (record { kernel = m0.kernel; pages = m0.pages; cpu = (enter m0 frame).cpu })
        m0.kernel_chunk
        m0.task.page_directory
        virt
        buf
        1024
      ≡ some (pos 0, w')
    → string_at w'.kernel.mem buf 1024 ≡ some s
    → isr80h_command1_print buf (some (enter m0 frame)) ≡ (
      0,
      some (record (enter m0 frame) {
        kernel = w'.kernel;
        pages = w'.pages;
        cpu = w'.cpu;
        screen = print m0.screen s;
      }),
    )
unfolding isr80h_command1_print task_save_state
print_of buf virt m0 frame w' s asked done read =
    let m = enter m0 frame in
    with_argument m0 frame virt (print_message buf) asked
    ∙ ap (print_copy m buf) done
    ∙ ap (print_string m w') read

-- The pages of the kernel and of the task, and where the task has the string; `limit` is the size of
-- the buffer.
pub record CanPrint (m : Machine) (buf virt limit t : ℕ) (at : ℕ → ℕ) : Type 0 where
  pub placed : IsPlaced m.kernel.heap
  pub whole : IsWhole m.kernel.heap.entries
  pub aligned : m.kernel.heap.saddr % 4096 ≡ 0
  pub room : Run m.kernel.heap.entries t (blocks_for limit)
  pub chunk : IsChunk m.pages m.task.page_directory
  pub identity : IsIdentity m.pages m.kernel_chunk
  pub virt_in_space : virt + limit ≤ 2 ^ 32
  pub buf_in_space : buf + limit ≤ 2 ^ 32
  pub sees : (i : ℕ) → i < limit → translate m.pages m.task.page_directory (virt + i) ≡ some (at i)
  pub apart :
      (s : ℕ)
      → s < length m.kernel.heap.entries
      → free_at m.kernel.heap.entries s ≡ true
      → IsApart virt buf limit (address_of m.kernel.heap s) at

found :
    (w w' : World) (kernel_chunk buf block limit virt : ℕ) (at : ℕ → ℕ)
    → Copied w w' kernel_chunk buf block (cstr (seen w.kernel.mem at (limit - 1)))
    → 0 < limit
    → limit < 4096
    → IsApart virt buf limit block at
    → string_at w'.kernel.mem buf limit ≡ some (cstr (seen w.kernel.mem at (limit - 1)))
found w w' kernel_chunk buf block limit virt at c some_byte one_page own =
    let s = cstr (seen w.kernel.mem at (limit - 1)) in
    string_at-of s w'.kernel.mem buf limit (cstr-NoNul (seen w.kernel.mem at (limit - 1)))
      (omega (arith, length-cstr-seen w.kernel.mem at (limit - 1)))
      (λ i le.
        c.bytes (buf + i) (omega (arith, own.buffer, length-cstr-seen w.kernel.mem at (limit - 1)))
        ∙ write_bytes-inside s w.kernel.mem buf i le)

-- With the table that `isr80h_register_commands` makes, where the task's pages and the heap are as
-- `copy_string_from_task` needs them for the 1024 bytes of the kernel's buffer, and the program has
-- the address of a string on its stack: the command 1 terminates and returns 0; on the screen is what
-- `print` makes of the string that the task sees, cut to 1023 bytes; the heap, the page tables and the
-- allocations are as before, and the task's pages and the user's segments are loaded.
pub isr80h_handler-print :
    (commands : Commands) (m : Machine) (frame : InterruptFrame) (buf virt t : ℕ) (at : ℕ → ℕ)
    → isr80h_register_commands (isr80h_command1_print buf) no_commands ≡ some commands
    → argument m frame ≡ some virt
    → CanPrint m buf virt 1024 t at
    → (m' : Machine) × (isr80h_handler commands (pos 1) frame m ≡ (0, some m'))
      × (m'.screen ≡ print m.screen (cstr (seen m.kernel.mem at 1023)))
      × (m'.kernel.heap ≡ m.kernel.heap)
      × (m'.pages ≡ m.pages)
      × (m'.allocations ≡ m.allocations)
      × (m'.task ≡ task_save_state m.task frame)
      × (m'.cpu ≡ record { current_directory = m.task.page_directory; data_segment = 0x23 })
unfolding task_save_state task_page_task
isr80h_handler-print commands m frame buf virt t at table asked can =
    let w : World = record {
      kernel = m.kernel;
      pages = m.pages;
      cpu = kernel_page m.cpu m.kernel_chunk;
    } in
    let (s, w', lt, was_free, done, copied) =
      copy_string_from_task_lem w m.kernel_chunk m.task.page_directory virt buf 1024 t at can.placed
        can.whole can.aligned (omega arith) (omega arith) can.room can.chunk can.identity
        can.virt_in_space can.buf_in_space can.sees can.apart in
    let string : Bytes = cstr (seen m.kernel.mem at 1023) in
    let m1 : Machine = record (enter m frame) {
      kernel = w'.kernel;
      pages = w'.pages;
      cpu = w'.cpu;
      screen = print m.screen string;
    } in
    (
      record m1 { cpu = task_page_task w'.cpu m.task.page_directory },
      ap (λ c. isr80h_handler c (pos 1) frame m)
            (cc (table, register_commands_lem (isr80h_command1_print buf)))
          ∙ left (registered (isr80h_command1_print buf)) 1 frame m 0 (some m1) (
              dispatch_print (isr80h_command1_print buf) (some (enter m frame))
              ∙ print_of buf virt m frame w' string asked done (
                  found w w' m.kernel_chunk buf (address_of m.kernel.heap s) 1024 virt at copied
                    (omega arith) (omega arith) (can.apart s lt was_free))),
      refl,
      copied.heap_same,
      copied.pages_same,
      refl,
      refl,
      refl,
    )
