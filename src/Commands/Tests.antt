-- ===== src/Commands/Tests.antt =====
-- A program that asks for 5000 bytes and gives them back, and one that prints "hi".
use custom_peach_os.Prelude.{
  ℕ, zero, suc, ◌<◌, ◌≡◌, ◌≢◌, refl, inl, Option, ◌∙◌, none, some, [], ◌∷◌, ap, ◌+◌, ◌*◌, ◌/◌, ◌%◌,
  ◌^◌, ◌==◌, if◌then◌else◌, arith, length, get_or,
}
use custom_peach_os.Prelude.Int.{pos}
use custom_peach_os.Heap.{align_value_to_upper}
use custom_peach_os.Heap.Search.{Run}
use custom_peach_os.Heap.Alloc.{blocks_for, IsPlaced, address_of}
use custom_peach_os.Heap.Whole.{IsWhole}
use custom_peach_os.Memory.{Mem, Kernel}
use custom_peach_os.Task.Copy.{word_seen, advance}
use custom_peach_os.Task.Copy.Shared.{translate-IsIdentity}
use custom_peach_os.Process.{Allocations}
use custom_peach_os.Process.Alloc.{Lacks}
use custom_peach_os.CString.{cstr}
use custom_peach_os.Terminal
use custom_peach_os.Task.{InterruptFrame, Registers, task_save_state}
use custom_peach_os.Task.Copy.Strings.{seen}
use custom_peach_os.Task.Sample
use custom_peach_os.Task.Sample.{
  kernel_directory, task_directory, pages, task-IsChunk, kernel-IsIdentity, task-IsIdentity, place,
  sees_string, blocks-IsApart,
}
use custom_peach_os.Idt.{Command}
use custom_peach_os.Commands.{Machine, State, isr80h_command1_print, isr80h_handler}
use custom_peach_os.Commands.Print.{isr80h_handler-print}
use custom_peach_os.Commands.Calls.{registered, register_commands_lem, isr80h_handler-malloc_free}

-- A memory in which the stack of the program, at 0x3fe000, has a word.
abbrev stacked : ℕ → Mem
stacked v a =
    if a == 0x3f_e000
    then v % 256
    else (if a == 0x3f_e001
        then v / 2 ^ 8 % 256
        else (if a == 0x3f_e002
            then v / 2 ^ 16 % 256
            else (if a == 0x3f_e003
                then v / 2 ^ 24
                else (if a == 0x40_0000 then b'h' else if a == 0x40_0001 then b'i' else 0))))

stacked-seen :
    (v : ℕ) → word_seen pages (stacked v) task_directory (advance 0x3f_e000 (4 * 0)) ≡ some v
unfolding word_seen
stacked-seen v =
    let mem : Mem = stacked v in
    ap
      (λ (o : Option ℕ). elim o [
        | none ↦ none
        | some a ↦ some (mem a + mem (a + 1) * 2 ^ 8 + mem (a + 2) * 2 ^ 16 + mem (a + 3) * 2 ^ 24)
      ])
      (translate-IsIdentity pages task_directory 0x3f_e000 task-IsIdentity (omega arith))
    ∙ ap (λ (n : ℕ). some n)
        {x = v % 256 + v / 2 ^ 8 % 256 * 2 ^ 8 + v / 2 ^ 16 % 256 * 2 ^ 16 + v / 2 ^ 24 * 2 ^ 24}
        {y = v} (omega arith)

-- A heap of two free blocks.
abbrev kernel : Kernel
kernel = record { heap = record { entries = 0 ∷ 0 ∷ []; saddr = 0x0100_0000 }; mem = stacked 5000 }

kernel-IsPlaced : IsPlaced kernel.heap
kernel-IsPlaced = record { not_null = omega arith; in_space = omega arith; offsets = omega arith }

kernel-IsWhole : IsWhole kernel.heap.entries
kernel-IsWhole zero lt = inl refl
kernel-IsWhole (suc zero) lt = inl refl
kernel-IsWhole (suc (suc k)) lt = absurd (omega arith)

Run-at_0 : Run kernel.heap.entries 0 2
Run-at_0 zero le lt = refl
Run-at_0 (suc zero) le lt = refl
Run-at_0 (suc (suc k)) le lt = absurd (omega arith)

kernel-Run : Run kernel.heap.entries 0 (blocks_for 5000)
unfolding align_value_to_upper
kernel-Run = Run-at_0

kernel-some_block : 0 < blocks_for 5000
unfolding align_value_to_upper
kernel-some_block = omega arith

-- The process owns a block elsewhere; its second entry is empty.
abbrev owned : Allocations
owned = 0x0200_0000 ∷ 0 ∷ []

owned_taken : (j : ℕ) → j < 1 → get_or owned j 0 ≢ 0
owned_taken zero lt = omega arith
owned_taken (suc j) lt = absurd (omega arith)

owned-Lacks : (s : ℕ) → s < length kernel.heap.entries → Lacks owned (address_of kernel.heap s)
owned-Lacks s lt = (omega arith, (omega arith, tt))

abbrev registers : Registers
registers = record {
  edi = 0;
  esi = 0;
  ebp = 0;
  ebx = 0;
  edx = 0;
  ecx = 0;
  eax = 0;
  ip = 0;
  cs = 0;
  flags = 0;
  esp = 0;
  ss = 0;
}

abbrev machine : Machine
machine = record {
  kernel = kernel;
  allocations = owned;
  keyboard = none;
  screen = record { video_mem = λ i. 0; row = 0; col = 0 };
  task = record {
    page_directory = task_directory;
    registers = registers;
    process = 0x6000;
    next = 0;
    prev = 0;
  };
  pages = pages;
  cpu = record { current_directory = task_directory; data_segment = 0x23 };
  kernel_chunk = kernel_directory;
}

-- The stack of the program stands at 0x3fe000 both times.
abbrev frame : InterruptFrame
frame = record {
  edi = 0;
  esi = 0;
  ebp = 0;
  reserved = 0;
  ebx = 0;
  edx = 0;
  ecx = 0;
  eax = 4;
  ip = 0;
  cs = 0x1b;
  flags = 0;
  esp = 0x3f_e000;
  ss = 0x23;
}

abbrev print : Command State
print s = (0, s)

isr80h_handler-malloc_free_example :
    (s : ℕ) × (m1 m2 : Machine) × (isr80h_handler (registered print) (pos 4) frame machine
      ≡ (address_of kernel.heap s, some m1))
    × (isr80h_handler
          (registered print)
          (pos 5)
          frame
          (record m1 { kernel = record (m1.kernel) { mem = stacked (address_of kernel.heap s) } })
        ≡ (0, some m2))
    × (m2.kernel.heap ≡ kernel.heap)
    × (m2.allocations ≡ owned)
isr80h_handler-malloc_free_example =
    isr80h_handler-malloc_free print (registered print) machine frame frame
      (λ s. stacked (address_of kernel.heap s)) 5000 0 1 (register_commands_lem print)
      (stacked-seen 5000) kernel-IsPlaced kernel-IsWhole kernel-some_block kernel-Run (omega arith)
      refl owned_taken owned-Lacks (λ s. stacked-seen (address_of kernel.heap s))

abbrev printing : Machine
printing = record machine {
  kernel = record (Sample.kernel) { mem = stacked 0x40_0000 };
  task = record {
    page_directory = task_directory;
    registers = registers;
    process = 0x6000;
    next = 0;
    prev = 0;
  };
  pages = pages;
  kernel_chunk = kernel_directory;
}

isr80h_handler-print_example :
    (m' : Machine) × (isr80h_handler
        (registered (isr80h_command1_print 0x5f_0000))
        (pos 1)
        frame
        printing
      ≡ (0, some m'))
    × (m'.screen ≡ Terminal.print printing.screen (cstr (seen printing.kernel.mem place 1023)))
    × (m'.kernel.heap ≡ Sample.kernel.heap)
    × (m'.pages ≡ pages)
    × (m'.allocations ≡ owned)
    × (m'.task ≡ task_save_state printing.task frame)
    × (m'.cpu ≡ record { current_directory = task_directory; data_segment = 0x23 })
isr80h_handler-print_example =
    isr80h_handler-print (registered (isr80h_command1_print 0x5f_0000)) printing frame 0x5f_0000
      0x40_0000 0 place (register_commands_lem (isr80h_command1_print 0x5f_0000))
      (stacked-seen 0x40_0000)
      (record {
        placed = Sample.kernel-IsPlaced;
        whole = Sample.kernel-IsWhole;
        aligned = refl;
        room = Sample.kernel-Run;
        chunk = task-IsChunk;
        identity = kernel-IsIdentity;
        virt_in_space = omega arith;
        buf_in_space = omega arith;
        sees = sees_string;
        apart = λ s lt was_free. blocks-IsApart s;
      })
