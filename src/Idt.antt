-- ===== src/Idt.antt =====
-- src/idt/idt.c: the interrupt descriptor table, the registered callbacks and the kernel commands
-- behind interrupt 0x80. Addresses are 32-bit numbers; interrupt numbers given to `idt_set` are
-- below `total_interrupts`, as at all of its calls.
pub mod Table
pub mod Commands
mod Tests
use custom_peach_os.Prelude.{
  ℕ, zero, suc, ◌+◌, ◌/◌, ◌^◌, Option, none, some, List, leb, ◌==◌, if◌then◌else◌, bit_and, get_or,
  set, replicate,
}
use custom_peach_os.Prelude.Int.{ℤ, pos, negsuc}
use custom_peach_os.Status.{all_ok, einvarg}

abbrev pub total_interrupts : ℕ
total_interrupts = 512

abbrev pub max_isr80h_commands : ℕ
max_isr80h_commands = 1024

abbrev pub kernel_code_selector : ℕ
kernel_code_selector = 0x08

pub record IdtDesc : Type 0 where
  pub offset_1 : ℕ
  pub selector : ℕ
  pub zeroed : ℕ
  pub type_attr : ℕ
  pub offset_2 : ℕ

abbrev pub null_desc : IdtDesc
null_desc = record { offset_1 = 0; selector = 0; zeroed = 0; type_attr = 0; offset_2 = 0 }

-- What `idt_set` writes for an address.
unfoldable pub idt_desc : ℕ → IdtDesc
idt_desc address = record {
  offset_1 = bit_and address 0x0000_ffff;
  selector = kernel_code_selector;
  zeroed = 0x00;
  type_attr = 0xee;
  offset_2 = address / 2 ^ 16;
}

unfoldable pub idt_set : List IdtDesc → ℕ → ℕ → List IdtDesc
idt_set descriptors interrupt_no address = set descriptors interrupt_no (idt_desc address)

-- `rounds` interrupts are left, `i` first.
unfoldable pub init_loop : ℕ → ℕ → List ℕ → List IdtDesc → List IdtDesc
init_loop zero i pointers descriptors = descriptors
init_loop (suc rounds) i pointers descriptors =
    init_loop rounds (i + 1) pointers (idt_set descriptors i (get_or pointers i 0))

-- The table that is loaded, for the handlers' addresses.
unfoldable pub idt_init : List ℕ → ℕ → ℕ → List IdtDesc
unfolding init_loop
idt_init pointers idt_zero isr80h_wrapper =
    let cleared = replicate total_interrupts null_desc in
    let filled = init_loop total_interrupts 0 pointers cleared in
    idt_set (idt_set filled 0 idt_zero) 0x80 isr80h_wrapper

-- A callback is its address.
unfoldable pub idt_register_interrupt_callback : List ℕ → ℤ → ℕ → ℤ × List ℕ
idt_register_interrupt_callback callbacks (negsuc n) callback = (einvarg, callbacks)
idt_register_interrupt_callback callbacks (pos interrupt) callback =
    if leb total_interrupts interrupt
    then (einvarg, callbacks)
    else (all_ok, set callbacks interrupt callback)

-- A command is the function that it runs, on the state of the kernel.
abbrev pub Command : Type 0 → Type 0
Command S = S → ℕ × S

module _ {S : Type 0} where
  -- `none` is a panic.
  unfoldable pub isr80h_register_command :
      List (Option (Command S)) → ℤ → Command S → Option (List (Option (Command S)))
  isr80h_register_command commands (negsuc n) command = none
  isr80h_register_command commands (pos command_id) command =
      if leb max_isr80h_commands command_id then none else elim (get_or commands command_id none) [
        | some old ↦ none
        | none ↦ some (set commands command_id (some command))
      ]

  -- The result, or a null pointer where there is no such command.
  unfoldable pub isr80h_handle_command : List (Option (Command S)) → ℤ → S → ℕ × S
  isr80h_handle_command commands (negsuc n) s = (0, s)
  isr80h_handle_command commands (pos command) s =
      if leb max_isr80h_commands command then (0, s) else elim (get_or commands command none) [
        | none ↦ (0, s)
        | some command_func ↦ command_func s
      ]
