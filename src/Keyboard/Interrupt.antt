-- ===== src/Keyboard/Interrupt.antt =====
-- `interrupt_handler` of src/idt/idt.c, and behind it the handler of src/keyboard/classic.c. `none` is
-- a panic, a read through a null pointer, or a read behind the end of a table.
pub mod Key
use custom_peach_os.Prelude.{
  ℕ, ◌+◌, ◌≡◌, ◌≢◌, refl, Option, none, some, List, [], ◌∷◌, arith, ◌==◌, if◌then◌else◌, bit_and,
  get_or, ap, Bool, true, false, sym, Bool-cases, inl, inr,
}
use mathlib.Core.Path.{subst}
use custom_peach_os.Task.{InterruptFrame, Task, Store, Tasks, write, task_save_state}
use custom_peach_os.Task.Switch.{
  Cpu, Running, kernel_page, task_switch, task_page, task_current_save_state,
}
use custom_peach_os.Keyboard.{KeyboardBuffer, scancode_to_char, push}
use custom_peach_os.Keyboard.Drivers.{Hardware, outb}
use custom_peach_os.Keyboard.Queue.{Shows, enqueue, push_refines}

-- `keyboard` is the key buffer of the current process, and `input n` the byte that the read number
-- `n` of the keyboard's port gives.
pub record Interrupted : Type 0 where
  pub running : Running
  pub kernel_chunk : ℕ
  pub hardware : Hardware
  pub keyboard : Option KeyboardBuffer
  pub input : ℕ → ℕ
  pub reads : ℕ

infixl 5 ◌>>=◌
abbrev ◌>>=◌ : {A B : Type 0} → Option A → (A → Option B) → Option B
none >>= k = none
some a >>= k = k a

unfoldable pub insb : Interrupted → ℕ × Interrupted
insb m = (m.input m.reads, record m { reads = m.reads + 1 })

unfoldable pub to_kernel : Interrupted → Interrupted
unfolding kernel_page
to_kernel m = record m {
  running = record (m.running) { cpu = kernel_page m.running.cpu m.kernel_chunk };
}

unfoldable pub to_task : Interrupted → Option Interrupted
unfolding task_page
to_task m = do running ← task_page m.running; some (record m { running = running })

-- The byte that follows the scan code is dropped.
unfoldable pub classic_keyboard_handle_interrupt : Interrupted → Option Interrupted
unfolding to_kernel insb scancode_to_char push to_task
classic_keyboard_handle_interrupt m =
    let (scancode, m1) = insb (to_kernel m) in
    let (rogue, m2) = insb m1 in
    if bit_and scancode 0x80 == 0
    then (do
      c ← scancode_to_char scancode
      to_task (if c == 0 then m2 else record m2 { keyboard = push m2.keyboard c }))
    else some m2

unfoldable pub no_interrupt_handler : Hardware → Hardware
unfolding outb
no_interrupt_handler h = outb h 0x20 0x20

-- `call` is the function at an address; the interrupt is one of the 512.
unfoldable pub interrupt_handler :
    (call : ℕ → InterruptFrame → Interrupted → Option Interrupted) (interrupt : ℕ)
    → InterruptFrame
    → Interrupted
    → Option Interrupted
unfolding to_kernel task_current_save_state to_task outb
interrupt_handler call interrupt frame m = do
  let m1 = to_kernel m
  let callback = get_or m.hardware.callbacks interrupt 0
  m2 ← if callback == 0 then some m1 else (do
    saved ← task_current_save_state m1.running frame
    call callback frame (record m1 { running = saved }))
  m3 ← to_task m2
  some (record m3 { hardware = outb m3.hardware 0x20 0x20 })
