-- ===== src/Keyboard/Drivers.antt =====
-- The list of keyboard drivers of src/keyboard/keyboard.c, and the driver of src/keyboard/classic.c.
-- The list is that of the drivers from `keyboard_list_head` on; no driver is inserted twice.
use custom_peach_os.Prelude.{ℕ, Option, none, some, List, [], ◌∷◌, ◌++◌}
use custom_peach_os.Prelude.Int.{ℤ, pos}
use custom_peach_os.Status.{all_ok}
use custom_peach_os.Idt.{idt_register_interrupt_callback}

-- The callbacks of the interrupts, and the bytes that are written to ports, the last one first.
pub record Hardware : Type 0 where
  pub callbacks : List ℕ
  pub outputs : List (ℕ × ℕ)

-- `init` is a null pointer or a function.
pub record Driver : Type 0 where
  pub init : Option (Hardware → ℤ × Hardware)
  pub name : List ℕ

unfoldable pub outb : Hardware → (port val : ℕ) → Hardware
outb h port val = record h { outputs = (port, val) ∷ h.outputs }

-- The code for a driver without `init` is not negated.
unfoldable pub keyboard_insert : List Driver → Driver → Hardware → ℤ × List Driver × Hardware
keyboard_insert drivers keyboard h = elim keyboard.init [
  | none ↦ (pos 2, drivers, h)
  | some init ↦ let (res, h') = init h in (res, drivers ++ (keyboard ∷ []), h')
]

-- `handler` is the address of `classic_keyboard_handle_interrupt`.
unfoldable pub classic_keyboard_init : (handler : ℕ) → Hardware → ℤ × Hardware
unfolding outb
classic_keyboard_init handler h =
    let (res, callbacks) = idt_register_interrupt_callback h.callbacks (pos 0x21) handler in
    (all_ok, outb (record h { callbacks = callbacks }) 0x64 0xae)

unfoldable pub classic_init : (handler : ℕ) → Driver
unfolding classic_keyboard_init
classic_init handler = record {
  init = some (classic_keyboard_init handler);
  name = b'C' ∷ b'l' ∷ b'a' ∷ b's' ∷ b's' ∷ b'i' ∷ b'c' ∷ [];
}

unfoldable pub keyboard_init : (handler : ℕ) → List Driver → Hardware → List Driver × Hardware
unfolding keyboard_insert classic_init
keyboard_init handler drivers h =
    let (res, drivers', h') = keyboard_insert drivers (classic_init handler) h in (drivers', h')
