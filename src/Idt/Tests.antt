-- ===== src/Idt/Tests.antt =====
-- The table and the commands at concrete inputs.
use custom_peach_os.Prelude.{
  ℕ, ◌+◌, ◌≡◌, refl, Option, none, some, List, [], ◌∷◌, ◌==◌, if◌then◌else◌, arith, get_or, set,
  replicate, length-replicate,
}
use custom_peach_os.Prelude.Int.{pos}
use custom_peach_os.Idt.{
  null_desc, idt_init, kernel_code_selector, Command, isr80h_register_command,
  isr80h_handle_command,
}
use custom_peach_os.Idt.Table.{handler, idt_init_lem}
use custom_peach_os.Idt.Commands.{isr80h_handle-register}

abbrev pointers : List ℕ
pointers = 0x10_1000 ∷ 0x10_1010 ∷ 0x10_1020 ∷ []

idt_init_lem_example :
    let d = get_or (idt_init pointers 0x10_5000 0x10_6000) 0x80 null_desc in
    (handler d ≡ (
      if 0x80 == 0x80
      then 0x10_6000
      else (if 0x80 == 0 then 0x10_5000 else get_or pointers 0x80 0)))
    × (d.selector ≡ kernel_code_selector)
    × (d.type_attr ≡ 0xee)
idt_init_lem_example = idt_init_lem pointers 0x10_5000 0x10_6000 0x80 (omega arith)

-- The commands work on a counter.
abbrev no_command : Option (Command ℕ)
no_command = none

abbrev no_commands : List (Option (Command ℕ))
no_commands = replicate 1024 no_command

abbrev sum : Command ℕ
sum s = (s + 20, s + 1)

registered : isr80h_register_command no_commands (pos 3) sum ≡ some (set no_commands 3 (some sum))
unfolding isr80h_register_command
registered = refl

registered_runs :
    (isr80h_handle_command no_commands (pos 3) 5 ≡ (0, 5))
    × (isr80h_handle_command (set no_commands 3 (some sum)) (pos 3) 5
        ≡ (if 3 == 3 then sum 5 else isr80h_handle_command no_commands (pos 3) 5))
registered_runs =
    isr80h_handle-register no_commands (set no_commands 3 (some sum)) 3 3 sum 5
      (length-replicate 1024 no_command) registered
