-- ===== src/Idt/Commands.antt =====
-- Registering a kernel command, and running commands after it.
use custom_peach_os.Prelude.{
  ℕ, ◌<◌, ◌≡◌, refl, sym, ◌∙◌, Option, none, some, List, arith, leb, ◌==◌, ==_iff, Bool-cases,
  Option-cases, inl, inr, if◌then◌else◌, length, get_or, set, get_or-set_self, get_or-set_ne,
}
use custom_peach_os.Prelude.Int.{pos}
use custom_peach_os.Idt.{
  Command, max_isr80h_commands, isr80h_register_command, isr80h_handle_command,
}

module _ {S : Type 0} where
  register_of :
      (commands commands' : List (Option (Command S))) (id : ℕ) (c : Command S)
      → isr80h_register_command commands (pos id) c ≡ some commands'
      → (id < max_isr80h_commands)
        × (get_or commands id none ≡ none)
        × (commands' ≡ set commands id (some c))
  unfolding isr80h_register_command
  register_of commands commands' id c h = elim (Option-cases (get_or commands id none)) [
    | inl free ↦ (ground arith, free, ground arith)
    | inr (old, taken) ↦ absurd (ground arith)
  ]

  handle_same :
      (commands : List (Option (Command S))) (j : ℕ) (s : S) {o : Option (Command S)}
      → get_or commands j none ≡ o
      → isr80h_handle_command commands (pos j) s ≡ (
          if leb max_isr80h_commands j then (0, s) else elim o [ none ↦ (0, s) | some run ↦ run s ])
  unfolding isr80h_handle_command
  handle_same commands j s e = rw e

  -- Where a command is registered in the table of 1024 without a panic, there was none with its
  -- number; from then on its number runs it, and every other number runs what it ran before.
  pub isr80h_handle-register :
      (commands commands' : List (Option (Command S))) (id j : ℕ) (c : Command S) (s : S)
      → length commands ≡ max_isr80h_commands
      → isr80h_register_command commands (pos id) c ≡ some commands'
      → (isr80h_handle_command commands (pos id) s ≡ (0, s))
        × (isr80h_handle_command commands' (pos j) s
            ≡ (if j == id then c s else isr80h_handle_command commands (pos j) s))
  unfolding isr80h_handle_command
  isr80h_handle-register commands commands' id j c s len h =
      let (lt, free, same) = register_of commands commands' id c h in
      (
        handle_same commands id s free ∙ ground arith,
        rw same (elim (Bool-cases (j == id)) [
          | inl e ↦ rw ((==_iff j id).0 e) (
              handle_same (set commands id (some c)) id s
                (get_or-set_self commands id (some c) none (omega arith))
              ∙ ground arith)
          | inr ne ↦ rw ne (
              handle_same (set commands id (some c)) j s
                (get_or-set_ne commands id j (some c) none (ground arith))
              ∙ sym (handle_same commands j s refl))
        ]),
      )
