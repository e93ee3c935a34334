-- ===== src/Process/Slots.antt =====
-- Loading into the first free slot, and into a full table.
use custom_peach_os.Prelude.{
  ℕ, zero, suc, ◌+◌, ◌<◌, ◌≡◌, ◌≢◌, refl, ap, ◌∙◌, [], ◌∷◌, arith, length, get_or, set, Option,
  none, some,
}
use custom_peach_os.Prelude.Int.{ℤ, pos}
use custom_peach_os.Status.{max_processes}
use custom_peach_os.Process.{
  Processes, process_get, free_slot_loop, process_get_free_slot, process_load_for_slot,
  process_load,
}

-- The first empty entry from the front.
free_slot_loop-first :
    (ps : Processes) (i k : ℕ)
    → k < length ps
    → get_or ps k 0 ≡ 0
    → ((j : ℕ) → j < k → get_or ps j 0 ≢ 0)
    → free_slot_loop ps i ≡ pos (i + k)
unfolding free_slot_loop
free_slot_loop-first [] i k lt e taken = absurd (omega arith)
free_slot_loop-first (p ∷ ps) i zero lt e taken = ground arith
free_slot_loop-first (p ∷ ps) i (suc k) lt e taken = ground (
  arith,
  taken 0 (omega arith),
  free_slot_loop-first ps (i + 1) k (omega arith) e (λ j lt'. taken (suc j) (omega arith)),
)

free_slot_loop-full :
    (ps : Processes) (i : ℕ)
    → ((j : ℕ) → j < length ps → get_or ps j 0 ≢ 0)
    → free_slot_loop ps i ≡ pos 8
unfolding free_slot_loop
free_slot_loop-full [] i taken = refl
free_slot_loop-full (p ∷ ps) i taken = ground (
  arith,
  taken 0 (omega arith),
  free_slot_loop-full ps (i + 1) (λ j lt. taken (suc j) (omega arith)),
)

-- The table with the process, if there is one, in its slot.
abbrev pub installed :
    {S : Type 0} → Processes → ℕ → Option (ℤ × Option ℕ × S) → Option (ℤ × Option ℕ × S × Processes)
installed ps k none = none
installed ps k (some (res, none, s)) = some (res, none, s, ps)
installed ps k (some (res, some process, s)) = some (res, some process, s, set ps k process)

module _ {S : Type 0} (load : S → ℕ → Option (ℤ × Option ℕ × S)) where
  -- With a full table of 12 processes `process_load` reads through a pointer that is not set, since the
  -- number 8 of the code for this case is taken for a slot.
  pub process_load-full :
      (s : S) (ps : Processes)
      → length ps ≡ max_processes
      → ((j : ℕ) → j < max_processes → get_or ps j 0 ≢ 0)
      → process_load load s ps ≡ none
  unfolding process_load process_load_for_slot process_get process_get_free_slot
  process_load-full s ps len taken =
      rw (free_slot_loop-full ps 0 (λ j lt. taken j (omega arith)), process_load)
        (ground (arith, taken 8 (omega arith)))

  for_slot :
      (s : S) (ps : Processes) (k : ℕ)
      → k < max_processes
      → get_or ps k 0 ≡ 0
      → (o : Option (ℤ × Option ℕ × S)) → load s k ≡ o
      → process_load_for_slot load s ps k ≡ installed ps k o
  unfolding process_load_for_slot process_get
  for_slot s ps k lt e none l = ground arith
  for_slot s ps k lt e (some (res, none, s')) l = ground arith
  for_slot s ps k lt e (some (res, some process, s')) l = ground arith

  -- With a table of 12 processes whose first empty slot is `k`, `process_load` loads the program
  -- for that slot, and enters the process there if the loading comes to its end.
  pub process_load-first :
      (s : S) (ps : Processes) (k : ℕ)
      → length ps ≡ max_processes
      → k < max_processes
      → get_or ps k 0 ≡ 0
      → ((j : ℕ) → j < k → get_or ps j 0 ≢ 0)
      → process_load load s ps ≡ installed ps k (load s k)
  unfolding process_load process_get_free_slot
  process_load-first s ps k len lt e taken =
      rw
        (
          free_slot_loop-first ps 0 k (omega arith) e taken
              ∙ ap pos {x = 0 + k} {y = k} (omega arith),
          process_load,
        )
        (for_slot s ps k lt e (load s k) refl)
