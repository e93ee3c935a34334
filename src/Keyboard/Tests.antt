-- ===== src/Keyboard/Tests.antt =====
-- The key buffer on a few keys, and its theorems at inputs that meet their hypotheses.
use custom_peach_os.Prelude.{
  ℕ, ◌+◌, ◌≡◌, refl, Option, none, some, set, List, [], ◌∷◌, arith, replicate, length-replicate,
  get_or-replicate, get_or-replicate_in, ◌%◌,
}
use custom_peach_os.Task.{InterruptFrame, Task, write, task_save_state, zeroed}
use custom_peach_os.Keyboard.Interrupt.{
  Interrupted, classic_keyboard_handle_interrupt, interrupt_handler,
}
use custom_peach_os.Keyboard.Interrupt.Key.{key_of, interrupt_handler-key}
use custom_peach_os.Keyboard.{KeyboardBuffer, scancode_to_char}
use custom_peach_os.Keyboard.Ring.{IsValid}
use custom_peach_os.Keyboard.Queue.{
  Shows, Op, put, get, run, run_queue, enqueue, dequeue, run_refines,
}

abbrev fresh : KeyboardBuffer
fresh = record { buffer = replicate 1024 0; tail = 0; head = 0 }

fresh-IsValid : IsValid fresh
fresh-IsValid = record {
  storage = length-replicate {A = ℕ} 1024 0;
  head_word = omega arith;
  tail_word = omega arith;
  fits = omega arith;
  filled = λ k lt. absurd (omega arith);
  blank = λ k le lt. get_or-replicate {A = ℕ} 1024 ((0 + k) % 1024) 0;
}

fresh-Shows : Shows (some fresh) []
fresh-Shows = record { buffer = fresh; present = refl; valid = fresh-IsValid; queue = refl }

-- Two keys are typed, three read.
abbrev typing : List Op
typing = put 65 ∷ put 66 ∷ get ∷ get ∷ get ∷ []

typing-queue : run_queue [] typing ≡ some (65 ∷ 66 ∷ 0 ∷ [])
unfolding run_queue enqueue dequeue
typing-queue = refl

run_refines_example : run (some fresh) typing ≡ 65 ∷ 66 ∷ 0 ∷ []
run_refines_example = run_refines typing (some fresh) [] (65 ∷ 66 ∷ 0 ∷ []) fresh-Shows typing-queue

-- A buffer of 1024 unread keys.
abbrev crowded : KeyboardBuffer
crowded = record { buffer = replicate 1024 65; tail = 1024; head = 0 }

crowded-IsValid : IsValid crowded
crowded-IsValid = record {
  storage = length-replicate {A = ℕ} 1024 65;
  head_word = omega arith;
  tail_word = omega arith;
  fits = omega arith;
  filled =
      λ k lt e. omega (arith, get_or-replicate_in {A = ℕ} 1024 ((0 + k) % 1024) 65 0 (omega arith));
  blank = λ k le lt. absurd (omega arith);
}

letter_a : scancode_to_char 30 ≡ some 65
unfolding scancode_to_char
letter_a = refl

-- The test is `>` where the table ends at 81.
behind_the_table : scancode_to_char 82 ≡ none
unfolding scancode_to_char
behind_the_table = refl

-- The key A is pressed while a program runs.
abbrev frame : InterruptFrame
frame = record {
  edi = 1;
  esi = 2;
  ebp = 3;
  reserved = 0;
  ebx = 4;
  edx = 5;
  ecx = 6;
  eax = 7;
  ip = 0x40_0010;
  cs = 0x1b;
  flags = 0x202;
  esp = 0x3f_f000;
  ss = 0x23;
}

abbrev only_task : Task
only_task = record {
  page_directory = 0x20_0000;
  registers = zeroed;
  process = 0x50_0000;
  next = 0;
  prev = 0;
}

abbrev at_work : Interrupted
at_work = record {
  running = record {
    cpu = record { current_directory = 0x20_0000; data_segment = 0x23 };
    tasks = record {
      store = λ a. only_task;
      task_head = 0x60_0000;
      task_tail = 0x60_0000;
      current_task = 0x60_0000;
    };
  };
  kernel_chunk = 0x10_0000;
  hardware = record { callbacks = set (replicate 512 0) 0x21 0x10_1300; outputs = [] };
  keyboard = some fresh;
  input = λ n. 30;
  reads = 0;
}

abbrev functions : ℕ → InterruptFrame → Interrupted → Option Interrupted
functions address at m = classic_keyboard_handle_interrupt m

pressed_a : key_of 30 ≡ some 65
unfolding key_of scancode_to_char
pressed_a = refl

queue_a : enqueue [] 65 ≡ some (65 ∷ [])
unfolding enqueue
queue_a = refl

interrupt_handler-key_example :
    let saved = task_save_state only_task frame in
    (m' : Interrupted) × (interrupt_handler functions 0x21 frame at_work ≡ some m')
    × Shows m'.keyboard (65 ∷ [])
    × (m'.running ≡ record {
      cpu = record { current_directory = saved.page_directory; data_segment = 0x23 };
      tasks = record (at_work.running.tasks) {
        store = write at_work.running.tasks.store 0x60_0000 saved;
      };
    })
    × (m'.hardware ≡ record (at_work.hardware) { outputs = (0x20, 0x20) ∷ [] })
    × (m'.reads ≡ 2)
interrupt_handler-key_example =
    interrupt_handler-key functions 0x10_1300 65 frame at_work [] (65 ∷ []) (λ x. refl)
      (λ e. omega (arith, e)) refl (λ e. omega (arith, e)) pressed_a fresh-Shows queue_a

-- A scan code with its top bit set is a key that is let go.
key_up : key_of 0x9e ≡ some 0
unfolding key_of
key_up = refl
