-- ===== src/Keyboard/Interrupt/Key.antt =====
-- An interrupt of the keyboard, from the port to the key buffer.
use custom_peach_os.Prelude.{
  ℕ, ◌+◌, ◌≡◌, ◌≢◌, refl, Option, some, List, ◌∷◌, arith, ◌==◌, if◌then◌else◌, bit_and, get_or, ap,
  Bool, true, false, Bool-cases, inl, inr,
}
use mathlib.Core.Path.{subst}
use custom_peach_os.Task.{InterruptFrame, Task, Store, write, task_save_state}
use custom_peach_os.Task.Switch.{task_switch, task_page, task_current_save_state}
use custom_peach_os.Keyboard.{scancode_to_char, push}
use custom_peach_os.Keyboard.Drivers.{outb}
use custom_peach_os.Keyboard.Queue.{Shows, enqueue, push_refines}
use custom_peach_os.Keyboard.Interrupt.{
  Interrupted, insb, to_kernel, to_task, classic_keyboard_handle_interrupt, interrupt_handler,
}

-- The key that a scan code is, 0 where it is none or is let go.
unfoldable pub key_of : ℕ → Option ℕ
key_of scancode = if bit_and scancode 0x80 == 0 then scancode_to_char scancode else some 0

-- The pages and segments of the current task.
tasked : Interrupted → Interrupted
tasked m =
    let t = m.running.tasks.current_task in
    record m {
      running = record (m.running) {
        cpu = record {
          current_directory = (m.running.tasks.store t).page_directory;
          data_segment = 0x23;
        };
      };
    }

to_task-tasked : (m : Interrupted) → m.running.tasks.current_task ≢ 0 → to_task m ≡ some (tasked m)
unfolding to_task task_page task_switch tasked
to_task-tasked m some_task = ground arith

-- What the keyboard's handler does, up to the pages, which are those of the task at last.
keyed : Bool → ℕ → Interrupted → Interrupted
keyed no_key c m =
    let m2 = record m { reads = m.reads + 1 + 1 } in
    if no_key then m2 else record m2 { keyboard = push m2.keyboard c }

keyed-tasked :
    (no_key : Bool) (c : ℕ) (m : Interrupted)
    → m.running.tasks.current_task ≢ 0
    → (to_task (keyed no_key c (to_kernel m)) ≡ some (tasked (keyed no_key c m)))
      × (to_task (tasked (keyed no_key c m)) ≡ some (tasked (keyed no_key c m)))
unfolding keyed tasked to_kernel
keyed-tasked true c m some_task = (to_task-tasked _ some_task, to_task-tasked _ some_task)
keyed-tasked false c m some_task = (to_task-tasked _ some_task, to_task-tasked _ some_task)

handler-keyed :
    (m : Interrupted) (c : ℕ)
    → m.running.tasks.current_task ≢ 0
    → key_of (m.input m.reads) ≡ some c
    → (m' : Interrupted) × (classic_keyboard_handle_interrupt m ≡ some m')
      × (to_task m' ≡ some (tasked (keyed (c == 0) c m)))
unfolding classic_keyboard_handle_interrupt key_of to_kernel insb keyed
handler-keyed m c some_task key = elim (Bool-cases (bit_and (m.input m.reads) 0x80 == 0)) [
  | inl pressed ↦
      let is : scancode_to_char (m.input m.reads) ≡ some c =
        subst (λ (b : Bool). (if b then scancode_to_char (m.input m.reads) else some 0) ≡ some c)
          pressed key in
      (
        tasked (keyed (c == 0) c m),
        rw pressed (rw is (keyed-tasked (c == 0) c m some_task).0),
        (keyed-tasked (c == 0) c m some_task).1,
      )
  | inr released ↦
      let is : 0 ≡ c = ground (arith, key, released) in
      (
        keyed true c (to_kernel m),
        rw released refl,
        subst (λ c. to_task (keyed true c (to_kernel m)) ≡ some (tasked (keyed (c == 0) c m))) is
            (keyed-tasked true 0 m some_task).0,
      )
]

-- The state of the program that is interrupted is kept.
kept : InterruptFrame → Interrupted → Interrupted
kept frame m =
    let t = m.running.tasks.current_task in
    record m {
      running = record (m.running) {
        tasks = record (m.running.tasks) {
          store = write m.running.tasks.store t (task_save_state (m.running.tasks.store t) frame);
        };
      };
    }

-- What is left by `interrupt_handler` for key `c`.
served : InterruptFrame → ℕ → Interrupted → Interrupted
served frame c m =
    let done = tasked (keyed (c == 0) c (kept frame (to_kernel m))) in
    record done { hardware = outb done.hardware 0x20 0x20 }

==_no : {a : ℕ} → a ≢ 0 → (a == 0) ≡ false
==_no ne = ground arith

interrupt_handler-served :
    (call : ℕ → InterruptFrame → Interrupted → Option Interrupted) (handler c : ℕ)
    (frame : InterruptFrame) (m : Interrupted)
    → ((x : Interrupted) → call handler frame x ≡ classic_keyboard_handle_interrupt x)
    → handler ≢ 0
    → get_or m.hardware.callbacks 0x21 0 ≡ handler
    → m.running.tasks.current_task ≢ 0
    → key_of (m.input m.reads) ≡ some c
    → interrupt_handler call 0x21 frame m ≡ some (served frame c m)
unfolding interrupt_handler to_kernel kept served task_current_save_state
interrupt_handler-served call handler c frame m calls ne at some_task key =
    let (m', handles, pages) = handler-keyed (kept frame (to_kernel m)) c some_task key in
    rw at (
      rw (==_no ne)
        (rw (==_no some_task) (rw (calls (kept frame (to_kernel m))) (rw handles (rw pages refl)))))

Shows-keyed :
    (c : ℕ) (m : Interrupted) (q q' : List ℕ)
    → Shows m.keyboard q
    → enqueue q c ≡ some q'
    → Shows (keyed (c == 0) c m).keyboard q'
unfolding keyed enqueue
Shows-keyed c m q q' sh e = elim (Bool-cases (c == 0)) [
  | inl z ↦ rw z (subst (Shows m.keyboard) {x = q} {y = q'} (ground (arith, e, z)) sh)
  | inr nz ↦ rw nz (push_refines m.keyboard q q' c sh e)
]

write-same : (store : Store) (a : ℕ) (task : Task) → write store a task a ≡ task
write-same store a task = ground arith

-- The pages are those of the task whose registers are kept.
own_page :
    (frame : InterruptFrame) (m : Interrupted)
    → (tasked (kept frame (to_kernel m))).running ≡ record {
      cpu = record {
        current_directory = (m.running.tasks.store m.running.tasks.current_task).page_directory;
        data_segment = 0x23;
      };
      tasks = (kept frame m).running.tasks;
    }
unfolding tasked kept to_kernel task_save_state
own_page frame m =
    let t = m.running.tasks.current_task in
    let saved = task_save_state (m.running.tasks.store t) frame in
    ap
      (λ (task : Task). record {
        cpu = record { current_directory = task.page_directory; data_segment = 0x23 };
        tasks = (kept frame m).running.tasks;
      })
      (write-same m.running.tasks.store t saved)

served-rest :
    (b : Bool) (c : ℕ) (frame : InterruptFrame) (m : Interrupted)
    → let done = tasked (keyed b c (kept frame (to_kernel m))) in
      let t = m.running.tasks.current_task in
      let saved = task_save_state (m.running.tasks.store t) frame in
      (done.running ≡ record {
        cpu = record { current_directory = saved.page_directory; data_segment = 0x23 };
        tasks = record (m.running.tasks) { store = write m.running.tasks.store t saved };
      })
      × (done.hardware ≡ m.hardware)
      × (done.reads ≡ m.reads + 2)
unfolding tasked keyed kept to_kernel task_save_state
served-rest true c frame m = (own_page frame m, refl, omega arith)
served-rest false c frame m = (own_page frame m, refl, omega arith)

-- Where the callback of interrupt 0x21 is the keyboard's handler, at an address other than 0, there
-- is a current task, the next byte of the keyboard's port is a scan code that the handler finds key
-- `c` for (0 where it is none, or is a key that is let go), and the key buffer shows a queue that
-- takes the key: `interrupt_handler` terminates, and the buffer shows the queue with the key behind
-- it. The registers of the program are kept in the current task, and no other task changes; the
-- processor goes on with the task's pages and the user's segments; two bytes are read, and the
-- interrupt is acknowledged at port 0x20.
pub interrupt_handler-key :
    (call : ℕ → InterruptFrame → Interrupted → Option Interrupted) (handler c : ℕ)
    (frame : InterruptFrame) (m : Interrupted) (q q' : List ℕ)
    → ((x : Interrupted) → call handler frame x ≡ classic_keyboard_handle_interrupt x)
    → handler ≢ 0
    → get_or m.hardware.callbacks 0x21 0 ≡ handler
    → m.running.tasks.current_task ≢ 0
    → key_of (m.input m.reads) ≡ some c
    → Shows m.keyboard q
    → enqueue q c ≡ some q'
    → let t = m.running.tasks.current_task in
      let saved = task_save_state (m.running.tasks.store t) frame in
      (m' : Interrupted) × (interrupt_handler call 0x21 frame m ≡ some m')
      × Shows m'.keyboard q'
      × (m'.running ≡ record {
        cpu = record { current_directory = saved.page_directory; data_segment = 0x23 };
        tasks = record (m.running.tasks) { store = write m.running.tasks.store t saved };
      })
      × (m'.hardware ≡ record (m.hardware) { outputs = (0x20, 0x20) ∷ m.hardware.outputs })
      × (m'.reads ≡ m.reads + 2)
unfolding served outb kept to_kernel tasked keyed
interrupt_handler-key call handler c frame m q q' calls ne at some_task key sh e =
    let (running, hardware, reads) = served-rest (c == 0) c frame m in
    (
      served frame c m,
      interrupt_handler-served call handler c frame m calls ne at some_task key,
      Shows-keyed c (kept frame (to_kernel m)) q q' sh e,
      running,
      ap (λ h. outb h 0x20 0x20) hardware,
      reads,
    )
