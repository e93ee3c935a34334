-- ===== src/Task/Sample.antt =====
-- A small machine for the runs at fixed inputs: two free blocks of the heap, the directories of the
-- kernel (at 0x100000) and of a task (at 0x101000), which map every page to itself, and a program's
-- string "hi" at 0x400000.
use custom_peach_os.Prelude.{
  ℕ, zero, suc, ◌+◌, ◌-◌, ◌*◌, ◌/◌, ◌%◌, ◌<◌, ◌≡◌, refl, ap, ◌∙◌, inl, some, [], ◌∷◌, arith, ltb,
  ◌==◌, if◌then◌else◌,
}
use custom_peach_os.Heap.{align_value_to_upper}
use custom_peach_os.Heap.Search.{Run}
use custom_peach_os.Heap.Alloc.{blocks_for, IsPlaced, address_of}
use custom_peach_os.Heap.Whole.{IsWhole}
use custom_peach_os.Memory.{Kernel}
use custom_peach_os.Paging.{Words, table_of}
use custom_peach_os.Paging.Frame.{table_of_lem}
use custom_peach_os.Paging.Entries.{entry, IsChunk, paging_get-slot}
use custom_peach_os.Task.Copy.{translate}
use custom_peach_os.Task.Copy.Shared.{IsIdentity, IsApart, translate-IsIdentity}

abbrev pub kernel_directory : ℕ
kernel_directory = 0x10_0000

abbrev pub task_directory : ℕ
task_directory = 0x10_1000

abbrev pub pages : Words
pages a =
    if ltb a 0x10_1000
    then 0x20_0000 + (a - 0x10_0000) / 4 * 4096 + 7
    else (if ltb a 0x10_2000
        then 0x60_0000 + (a - 0x10_1000) / 4 * 4096 + 7
        else (if ltb a 0x60_0000
            then (a - 0x20_0000) / 4 * 4096 + 7
            else (a - 0x60_0000) / 4 * 4096 + 7))

kernel_entry : (i : ℕ) → i < 1024 → entry pages kernel_directory i ≡ 0x20_0000 + i * 4096 + 7
kernel_entry i lt = ground arith

task_entry : (i : ℕ) → i < 1024 → entry pages task_directory i ≡ 0x60_0000 + i * 4096 + 7
task_entry i lt = ground arith

task_table : (i : ℕ) → i < 1024 → table_of (entry pages task_directory i) ≡ 0x60_0000 + i * 4096
task_table i lt =
    ap table_of (task_entry i lt)
    ∙ table_of_lem (0x60_0000 + i * 4096 + 7) (omega arith)
    ∙ omega arith

kernel_table : (i : ℕ) → i < 1024 → table_of (entry pages kernel_directory i) ≡ 0x20_0000 + i * 4096
kernel_table i lt =
    ap table_of (kernel_entry i lt)
    ∙ table_of_lem (0x20_0000 + i * 4096 + 7) (omega arith)
    ∙ omega arith

pub task-IsChunk : IsChunk pages task_directory
task-IsChunk = record {
  aligned = omega arith;
  word = λ i lt. omega (arith, task_entry i lt);
  apart = λ i lt e. omega (arith, task_table i lt, e);
  distinct = λ i j lt lt' e. omega (arith, task_table i lt, task_table j lt', e);
}

pub kernel-IsIdentity : IsIdentity pages kernel_directory
kernel-IsIdentity page small al =
    paging_get-slot pages kernel_directory page al
    ∙ ap (λ t. pages (t + 4 * (page % 4_194_304 / 4096)))
        (kernel_table (page / 4_194_304) (omega arith))
    ∙ ground arith

pub task-IsIdentity : IsIdentity pages task_directory
task-IsIdentity page small al =
    paging_get-slot pages task_directory page al
    ∙ ap (λ t. pages (t + 4 * (page % 4_194_304 / 4096)))
        (task_table (page / 4_194_304) (omega arith))
    ∙ ground arith

abbrev pub kernel : Kernel
kernel = record {
  heap = record { entries = 0 ∷ 0 ∷ []; saddr = 0x0100_0000 };
  mem = λ a. if a == 0x40_0000 then b'h' else if a == 0x40_0001 then b'i' else 0;
}

pub kernel-IsPlaced : IsPlaced kernel.heap
kernel-IsPlaced = record { not_null = omega arith; in_space = omega arith; offsets = omega arith }

pub kernel-IsWhole : IsWhole kernel.heap.entries
kernel-IsWhole zero lt = inl refl
kernel-IsWhole (suc zero) lt = inl refl
kernel-IsWhole (suc (suc k)) lt = absurd (omega arith)

first-Run : Run kernel.heap.entries 0 1
first-Run zero le lt = refl
first-Run (suc k) le lt = absurd (omega arith)

pub kernel-Run : Run kernel.heap.entries 0 (blocks_for 1024)
unfolding align_value_to_upper
kernel-Run = first-Run

-- The kernel's buffer stands at 0x5f0000.
abbrev pub place : ℕ → ℕ
place i = 0x40_0000 + i

pub sees_string :
    (i : ℕ) → i < 1024 → translate pages task_directory (0x40_0000 + i) ≡ some (place i)
sees_string i lt =
    translate-IsIdentity pages task_directory (0x40_0000 + i) task-IsIdentity (omega arith)

pub blocks-IsApart : (s : ℕ) → IsApart 0x40_0000 0x5f_0000 1024 (address_of kernel.heap s) place
blocks-IsApart s = record {
  places = λ i lt. inl (omega arith);
  pages = λ i lt. inl (omega arith);
  buffer = inl (omega arith);
}
