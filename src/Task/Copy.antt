-- ===== src/Task/Copy.antt =====
-- Reading the memory of a task, of src/task/task.c. The physical memory is a byte for each address
-- (that of Memory), and apart from it a word for each place in a page table (that of Paging); the
-- tables are not written through the pointers that are copied through here. The blocks of the heap
-- are found at their own addresses. `none` is a fault.
pub mod Strings
pub mod Shared
pub mod Whole
use custom_peach_os.Prelude.{
  ℕ, zero, suc, ◌+◌, ◌-◌, ◌*◌, ◌%◌, ◌^◌, Bool, true, false, Option, none, some, List, [], ◌∷◌, leb,
  ◌==◌, if◌then◌else◌, bit_and,
}
use custom_peach_os.Prelude.Int.{ℤ, is_neg}
use custom_peach_os.Status.{all_ok, eio, einvarg, enomem}
use custom_peach_os.Memory.{Mem, store, Kernel, kzalloc, kfree}
use custom_peach_os.Paging.{Words, page_size, table_of, paging_get, paging_set, paging_map}
use custom_peach_os.Task.Switch.{Cpu, paging_switch, kernel_page, task_page_task}

-- Where the processor finds a virtual address, if its page is present.
unfoldable pub translate : Words → ℕ → ℕ → Option ℕ
translate pages directory virt =
    let entry = paging_get pages directory (virt - virt % page_size) in
    if bit_and entry 1 == 0 then none else some (table_of entry + virt % page_size)

-- A pointer that is moved by some bytes.
abbrev pub advance : ℕ → ℕ → ℕ
advance p n = (p + n) % 2 ^ 32

module _ (at : ℕ → Option ℕ) where
  unfoldable pub read : Mem → ℕ → Option ℕ
  read mem p = elim (at p) [ none ↦ none | some a ↦ some (mem a) ]

  unfoldable pub write : Mem → ℕ → ℕ → Option Mem
  write mem p c = elim (at p) [ none ↦ none | some a ↦ some (store mem a c) ]

  -- `strncpy` through pointers, with `count - 1` rounds left.
  unfoldable pub strncpy_loop : Mem → (dest src rounds : ℕ) → Option Mem
  unfolding read write
  strncpy_loop mem dest src zero = write mem dest 0
  strncpy_loop mem dest src (suc rounds) = elim (read mem src) [
    | none ↦ none
    | some c ↦ elim (c == 0) [
      | true ↦ write mem dest 0
      | false ↦ elim (write mem dest c) [
        | none ↦ none
        | some mem' ↦ strncpy_loop mem' (advance dest 1) (advance src 1) rounds
      ]
    ]
  ]

  unfoldable pub strncpy : Mem → (dest src count : ℕ) → Option Mem
  unfolding strncpy_loop
  strncpy mem dest src count = strncpy_loop mem dest src (count - 1)

-- The kernel's memory, the page tables, and the processor.
pub record World : Type 0 where
  pub kernel : Kernel
  pub pages : Words
  pub cpu : Cpu

-- From the copy in `tmp` on, up to `out:`; `pages` are the tables with `tmp` in the task's pages.
unfoldable pub copy_shared :
    World → Words → (kernel_chunk directory virt phys max tmp : ℕ) → Option (ℤ × World)
unfolding paging_switch kernel_page
copy_shared w pages kernel_chunk directory virt phys max tmp =
    let old_entry = paging_get w.pages directory tmp in
    let cpu1 = paging_switch w.cpu directory in
    elim (strncpy (translate pages cpu1.current_directory) w.kernel.mem tmp virt max) [
      | none ↦ none
      | some mem1 ↦
          let cpu2 = kernel_page cpu1 kernel_chunk in
          let (res, pages2) = paging_set pages directory tmp old_entry in
          let copied =
            if is_neg res
            then some mem1
            else strncpy (translate pages2 cpu2.current_directory) mem1 phys tmp max in
          elim copied [
            | none ↦ none
            | some mem2 ↦ elim (kfree (record (w.kernel) { mem = mem2 }) tmp) [
              | none ↦ none
              | some kernel ↦ some (
                if is_neg res then eio else res,
                record { kernel = kernel; pages = pages2; cpu = cpu2 },
              )
            ]
          ]
    ]

-- `max` is not negative. `directory` is the task's, and `phys` an address of the kernel's.
unfoldable pub copy_string_from_task :
    World → (kernel_chunk directory virt phys max : ℕ) → Option (ℤ × World)
copy_string_from_task w kernel_chunk directory virt phys max =
    if leb page_size max then some (einvarg, w) else elim (kzalloc w.kernel max) [
      | none ↦ none
      | some (tmp, kernel) ↦
          let w1 = record w { kernel = kernel } in
          if tmp == 0
          then some (enomem, w1)
          else copy_shared w1 (paging_map w.pages directory tmp tmp 7).1 kernel_chunk directory virt
              phys max tmp
    ]

-- The word at a place, as the processor reads it in some pages; it does not lie across the end of one.
unfoldable pub word_seen : Words → Mem → (directory place : ℕ) → Option ℕ
word_seen pages mem directory place = elim (translate pages directory place) [
  | none ↦ none
  | some a ↦ some (mem a + mem (a + 1) * 2 ^ 8 + mem (a + 2) * 2 ^ 16 + mem (a + 3) * 2 ^ 24)
]

unfoldable pub task_get_stack_item :
    World → (kernel_chunk directory esp index : ℕ) → Option (ℕ × World)
unfolding word_seen kernel_page task_page_task
task_get_stack_item w kernel_chunk directory esp index =
    let cpu1 = task_page_task w.cpu directory in
    elim (word_seen w.pages w.kernel.mem cpu1.current_directory (advance esp (4 * index))) [
      | none ↦ none
      | some result ↦ some (result, record w { cpu = kernel_page cpu1 kernel_chunk })
    ]
