-- ===== src/Task/Copy/Whole.antt =====
-- `copy_string_from_task` as a whole, over the kernel's heap.
use custom_peach_os.Prelude.{
  ℕ, ◌+◌, ◌-◌, ◌%◌, ◌^◌, ◌≤◌, ◌<◌, ◌≡◌, refl, ap, ◌∙◌, some, true, [], ◌∷◌, ◌++◌, arith,
  if◌then◌else◌, length,
}
use mathlib.Core.Path.{subst}
use custom_peach_os.Status.{all_ok}
use custom_peach_os.CString.{Bytes, cstr}
use custom_peach_os.Heap.Search.{Run, free_at}
use custom_peach_os.Heap.Alloc.{blocks_for, blocks_for_bounds, IsPlaced, address_of}
use custom_peach_os.Heap.Whole.{IsWhole}
use custom_peach_os.Memory.{Kernel, kzalloc, kfree}
use custom_peach_os.Memory.Blocks.{inside, kzalloc_lem, kzalloc-free}
use custom_peach_os.Paging.{paging_map}
use custom_peach_os.Paging.Entries.{IsChunk}
use custom_peach_os.Task.Copy.{World, translate, copy_shared, copy_string_from_task}
use custom_peach_os.Task.Copy.Strings.{seen, seen_same, write_bytes, write_bytes-over}
use custom_peach_os.Task.Copy.Shared.{
  IsIdentity, Elsewhere, IsApart, after, after-elsewhere, copy_shared_lem,
}

-- Outside of a block, the string with a NUL is all that is new in memory; the page tables and the
-- heap are as they were, and the kernel's pages and segments are loaded.
pub record Copied (w w' : World) (kernel_chunk phys block : ℕ) (string : Bytes) : Type 0 where
  pub pages_same : w'.pages ≡ w.pages
  pub heap_same : w'.kernel.heap ≡ w.kernel.heap
  pub loaded : w'.cpu ≡ record { current_directory = kernel_chunk; data_segment = 0x10 }
  pub bytes :
      (a : ℕ)
      → Elsewhere block a
      → w'.kernel.mem a ≡ write_bytes w.kernel.mem phys (string ++ (0 ∷ [])) a

-- A new block of the heap, which the memory outside of it does not change with.
fresh_block :
    (k : Kernel) (size t : ℕ)
    → IsPlaced k.heap
    → IsWhole k.heap.entries
    → 0 < blocks_for size
    → Run k.heap.entries t (blocks_for size)
    → (s : ℕ) × (k' : Kernel) × (kzalloc k size ≡ some (address_of k.heap s, k'))
      × (s < length k.heap.entries)
      × (free_at k.heap.entries s ≡ true)
      × ((a : ℕ) → k'.mem a ≡ (if inside (address_of k.heap s) size a then 0 else k.mem a))
      × (kfree k' (address_of k.heap s) ≡ some (record k' { heap = k.heap }))
fresh_block k size t p whole pos_n run =
    let (s, k', done, lt, zeroed, freed) = kzalloc-free k size t p whole pos_n run in
    let (s', k1, done', alloc, zeroed') = kzalloc_lem k size t p pos_n run in
    let address : address_of k.heap s ≡ address_of k.heap s' = cc (done, done') in
    let same : s' ≡ s = omega (arith, address) in
    (
      s,
      k',
      done,
      lt,
      subst (λ b. free_at k.heap.entries b ≡ true) same
          (alloc.were_free s' (omega arith) (omega arith)),
      zeroed,
      freed,
    )

copy_of :
    (w : World) (kernel_chunk directory virt phys max tmp : ℕ) (k : Kernel)
    → max < 4096
    → 0 < tmp
    → kzalloc w.kernel max ≡ some (tmp, k)
    → copy_string_from_task w kernel_chunk directory virt phys max
      ≡ copy_shared
          (record w { kernel = k })
          (paging_map w.pages directory tmp tmp 7).1
          kernel_chunk
          directory
          virt
          phys
          max
          tmp
unfolding copy_string_from_task
copy_of w kernel_chunk directory virt phys max tmp k lt pos_p done = ground arith

-- Let the heap lie in the address space from a page boundary on, its table be whole, and a block be
-- free; let the task's directory be well formed, and the kernel's map every page to itself. For a
-- `max` from 1 to 4095, where the task has pages for the `max` bytes from `virt` on, and neither
-- these bytes nor the `max` bytes at `phys` lie in a free block (the task's also not by their virtual
-- addresses), `copy_string_from_task` terminates and returns 0. It leaves the string that the task
-- sees at `virt`, cut to `max - 1` bytes, at `phys` with a NUL behind it, and all other memory as it
-- was, but for one free block; the heap and all page tables are as before, and the kernel's pages are
-- loaded.
pub copy_string_from_task_lem :
    (w : World) (kernel_chunk directory virt phys max t : ℕ) (at : ℕ → ℕ)
    → IsPlaced w.kernel.heap
    → IsWhole w.kernel.heap.entries
    → w.kernel.heap.saddr % 4096 ≡ 0
    → 0 < max
    → max < 4096
    → Run w.kernel.heap.entries t (blocks_for max)
    → IsChunk w.pages directory
    → IsIdentity w.pages kernel_chunk
    → virt + max ≤ 2 ^ 32
    → phys + max ≤ 2 ^ 32
    → ((i : ℕ) → i < max → translate w.pages directory (virt + i) ≡ some (at i))
    → ((s : ℕ)
        → s < length w.kernel.heap.entries
        → free_at w.kernel.heap.entries s ≡ true
        → IsApart virt phys max (address_of w.kernel.heap s) at)
    → (s : ℕ) × (w' : World) × (s < length w.kernel.heap.entries)
      × (free_at w.kernel.heap.entries s ≡ true)
      × (copy_string_from_task w kernel_chunk directory virt phys max ≡ some (all_ok, w'))
      × Copied w w' kernel_chunk phys
          (address_of w.kernel.heap s)
          (cstr (seen w.kernel.mem at (max - 1)))
copy_string_from_task_lem w kernel_chunk directory virt phys max t at p whole al some_byte one_page
      run c identity virt_in phys_in sees apart =
    let (s, k, done, lt, was_free, zeroed, freed) =
      fresh_block w.kernel max t p whole (omega (arith, blocks_for_bounds max (omega arith))) run in
    let tmp : ℕ = address_of w.kernel.heap s in
    let w1 : World = record w { kernel = k } in
    let own = apart s lt was_free in
    let same_string : seen k.mem at (max - 1) ≡ seen w.kernel.mem at (max - 1) =
      seen_same w.kernel.mem k.mem at (max - 1)
        (λ i lt'. ground (arith, zeroed (at i), own.places i (omega arith))) in
    let in_space : tmp + 4096 ≤ 2 ^ 32 = omega (arith, p.in_space) in
    let aligned : tmp % 4096 ≡ 0 = omega arith in
    (
      s,
      record {
        kernel = record {
          heap = w.kernel.heap;
          mem =
              after w1 kernel_chunk directory virt phys max tmp at c identity aligned in_space
                some_byte one_page virt_in phys_in sees own;
        };
        pages = w.pages;
        cpu = record { current_directory = kernel_chunk; data_segment = 0x10 };
      },
      lt,
      was_free,
      copy_of w kernel_chunk directory virt phys max tmp k one_page (omega (arith, p.not_null)) done
          ∙ copy_shared_lem w1 kernel_chunk directory virt phys max tmp at c identity aligned
              in_space some_byte one_page virt_in phys_in sees own w.kernel.heap freed,
      record {
        pages_same = refl;
        heap_same = refl;
        loaded = refl;
        bytes = λ a other.
            after-elsewhere w1 kernel_chunk directory virt phys max tmp at c identity aligned
              in_space some_byte one_page virt_in phys_in sees own a other
            ∙ ap (λ s. write_bytes k.mem phys (cstr s ++ (0 ∷ [])) a) same_string
            ∙ write_bytes-over (cstr (seen w.kernel.mem at (max - 1)) ++ (0 ∷ [])) k.mem
                w.kernel.mem phys a (ground (arith, zeroed a));
      },
    )
