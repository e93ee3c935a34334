-- ===== src/Process/Mapping/Whole.antt =====
-- The whole of `process_map_memory`: the program, and the stack over it.
use custom_peach_os.Prelude.{ℕ, ◌+◌, ◌%◌, ◌^◌, ◌≤◌, ◌<◌, ◌≡◌, refl, sym, ap, arith}
use mathlib.Core.Path.{subst}
use native.Mathlib.Nat.{mod-eq_of_lt}
use custom_peach_os.Prelude.Int.{ℤ}
use custom_peach_os.Status.{all_ok}
use custom_peach_os.Paging.{Words, paging_align_address, paging_get, paging_map_to}
use custom_peach_os.Paging.Frame.{align_bounds}
use custom_peach_os.Paging.Entries.{IsChunk}
use custom_peach_os.Paging.Chunk.{paging_new_4gb}
use custom_peach_os.Paging.Chunk.Round.{IsAllocator}
use custom_peach_os.Paging.Chunk.Fresh.{paging_new_4gb_lem}
use custom_peach_os.Elf.{program_virtual_address}
use custom_peach_os.Process.Mapping.{
  user_program_stack_size, program_virtual_stack_address_end, Image, elf, binary,
  process_map_binary, process_map_elf, map_image, process_map_memory,
}
use custom_peach_os.Process.Mapping.Pages.{
  View, map_view, Fits, Shows, map_to-Shows, AllFit, elf_view, map_elf_loop-Shows,
}

-- A program of one block that is given by its first byte and its size.
pub record BinaryFits (ptr size : ℕ) : Type 0 where
  pub aligned : ptr % 4096 ≡ 0
  pub in_memory : ptr + size + 4096 ≤ 2 ^ 32
  pub in_space : program_virtual_address + size + 4096 ≤ 2 ^ 32

abbrev pub ImageFits : Image → Type 0
ImageFits (elf file phdrs) = AllFit file phdrs
ImageFits (binary ptr size) = BinaryFits ptr size

-- What the program changes of a view: each page of it is present, for all, and writable if the segment
-- or the program is.
abbrev pub image_view : View → Image → View
image_view view (elf file phdrs) = elf_view view file phdrs
image_view view (binary ptr size) =
    map_view view program_virtual_address ptr (paging_align_address (ptr + size)) 7

-- The stack hides what is at its pages.
abbrev pub process_view : View → Image → ℕ → View
process_view view image stack =
    map_view (image_view view image) program_virtual_stack_address_end stack
      (stack + user_program_stack_size) 7

binary-Fits :
    (ptr size : ℕ)
    → BinaryFits ptr size
    → Fits program_virtual_address ptr (paging_align_address (ptr + size))
binary-Fits ptr size b =
    let (up, ge, lt, down, le, gt) = align_bounds (ptr + size) b.in_memory in
    record {
      virt_aligned = omega arith;
      phys_aligned = b.aligned;
      end_aligned = up;
      order = omega arith;
      end_below = omega (arith, b.in_memory);
      inside = omega (arith, b.in_space);
    }

map_image-Shows :
    (mem : Words) (view : View) (directory : ℕ) (image : Image)
    → Shows view directory (all_ok, mem)
    → ImageFits image
    → Shows (image_view view image) directory (map_image mem directory image)
unfolding map_image process_map_binary process_map_elf
map_image-Shows mem view directory (elf file phdrs) s fits =
    map_elf_loop-Shows mem view directory file phdrs s fits
map_image-Shows mem view directory (binary ptr size) s fits =
    let end : ℕ = paging_align_address (ptr + size) in
    let shown =
      map_to-Shows mem view directory program_virtual_address ptr end 7 s
        (binary-Fits ptr size fits) (omega arith) in
    let small : ptr + size < 2 ^ 32 = omega (arith, fits.in_memory) in
    subst
      (λ p. Shows (map_view view program_virtual_address ptr end 7) directory (
        all_ok,
        (paging_map_to mem directory program_virtual_address ptr (paging_align_address p) 7).1,
      ))
      (sym (mod-eq_of_lt small)) (record { ok = refl; chunk = shown.chunk; pages = shown.pages })

aligned_is : (a : ℕ) → a % 4096 ≡ 0 → paging_align_address a ≡ a
unfolding paging_align_address
aligned_is a al = ground arith

stack_step :
    (mem mem' : Words) (directory : ℕ) (image : Image) (stack : ℕ)
    → stack % 4096 ≡ 0
    → stack + user_program_stack_size < 2 ^ 32
    → map_image mem directory image ≡ (all_ok, mem')
    → process_map_memory mem directory image stack ≡ (
      all_ok,
      (paging_map_to mem' directory program_virtual_stack_address_end stack
          (stack + user_program_stack_size)
          7).1,
    )
unfolding process_map_memory
stack_step mem mem' directory image stack al small mapped =
    rw (mapped, mod-eq_of_lt small, aligned_is (stack + user_program_stack_size) (omega arith)) refl

process_map_memory-over :
    (mem : Words) (view : View) (directory : ℕ) (image : Image) (stack : ℕ)
    → Shows view directory (all_ok, mem)
    → ImageFits image
    → stack % 4096 ≡ 0
    → stack + user_program_stack_size < 2 ^ 32
    → Shows (process_view view image stack) directory (process_map_memory mem directory image stack)
process_map_memory-over mem view directory image stack before fits al small =
    let r : ℤ × Words = map_image mem directory image in
    let program = map_image-Shows mem view directory image before fits in
    let shown : Shows (image_view view image) directory (all_ok, r.1) = record {
      ok = refl;
      chunk = program.chunk;
      pages = program.pages;
    } in
    let whole =
      map_to-Shows r.1 (image_view view image) directory program_virtual_stack_address_end stack
        (stack + user_program_stack_size) 7 shown
        (record {
          virt_aligned = omega arith;
          phys_aligned = al;
          end_aligned = omega arith;
          order = omega arith;
          end_below = small;
          inside = omega arith;
        })
        (omega arith) in
    subst (Shows (process_view view image stack) directory)
      (sym (stack_step mem r.1 directory image stack al small (ap (λ k. (k, r.1)) program.ok)))
      (record { ok = refl; chunk = whole.chunk; pages = whole.pages })

-- On a well-formed directory, under the same conditions on the program and the stack,
-- `process_map_memory` shows the entries that the directory had under those of the program and the
-- stack.
pub process_map_memory-Shows :
    (mem : Words) (directory : ℕ) (image : Image) (stack : ℕ)
    → IsChunk mem directory
    → ImageFits image
    → stack % 4096 ≡ 0
    → stack + user_program_stack_size < 2 ^ 32
    → Shows
        (process_view (paging_get mem directory) image stack)
        directory
        (process_map_memory mem directory image stack)
process_map_memory-Shows mem directory image stack c fits al small =
    process_map_memory-over mem (paging_get mem directory) directory image stack
      (record { ok = refl; chunk = c; pages = λ page lt al'. refl }) fits al small

-- If the calls of `kzalloc` give 1025 pages of their own, the stack is four whole pages of the
-- memory, and the parts of the program lie in the memory and in the address space with a page or
-- two to spare, then `process_map_memory` on a new chunk with flags 5 returns 0 and keeps the
-- directory well formed; each page then has the entry of the stack, if it is one of the stack's
-- four, or else that of the last segment that covers it (of the binary program, if it is one), or
-- else its own address, not writable.
pub process_map_memory-paging_new_4gb :
    (alloc : ℕ → ℕ) (mem : Words) (image : Image) (stack : ℕ)
    → IsAllocator alloc
    → ImageFits image
    → stack % 4096 ≡ 0
    → stack + user_program_stack_size < 2 ^ 32
    → Shows (process_view (λ page. page + 5) image stack) (paging_new_4gb alloc 5 mem).1 (
        process_map_memory
          (paging_new_4gb alloc 5 mem).0
          (paging_new_4gb alloc 5 mem).1
          image
          stack)
process_map_memory-paging_new_4gb alloc mem image stack ok fits al small =
    let (chunk, identity) = paging_new_4gb_lem alloc 5 mem ok in
    process_map_memory-over (paging_new_4gb alloc 5 mem).0 (λ page. page + 5)
      (paging_new_4gb alloc 5 mem).1 image stack
      (record { ok = refl; chunk = chunk; pages = identity }) fits al small
