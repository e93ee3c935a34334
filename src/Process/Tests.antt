-- ===== src/Process/Tests.antt =====
-- Process memory and process slots at small inputs.
use custom_peach_os.Prelude.{
  ℕ, zero, suc, ◌*◌, ◌+◌, ◌<◌, ◌≡◌, ◌≢◌, refl, inl, some, List, [], ◌∷◌, arith, length, get_or, set,
  if◌then◌else◌,
}
use custom_peach_os.Heap.{align_value_to_upper}
use custom_peach_os.Heap.Search.{Run}
use custom_peach_os.Heap.Alloc.{blocks_for, IsPlaced, address_of}
use custom_peach_os.Heap.Whole.{IsWhole}
use custom_peach_os.Memory.{Kernel}
use custom_peach_os.Memory.Blocks.{inside}
use custom_peach_os.Process.{Allocations, process_malloc, process_free}
use custom_peach_os.Paging.Chunk.{paging_new_4gb}
use custom_peach_os.Paging.Chunk.Round.{IsAllocator}
use custom_peach_os.Elf.{Phdr, ElfFile, elf_phdr_phys_address}
use custom_peach_os.Process.Mapping.{elf, process_map_memory}
use custom_peach_os.Process.Mapping.Pages.{Shows, AllFit}
use custom_peach_os.Process.Mapping.Whole.{process_view, process_map_memory-paging_new_4gb}
use custom_peach_os.Process.Alloc.{Lacks, process_free-malloc}

-- A heap of two free blocks.
abbrev kernel : Kernel
kernel = record { heap = record { entries = 0 ∷ 0 ∷ []; saddr = 0x0100_0000 }; mem = λ a. a }

kernel-IsPlaced : IsPlaced kernel.heap
kernel-IsPlaced = record { not_null = omega arith; in_space = omega arith; offsets = omega arith }

kernel-IsWhole : IsWhole kernel.heap.entries
kernel-IsWhole zero lt = inl refl
kernel-IsWhole (suc zero) lt = inl refl
kernel-IsWhole (suc (suc k)) lt = absurd (omega arith)

Run-at_0 : Run kernel.heap.entries 0 2
Run-at_0 zero le lt = refl
Run-at_0 (suc zero) le lt = refl
Run-at_0 (suc (suc k)) le lt = absurd (omega arith)

kernel-Run : Run kernel.heap.entries 0 (blocks_for 5000)
unfolding align_value_to_upper
kernel-Run = Run-at_0

kernel-some_block : 0 < blocks_for 5000
unfolding align_value_to_upper
kernel-some_block = omega arith

-- The process owns a block elsewhere; its second entry is empty.
abbrev owned : Allocations
owned = 0x0200_0000 ∷ 0 ∷ []

owned_taken : (j : ℕ) → j < 1 → get_or owned j 0 ≢ 0
owned_taken zero lt = omega arith
owned_taken (suc j) lt = absurd (omega arith)

owned-Lacks : (s : ℕ) → s < length kernel.heap.entries → Lacks owned (address_of kernel.heap s)
owned-Lacks s lt = (omega arith, (omega arith, tt))

process_free-malloc_example :
    (s : ℕ) × (k' : Kernel) × (process_malloc kernel owned 5000
      ≡ some (address_of kernel.heap s, k', set owned 1 (address_of kernel.heap s)))
    × ((a : ℕ) → k'.mem a ≡ (if inside (address_of kernel.heap s) 5000 a then 0 else kernel.mem a))
    × (process_free k' (set owned 1 (address_of kernel.heap s)) (address_of kernel.heap s)
        ≡ some (record k' { heap = kernel.heap }, owned))
process_free-malloc_example =
    process_free-malloc kernel owned 5000 0 1 kernel-IsPlaced kernel-IsWhole kernel-some_block
      kernel-Run (omega arith) refl owned_taken owned-Lacks

-- A program of two segments behind each other in the file, mapped into a new address space.
abbrev elf_file : ElfFile
elf_file = record {
  elf_memory = 0x0120_0000;
  header = record {
    e_ident = 0x7f ∷ b'E' ∷ b'L' ∷ b'F' ∷ 1 ∷ 1 ∷ [];
    e_type = 2;
    e_entry = 0x40_0000;
    e_phoff = 52;
  };
  virtual_base_address = 0;
  virtual_end_address = 0;
  physical_base_address = 0;
  physical_end_address = 0;
}

abbrev segments : List Phdr
segments =
    record {
      p_type = 1;
      p_offset = 0x1000;
      p_vaddr = 0x40_0000;
      p_filesz = 0x200;
      p_memsz = 0x200;
      p_flags = 5;
    }
    ∷ record {
      p_type = 1;
      p_offset = 0x2000;
      p_vaddr = 0x40_1000;
      p_filesz = 0x100;
      p_memsz = 0x300;
      p_flags = 6;
    }
    ∷ []

segments-AllFit : AllFit elf_file segments
unfolding elf_phdr_phys_address
segments-AllFit = (
  record { in_memory = omega arith; in_space = omega arith },
  (record { in_memory = omega arith; in_space = omega arith }, tt),
)

abbrev alloc : ℕ → ℕ
alloc n = 0x0130_0000 + n * 4096

alloc-IsAllocator : IsAllocator alloc
alloc-IsAllocator = record {
  aligned = λ n le. omega arith;
  below = λ n le. omega arith;
  distinct = λ n m le le' e. omega (arith, e);
}

process_map_memory-paging_new_4gb_example :
    Shows
      (process_view (λ page. page + 5) (elf elf_file segments) 0x0110_0000)
      (paging_new_4gb alloc 5 (λ a. 0)).1
      (process_map_memory
        (paging_new_4gb alloc 5 (λ a. 0)).0
        (paging_new_4gb alloc 5 (λ a. 0)).1
        (elf elf_file segments)
        0x0110_0000)
process_map_memory-paging_new_4gb_example =
    process_map_memory-paging_new_4gb alloc (λ a. 0) (elf elf_file segments) 0x0110_0000
      alloc-IsAllocator segments-AllFit (omega arith) (omega arith)
