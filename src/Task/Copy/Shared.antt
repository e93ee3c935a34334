-- ===== src/Task/Copy/Shared.antt =====
-- `copy_string_from_task` behind its call of `kzalloc`: the page that is shared, and the two copies.
use custom_peach_os.Prelude.{
  ℕ, ◌+◌, ◌-◌, ◌*◌, ◌/◌, ◌%◌, ◌^◌, ◌≤◌, ◌<◌, ◌≡◌, refl, ap, ◌∙◌, ◌⊎◌, some, [], ◌∷◌, ◌++◌, arith,
  length, get_or, bit_and,
}
use mathlib.Core.Path.{fun_ext}
use custom_peach_os.Prelude.Int.{ℤ}
use custom_peach_os.Prelude.Bits.{and_low}
use custom_peach_os.Status.{all_ok}
use custom_peach_os.CString.{Bytes, cstr}
use custom_peach_os.Heap.{Heap}
use custom_peach_os.Memory.{Mem, Kernel, kfree}
use custom_peach_os.Paging.{Words, store, paging_get, paging_set, paging_map}
use custom_peach_os.Paging.Frame.{table_of_lem}
use custom_peach_os.Paging.Entries.{
  IsChunk, slot, paging_get-slot, paging_set-slot, slot-store, paging_get-set, paging_map-set,
}
use custom_peach_os.Task.Copy.{World, translate, strncpy, copy_shared}
use custom_peach_os.Task.Copy.Strings.{
  seen, write_bytes, write_bytes-inside, write_bytes-outside, write_bytes-over, strncpy-writes,
  cstr-NoNul, length-cstr-seen, cstr-seen,
}

-- An entry that is odd is one of a page that is present.
translate_of :
    (pages : Words) (directory virt entry : ℕ)
    → paging_get pages directory (virt - virt % 4096) ≡ entry
    → entry % 2 ≡ 1
    → entry < 2 ^ 32
    → translate pages directory virt ≡ some (entry - entry % 4096 + virt % 4096)
unfolding translate
translate_of pages directory virt entry e odd small =
    let bit : bit_and entry 1 ≡ 1 =
      ap (λ (x : ℕ). bit_and x 1) {x = entry} {y = entry / 2 * 2 ^ 1 + entry % 2} (omega arith)
      ∙ and_low 1 (entry / 2) (entry % 2) (omega arith)
      ∙ odd in
    rw (e, bit) (ap some (omega (arith, table_of_lem entry small)))

-- Each page is mapped to itself and present.
abbrev pub IsIdentity : Words → ℕ → Type 0
IsIdentity pages directory =
    (page : ℕ) → page < 2 ^ 32 → page % 4096 ≡ 0 → paging_get pages directory page ≡ page + 7

pub translate-IsIdentity :
    (pages : Words) (directory virt : ℕ)
    → IsIdentity pages directory
    → virt < 2 ^ 32
    → translate pages directory virt ≡ some virt
translate-IsIdentity pages directory virt same small =
    translate_of pages directory virt (virt - virt % 4096 + 7)
      (same (virt - virt % 4096) (omega arith) (omega arith)) (omega arith) (omega arith)
    ∙ ap some (omega arith)

-- Two directories with the same entry for a page translate its addresses alike.
translate_same :
    (pages pages' : Words) (directory virt : ℕ)
    → paging_get pages' directory (virt - virt % 4096)
      ≡ paging_get pages directory (virt - virt % 4096)
    → translate pages' directory virt ≡ translate pages directory virt
unfolding translate
translate_same pages pages' directory virt e = rw e refl

-- The old entry, written back, restores the tables.
pub paging_set-restores :
    (pages : Words) (directory virt val : ℕ)
    → IsChunk pages directory
    → virt < 2 ^ 32
    → virt % 4096 ≡ 0
    → paging_set
        (paging_set pages directory virt val).1
        directory
        virt
        (paging_get pages directory virt)
      ≡ (all_ok, pages)
paging_set-restores pages directory virt val c small al =
    ap (λ (r : ℤ × Words). paging_set r.1 directory virt (paging_get pages directory virt))
      (paging_set-slot pages directory virt val al)
    ∙ paging_set-slot (store pages (slot pages directory virt) val) directory virt
        (paging_get pages directory virt) al
    ∙ ap
        (λ (p : ℕ). (
          all_ok,
          store (store pages (slot pages directory virt) val) p (paging_get pages directory virt),
        ))
        (slot-store c virt val small virt small)
    ∙ ap (λ (p : Words). (all_ok, p))
        (fun_ext (λ a. ground (
          arith,
          paging_get-slot pages directory virt al,
          ap pages {x = a} {y = slot pages directory virt},
        )))

kfree_mem :
    (k : Kernel) (mem : Mem) (ptr : ℕ) (h : Heap)
    → kfree k ptr ≡ some (record k { heap = h })
    → kfree (record k { mem = mem }) ptr ≡ some (record { heap = h; mem = mem })
unfolding kfree
kfree_mem k mem ptr e = ground arith

shared_of :
    (w : World) (pages pages2 : Words) (kernel_chunk directory virt phys max tmp : ℕ)
    (mem1 mem2 : Mem) {k : Kernel}
    → strncpy (translate pages directory) w.kernel.mem tmp virt max ≡ some mem1
    → paging_set pages directory tmp (paging_get w.pages directory tmp) ≡ (all_ok, pages2)
    → strncpy (translate pages2 kernel_chunk) mem1 phys tmp max ≡ some mem2
    → kfree (record (w.kernel) { mem = mem2 }) tmp ≡ some k
    → copy_shared w pages kernel_chunk directory virt phys max tmp
      ≡ some (
        all_ok,
        record {
          kernel = k;
          pages = pages2;
          cpu = record { current_directory = kernel_chunk; data_segment = 0x10 };
        },
      )
unfolding copy_shared
shared_of w pages pages2 kernel_chunk directory virt phys max tmp mem1 mem2 first back second
      freed =
    rw (first, back, second, freed, copy_shared) (rw back refl)

-- The address is not in the page.
abbrev pub Elsewhere : ℕ → ℕ → Type 0
Elsewhere page a = (a < page) ⊎ (page + 4096 ≤ a)

-- What the caller owns lies outside of a block: the bytes that the task's string may be read from,
-- by their virtual and by their physical addresses, and the buffer of the kernel.
pub record IsApart (virt phys max block : ℕ) (at : ℕ → ℕ) : Type 0 where
  pub places : (i : ℕ) → i < max → Elsewhere block (at i)
  pub pages : (i : ℕ) → i < max → Elsewhere block (virt + i)
  pub buffer : (phys + max ≤ block) ⊎ (block + 4096 ≤ phys)

module _ (w : World) (kernel_chunk directory virt phys max tmp : ℕ) (at : ℕ → ℕ)
    (c : IsChunk w.pages directory) (identity : IsIdentity w.pages kernel_chunk)
    (aligned : tmp % 4096 ≡ 0) (in_space : tmp + 4096 ≤ 2 ^ 32) (some_byte : 0 < max)
    (one_page : max < 4096) (virt_in_space : virt + max ≤ 2 ^ 32)
    (phys_in_space : phys + max ≤ 2 ^ 32)
    (task_sees : (i : ℕ) → i < max → translate w.pages directory (virt + i) ≡ some (at i))
    (apart : IsApart virt phys max tmp at) where
  -- The task's pages with the shared page in them.
  abbrev shared : Words
  shared = (paging_set w.pages directory tmp (tmp + 7)).1

  sees_page :
      (a : ℕ)
      → Elsewhere tmp a
      → a < 2 ^ 32
      → translate shared directory a ≡ translate w.pages directory a
  sees_page a other small = translate_same w.pages shared directory a (
      paging_get-set c tmp (tmp + 7) (omega arith) (a - a % 4096) aligned (omega arith)
        (omega arith)
      ∙ ground arith)

  sees_tmp : (i : ℕ) → i < 4096 → translate shared directory (tmp + i) ≡ some (tmp + i)
  sees_tmp i lt =
      translate_of shared directory (tmp + i) (tmp + 7)
        (paging_get-set c tmp (tmp + 7) (omega arith) (tmp + i - (tmp + i) % 4096) aligned
            (omega arith) (omega arith)
          ∙ ground arith)
        (omega arith) (omega arith)
      ∙ ap some (omega arith)

  -- The string that the task sees.
  abbrev string : Bytes
  string = cstr (seen w.kernel.mem at (max - 1))

  abbrev copied : Mem → ℕ → Mem
  copied mem p = write_bytes mem p (string ++ (0 ∷ []))

  first_copy :
      strncpy (translate shared directory) w.kernel.mem tmp virt max
      ≡ some (copied w.kernel.mem tmp)
  first_copy =
      strncpy-writes (translate shared directory) w.kernel.mem tmp virt max tmp at (omega arith)
        virt_in_space some_byte (λ i lt. sees_tmp i (omega arith))
        (λ i lt. sees_page (virt + i) (apart.pages i lt) (omega arith) ∙ task_sees i lt)
        (λ i lt. omega (arith, apart.places i lt))

  in_copy : (i : ℕ) → i ≤ length string → copied w.kernel.mem tmp (tmp + i) ≡ get_or string i 0
  in_copy i le = write_bytes-inside string w.kernel.mem tmp i le

  second_copy :
      strncpy (translate w.pages kernel_chunk) (copied w.kernel.mem tmp) phys tmp max
      ≡ some (copied (copied w.kernel.mem tmp) phys)
  second_copy =
      strncpy-writes (translate w.pages kernel_chunk) (copied w.kernel.mem tmp) phys tmp max phys
        (λ i. tmp + i) phys_in_space (omega arith) some_byte
        (λ i lt. translate-IsIdentity w.pages kernel_chunk (phys + i) identity (omega arith))
        (λ i lt. translate-IsIdentity w.pages kernel_chunk (tmp + i) identity (omega arith))
        (λ i lt. omega (arith, apart.buffer))
      ∙ ap (λ s. some (write_bytes (copied w.kernel.mem tmp) phys (s ++ (0 ∷ []))))
          (cstr-seen string (copied w.kernel.mem tmp) (λ i. tmp + i) (max - 1)
            (cstr-NoNul (seen w.kernel.mem at (max - 1)))
            (length-cstr-seen w.kernel.mem at (max - 1)) in_copy)

  pub after : Mem
  after = copied (copied w.kernel.mem tmp) phys

  pub after-elsewhere :
      (a : ℕ) → Elsewhere tmp a → after a ≡ write_bytes w.kernel.mem phys (string ++ (0 ∷ [])) a
  unfolding after
  after-elsewhere a other =
      write_bytes-over (string ++ (0 ∷ [])) (copied w.kernel.mem tmp) w.kernel.mem phys a (
        write_bytes-outside string w.kernel.mem tmp a
          (omega (arith, length-cstr-seen w.kernel.mem at (max - 1))))

  pub copy_shared_lem :
      (h : Heap)
      → kfree w.kernel tmp ≡ some (record (w.kernel) { heap = h })
      → copy_shared w
          (paging_map w.pages directory tmp tmp 7).1
          kernel_chunk
          directory
          virt
          phys
          max
          tmp
        ≡ some (
          all_ok,
          record {
            kernel = record { heap = h; mem = after };
            pages = w.pages;
            cpu = record { current_directory = kernel_chunk; data_segment = 0x10 };
          },
        )
  unfolding after
  copy_shared_lem h freed =
      ap (λ (r : ℤ × Words). copy_shared w r.1 kernel_chunk directory virt phys max tmp)
        (paging_map-set w.pages directory tmp tmp 7 aligned aligned (omega arith))
      ∙ shared_of w shared w.pages kernel_chunk directory virt phys max tmp
          (copied w.kernel.mem tmp) (copied (copied w.kernel.mem tmp) phys) first_copy
          (paging_set-restores w.pages directory tmp (tmp + 7) c (omega arith) aligned) second_copy
          (kfree_mem w.kernel (copied (copied w.kernel.mem tmp) phys) tmp h freed)
