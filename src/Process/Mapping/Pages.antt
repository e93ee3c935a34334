-- ===== src/Process/Mapping/Pages.antt =====
-- What each page of a process maps to once its program and its stack are mapped.
use custom_peach_os.Prelude.{
  ℕ, ◌+◌, ◌-◌, ◌*◌, ◌/◌, ◌%◌, ◌^◌, ◌≤◌, ◌<◌, ◌≡◌, refl, sym, ap, ◌∙◌, List, [], ◌∷◌, arith, ltb,
  leb, ◌&&◌, if◌then◌else◌,
}
use mathlib.Core.Path.{subst}
use native.Mathlib.Nat.{mod-eq_of_lt}
use custom_peach_os.Prelude.Int.{ℤ}
use custom_peach_os.Status.{all_ok}
use custom_peach_os.Paging.{
  Words, paging_align_address, paging_align_to_lower_page, paging_get, paging_map_to,
}
use custom_peach_os.Paging.Frame.{align_bounds}
use custom_peach_os.Paging.Entries.{IsChunk}
use custom_peach_os.Paging.Range.{paging_map_to-Maps}
use custom_peach_os.Elf.{Phdr, ElfFile, elf_phdr_phys_address}
use custom_peach_os.Process.Mapping.{segment_flags, map_elf_loop}

-- The entry of each page; the specification of a mapping of whole pages is a change of it.
abbrev pub View : Type 0
View = ℕ → ℕ

abbrev pub map_view : View → (virt phys phys_end flags : ℕ) → View
map_view view virt phys phys_end flags page =
    if leb virt page && ltb page (virt + (phys_end - phys) / 4096 * 4096)
    then phys + (page - virt) + flags
    else view page

-- A mapping that `paging_map_to` accepts.
pub record Fits (virt phys phys_end : ℕ) : Type 0 where
  pub virt_aligned : virt % 4096 ≡ 0
  pub phys_aligned : phys % 4096 ≡ 0
  pub end_aligned : phys_end % 4096 ≡ 0
  pub order : phys ≤ phys_end
  pub end_below : phys_end < 2 ^ 32
  pub inside : virt + (phys_end - phys) ≤ 2 ^ 32

-- The result is 0, and the directory shows a view.
pub record Shows (view : View) (directory : ℕ) (result : ℤ × Words) : Type 0 where
  pub ok : result.0 ≡ all_ok
  pub chunk : IsChunk result.1 directory
  pub pages :
      (page : ℕ) → page < 2 ^ 32 → page % 4096 ≡ 0 → paging_get result.1 directory page ≡ view page

pub map_to-Shows :
    (mem : Words) (view : View) (directory virt phys phys_end flags : ℕ)
    → Shows view directory (all_ok, mem)
    → Fits virt phys phys_end
    → flags < 4096
    → Shows
        (map_view view virt phys phys_end flags)
        directory
        (paging_map_to mem directory virt phys phys_end flags)
map_to-Shows mem view directory virt phys phys_end flags s fits small =
    let (ok, maps) =
      paging_map_to-Maps mem directory virt phys phys_end flags s.chunk fits.virt_aligned
        fits.phys_aligned fits.end_aligned fits.order fits.end_below fits.inside small in
    record {
      ok = ok;
      chunk = maps.chunk;
      pages = λ page lt al.
          maps.pages page lt al
          ∙ ap
              (λ old.
                if leb virt page && ltb page (virt + (phys_end - phys) / 4096 * 4096)
                then phys + (page - virt) + flags
                else old)
              (s.pages page lt al);
    }

-- A segment that ends below the end of the memory and of the address space, with room to round up.
pub record SegmentFits (file : ElfFile) (phdr : Phdr) : Type 0 where
  pub in_memory : elf_phdr_phys_address file phdr + phdr.p_memsz + 4096 ≤ 2 ^ 32
  pub in_space : phdr.p_vaddr + phdr.p_memsz + 8192 ≤ 2 ^ 32

abbrev pub AllFit : ElfFile → List Phdr → Type 0
AllFit file [] = Unit
AllFit file (phdr ∷ phdrs) = SegmentFits file phdr × AllFit file phdrs

abbrev pub segment_view : View → ElfFile → Phdr → View
segment_view view file phdr =
    map_view view (paging_align_to_lower_page phdr.p_vaddr)
      (paging_align_to_lower_page (elf_phdr_phys_address file phdr))
      (paging_align_address (elf_phdr_phys_address file phdr + phdr.p_memsz)) (segment_flags phdr)

-- The segments one after the other; a later one hides an earlier one.
abbrev pub elf_view : View → ElfFile → List Phdr → View
elf_view view file [] = view
elf_view view file (phdr ∷ phdrs) = elf_view (segment_view view file phdr) file phdrs

segment-Fits :
    (file : ElfFile) (phdr : Phdr)
    → SegmentFits file phdr
    → Fits
        (paging_align_to_lower_page phdr.p_vaddr)
        (paging_align_to_lower_page (elf_phdr_phys_address file phdr))
        (paging_align_address (elf_phdr_phys_address file phdr + phdr.p_memsz))
segment-Fits file phdr s =
    let phys : ℕ = elf_phdr_phys_address file phdr in
    let (up, ge, lt, down, le, gt) = align_bounds (phys + phdr.p_memsz) s.in_memory in
    let (up', ge', lt', down', le', gt') = align_bounds phys (omega (arith, s.in_memory)) in
    let (up'', ge'', lt'', down'', le'', gt'') =
      align_bounds phdr.p_vaddr (omega (arith, s.in_space)) in
    record {
      virt_aligned = down'';
      phys_aligned = down';
      end_aligned = up;
      order = omega arith;
      end_below = omega (arith, s.in_memory);
      inside = omega (arith, s.in_space);
    }

segment_flags-small : (phdr : Phdr) → segment_flags phdr < 4096
segment_flags-small phdr = ground arith

elf_step :
    (mem mem' : Words) (directory : ℕ) (file : ElfFile) (phdr : Phdr) (phdrs : List Phdr)
    → elf_phdr_phys_address file phdr + phdr.p_memsz < 2 ^ 32
    → paging_map_to mem directory
        (paging_align_to_lower_page phdr.p_vaddr)
        (paging_align_to_lower_page (elf_phdr_phys_address file phdr))
        (paging_align_address (elf_phdr_phys_address file phdr + phdr.p_memsz))
        (segment_flags phdr)
      ≡ (all_ok, mem')
    → map_elf_loop all_ok mem directory file (phdr ∷ phdrs)
      ≡ map_elf_loop all_ok mem' directory file phdrs
unfolding map_elf_loop
elf_step mem mem' directory file phdr phdrs small maps = rw (mod-eq_of_lt small, maps) refl

pub map_elf_loop-Shows :
    (mem : Words) (view : View) (directory : ℕ) (file : ElfFile) (phdrs : List Phdr)
    → Shows view directory (all_ok, mem)
    → AllFit file phdrs
    → Shows (elf_view view file phdrs) directory (map_elf_loop all_ok mem directory file phdrs)
unfolding map_elf_loop
map_elf_loop-Shows mem view directory file [] s fit = s
map_elf_loop-Shows mem view directory file (phdr ∷ phdrs) s (one, fit) =
    let virt : ℕ = paging_align_to_lower_page phdr.p_vaddr in
    let phys : ℕ = paging_align_to_lower_page (elf_phdr_phys_address file phdr) in
    let end : ℕ = paging_align_address (elf_phdr_phys_address file phdr + phdr.p_memsz) in
    let r : ℤ × Words = paging_map_to mem directory virt phys end (segment_flags phdr) in
    let mapped =
      map_to-Shows mem view directory virt phys end (segment_flags phdr) s
        (segment-Fits file phdr one) (segment_flags-small phdr) in
    let shown : Shows (segment_view view file phdr) directory (all_ok, r.1) = record {
      ok = refl;
      chunk = mapped.chunk;
      pages = mapped.pages;
    } in
    subst (Shows (elf_view view file (phdr ∷ phdrs)) directory)
      (sym (
        elf_step mem r.1 directory file phdr phdrs (omega (arith, one.in_memory))
          (ap (λ c. (c, r.1)) mapped.ok)))
      (map_elf_loop-Shows r.1 (segment_view view file phdr) directory file phdrs shown fit)
