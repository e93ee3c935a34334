-- ===== src/Elf/Extent.antt =====
-- The base and the end that the loader keeps, against the segments of the file.
use custom_peach_os.Prelude.{
  ℕ, ◌+◌, ◌%◌, ◌^◌, ◌≤◌, ◌<◌, ◌≡◌, ◌≢◌, refl, ◌∙◌, ◌⊎◌, inl, inr, List, [], ◌∷◌, arith, ◌==◌,
  ==_iff, sym, ap, true, false, Bool-cases,
}
use custom_peach_os.Status.{all_ok}
use custom_peach_os.Elf.{
  ElfHeader, Phdr, ElfFile, pt_load, elf_validate_loaded, elf_process_phdr_pt_load,
  elf_process_pheader, elf_process_pheaders, elf_process_loaded,
}

-- A segment that is loaded does not start at address 0, and does not wrap.
abbrev pub IsLoadable : Phdr → Type 0
IsLoadable p = p.p_type ≡ pt_load → (0 < p.p_vaddr) × (p.p_vaddr + p.p_filesz < 2 ^ 32)

abbrev pub AllLoadable : List Phdr → Type 0
AllLoadable [] = Unit
AllLoadable (p ∷ ps) = IsLoadable p × AllLoadable ps

-- Each segment that is loaded lies between the base and the end.
abbrev pub Covers : ElfFile → List Phdr → Type 0
Covers f [] = Unit
Covers f (p ∷ ps) =
    (p.p_type ≡ pt_load
      → (f.virtual_base_address ≤ p.p_vaddr) × (p.p_vaddr + p.p_filesz ≤ f.virtual_end_address))
    × Covers f ps

-- The base is where one of the segments starts, and the physical base is where its bytes are.
abbrev pub StartsAt : ElfFile → List Phdr → Type 0
StartsAt f [] = ⊥
StartsAt f (p ∷ ps) =
    ((p.p_type ≡ pt_load)
      × (f.virtual_base_address ≡ p.p_vaddr)
      × (f.physical_base_address ≡ (f.elf_memory + p.p_offset) % 2 ^ 32))
    ⊎ StartsAt f ps

-- What processing more headers does: the extent grows.
record Grows (f f' : ElfFile) : Type 0 where
  base : (f.virtual_base_address ≡ 0) ⊎ (f'.virtual_base_address ≤ f.virtual_base_address)
  kept : f.virtual_base_address ≢ 0 → f'.virtual_base_address ≢ 0
  end : f.virtual_end_address ≤ f'.virtual_end_address
  memory : f'.elf_memory ≡ f.elf_memory

-- The base is as it was, or where a header among `ps` starts.
abbrev Moved : ElfFile → ElfFile → List Phdr → Type 0
Moved f f' ps =
    ((f'.virtual_base_address ≡ f.virtual_base_address)
      × (f'.physical_base_address ≡ f.physical_base_address))
    ⊎ StartsAt f' ps

Grows-trans : (f g h : ElfFile) → Grows f g → Grows g h → Grows f h
Grows-trans f g h a b = record {
  base = ground (arith, a.base, b.base, a.kept);
  kept = λ ne. b.kept (a.kept ne);
  end = omega (arith, a.end, b.end);
  memory = b.memory ∙ a.memory;
}

pt_load-Grows :
    (f : ElfFile) (p : Phdr)
    → 0 < p.p_vaddr
    → p.p_vaddr + p.p_filesz < 2 ^ 32
    → let f' = (elf_process_phdr_pt_load f p).1 in
      Grows f f'
      × (f'.virtual_base_address ≢ 0)
      × (f'.virtual_base_address ≤ p.p_vaddr)
      × (p.p_vaddr + p.p_filesz ≤ f'.virtual_end_address)
unfolding elf_process_phdr_pt_load
pt_load-Grows f p lo hi = (
  record { base = ground arith; kept = ground arith; end = ground arith; memory = ground arith },
  ground arith,
  ground arith,
  ground arith,
)

pt_load-Moved :
    (f : ElfFile) (p : Phdr)
    → let f' = (elf_process_phdr_pt_load f p).1 in
      ((f'.virtual_base_address ≡ f.virtual_base_address)
        × (f'.physical_base_address ≡ f.physical_base_address))
      ⊎ ((f'.virtual_base_address ≡ p.p_vaddr)
          × (f'.physical_base_address ≡ (f'.elf_memory + p.p_offset) % 2 ^ 32))
unfolding elf_process_phdr_pt_load
pt_load-Moved f p = ground arith

-- What the loop over the headers leaves.
record Result (f f' : ElfFile) (ps : List Phdr) : Type 0 where
  grows : Grows f f'
  covers : Covers f' ps
  moved : Moved f f' ps

skip_of :
    (f : ElfFile) (p : Phdr)
    → (p.p_type == pt_load) ≡ false
    → (ps : List Phdr) → elf_process_pheaders f (p ∷ ps) ≡ elf_process_pheaders f ps
unfolding elf_process_pheaders elf_process_pheader
skip_of f p other ps = rw other refl

load_of :
    (f : ElfFile) (p : Phdr)
    → (p.p_type == pt_load) ≡ true
    → (ps : List Phdr)
    → elf_process_pheaders f (p ∷ ps) ≡ elf_process_pheaders (elf_process_phdr_pt_load f p).1 ps
unfolding elf_process_pheaders elf_process_pheader elf_process_phdr_pt_load
load_of f p is_load ps = rw is_load refl

Moved-load :
    (f g h : ElfFile) (p : Phdr) (ps : List Phdr)
    → p.p_type ≡ pt_load
    → g ≡ (elf_process_phdr_pt_load f p).1
    → Grows g h
    → Moved g h ps
    → Moved f h (p ∷ ps)
Moved-load f g h p ps is_load e grows (inr starts) = inr (inr starts)
Moved-load f g h p ps is_load e grows (inl (base, phys)) = elim (pt_load-Moved f p) [
  | inl same ↦ inl (
    base ∙ ap (λ (x : ElfFile). x.virtual_base_address) e ∙ same.0,
    phys ∙ ap (λ (x : ElfFile). x.physical_base_address) e ∙ same.1,
  )
  | inr new ↦ inr (
      inl (
        is_load,
        base ∙ ap (λ (x : ElfFile). x.virtual_base_address) e ∙ new.0,
        phys
            ∙ ap (λ (x : ElfFile). x.physical_base_address) e
            ∙ new.1
            ∙ ap (λ (m : ℕ). (m + p.p_offset) % 2 ^ 32)
                (ap (λ (x : ElfFile). x.elf_memory) (sym e) ∙ sym grows.memory),
      ))
]

pheaders-Result :
    (f : ElfFile) (ps : List Phdr)
    → AllLoadable ps
    → ((elf_process_pheaders f ps).0 ≡ all_ok) × Result f (elf_process_pheaders f ps).1 ps
unfolding elf_process_pheaders
pheaders-Result f [] ok = (
  refl,
  record {
    grows = record { base = inr (omega arith); kept = λ ne. ne; end = omega arith; memory = refl };
    covers = tt;
    moved = inl (refl, refl);
  },
)
pheaders-Result f (p ∷ ps) ok = elim (Bool-cases (p.p_type == pt_load)) [
  | inr other ↦
      let (done, x) = pheaders-Result f ps ok.1 in
      rw (skip_of f p other ps) (
        done,
        record {
          grows = x.grows;
          covers = (λ is_load. absurd (ground (arith, is_load)), x.covers);
          moved = elim x.moved [ inl same ↦ inl same | inr starts ↦ inr (inr starts) ];
        },
      )
  | inl is_load ↦
      let load : p.p_type ≡ pt_load = (==_iff p.p_type pt_load).0 is_load in
      let (lo, hi) = ok.0 load in
      let g = (elf_process_phdr_pt_load f p).1 in
      let (step, nonzero, below, above) = pt_load-Grows f p lo hi in
      let (done, x) = pheaders-Result g ps ok.1 in
      rw (load_of f p is_load ps) (
        done,
        record {
          grows = Grows-trans f g (elf_process_pheaders g ps).1 step x.grows;
          covers = (
            λ l. (ground (arith, x.grows.base, nonzero, below), omega (arith, x.grows.end, above)),
            x.covers,
          );
          moved = Moved-load f g (elf_process_pheaders g ps).1 p ps load refl x.grows x.moved;
        },
      )
]

loaded_of :
    (f : ElfFile) (header : ElfHeader) (ps : List Phdr)
    → elf_validate_loaded header ≡ all_ok
    → elf_process_loaded f header ps ≡ elf_process_pheaders f ps
unfolding elf_process_loaded
loaded_of f header ps e = rw e

-- For a file whose header is accepted, whose loaded segments neither start at address 0 nor wrap,
-- and whose base is not yet set, the processing succeeds; all loaded segments lie between the base
-- and the end, and the base is 0 still or is where one of them starts, with the physical base at
-- its bytes.
pub elf_process_loaded-Covers :
    (f : ElfFile) (header : ElfHeader) (ps : List Phdr)
    → elf_validate_loaded header ≡ all_ok
    → AllLoadable ps
    → f.virtual_base_address ≡ 0
    → let f' = (elf_process_loaded f header ps).1 in
      ((elf_process_loaded f header ps).0 ≡ all_ok)
      × Covers f' ps
      × ((f'.virtual_base_address ≡ 0) ⊎ StartsAt f' ps)
elf_process_loaded-Covers f header ps valid ok start =
    let (done, x) = pheaders-Result f ps ok in
    rw (loaded_of f header ps valid)
      (done, x.covers, elim x.moved [ inl same ↦ inl (same.0 ∙ start) | inr starts ↦ inr starts ])
