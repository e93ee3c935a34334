-- ===== src/Paging/Range.antt =====
-- Mapping a range of pages: the loop against the map that it makes.
use custom_peach_os.Prelude.{
  ℕ, zero, suc, ◌+◌, ◌-◌, ◌*◌, ◌/◌, ◌%◌, ◌^◌, ◌≤◌, ◌<◌, ◌≡◌, ◌≢◌, refl, ◌∙◌, arith, ◌⊎◌,
  if◌then◌else◌, ◌&&◌, leb, ltb,
}
use custom_peach_os.Prelude.Int.{ℤ}
use custom_peach_os.Status.{all_ok, einvarg}
use custom_peach_os.Paging.{
  Words, paging_set, paging_get, paging_map, map_range_loop, paging_map_range, paging_map_to,
}
use custom_peach_os.Paging.Entries.{
  IsChunk, paging_set-IsChunk, paging_set_ok, paging_get-set, paging_map-set,
}

-- `count` pages from `virt` on are mapped to those from `phys` on, and no other page is changed.
pub record Maps (mem : Words) (directory virt phys count flags : ℕ) (mem' : Words) : Type 0 where
  pub chunk : IsChunk mem' directory
  pub pages :
      (page : ℕ)
      → page < 2 ^ 32
      → page % 4096 ≡ 0
      → paging_get mem' directory page ≡ (
          if leb virt page && ltb page (virt + count * 4096)
          then phys + (page - virt) + flags
          else paging_get mem directory page)

loop_step :
    (count : ℕ) (res : ℤ) (mem mem1 : Words) (directory virt phys flags : ℕ)
    → paging_map mem directory virt phys flags ≡ (all_ok, mem1)
    → map_range_loop res mem directory virt phys (suc count) flags
      ≡ map_range_loop all_ok mem1 directory
          ((virt + 4096) % 2 ^ 32)
          ((phys + 4096) % 2 ^ 32)
          count
          flags
unfolding map_range_loop
loop_step count res mem mem1 directory virt phys flags e = rw e

map_range_loop-Maps :
    (count : ℕ) (res : ℤ) (mem : Words) (directory virt phys flags : ℕ)
    → IsChunk mem directory
    → virt % 4096 ≡ 0
    → phys % 4096 ≡ 0
    → virt + count * 4096 ≤ 2 ^ 32
    → phys + count * 4096 ≤ 2 ^ 32
    → flags < 4096
    → res ≡ all_ok
    → ((map_range_loop res mem directory virt phys count flags).0 ≡ all_ok)
      × Maps mem directory virt phys count flags
          (map_range_loop res mem directory virt phys count flags).1
unfolding map_range_loop
map_range_loop-Maps zero res mem directory virt phys flags c al al' fv fp small ok =
    (ok, record { chunk = c; pages = λ page lt ap'. ground arith })
map_range_loop-Maps (suc count) res mem directory virt phys flags c al al' fv fp small ok =
    let v : virt < 2 ^ 32 = omega arith in
    let mem1 = (paging_set mem directory virt (phys + flags)).1 in
    let c1 = paging_set-IsChunk c virt (phys + flags) v al in
    let mapped =
      paging_map-set mem directory virt phys flags al al' small
      ∙ paging_set_ok mem directory virt (phys + flags) al in
    let step = loop_step count res mem mem1 directory virt phys flags mapped in
    let (done, m) =
      map_range_loop-Maps count all_ok mem1 directory ((virt + 4096) % 2 ^ 32)
        ((phys + 4096) % 2 ^ 32) flags c1 (omega arith) (omega arith) (omega arith) (omega arith)
        small refl in
    rw step (
      done,
      record {
        chunk = m.chunk;
        pages = λ page lt aligned.
            m.pages page lt aligned
            ∙ ground (arith, paging_get-set c virt (phys + flags) v page al lt aligned);
      },
    )

-- A range inside the address space is mapped page by page.
pub paging_map_range-Maps :
    (mem : Words) (directory virt phys count flags : ℕ)
    → IsChunk mem directory
    → virt % 4096 ≡ 0
    → phys % 4096 ≡ 0
    → virt + count * 4096 ≤ 2 ^ 32
    → phys + count * 4096 ≤ 2 ^ 32
    → flags < 4096
    → ((paging_map_range mem directory virt phys count flags).0 ≡ all_ok)
      × Maps mem directory virt phys count flags
          (paging_map_range mem directory virt phys count flags).1
unfolding paging_map_range
paging_map_range-Maps mem directory virt phys count flags c al al' fv fp small =
    map_range_loop-Maps count all_ok mem directory virt phys flags c al al' fv fp small refl

-- `paging_map_to` refuses ends that are not aligned or stand in the wrong order, and writes nothing.
pub paging_map_to_refuses :
    (mem : Words) (directory virt phys phys_end flags : ℕ)
    → (virt % 4096 ≢ 0) ⊎ (phys % 4096 ≢ 0) ⊎ (phys_end < phys) ⊎ (phys_end % 4096 ≢ 0)
    → paging_map_to mem directory virt phys phys_end flags ≡ (einvarg, mem)
unfolding paging_map_to
paging_map_to_refuses mem directory virt phys phys_end flags bad = ground arith

accepted :
    (mem : Words) (directory virt phys phys_end flags : ℕ)
    → virt % 4096 ≡ 0
    → phys % 4096 ≡ 0
    → phys_end % 4096 ≡ 0
    → phys ≤ phys_end
    → paging_map_to mem directory virt phys phys_end flags
      ≡ paging_map_range mem directory virt phys ((phys_end - phys) / 4096) flags
unfolding paging_map_to
accepted mem directory virt phys phys_end flags al al' ale le = ground arith

-- On a well-formed directory, for aligned addresses in the right order that end inside the address
-- space, and flags below 4096, `paging_map_to` succeeds, keeps the directory well formed, maps the
-- pages from `virt` on to those between `phys` and `phys_end` with the flags, and leaves every
-- other page mapped as it was.
pub paging_map_to-Maps :
    (mem : Words) (directory virt phys phys_end flags : ℕ)
    → IsChunk mem directory
    → virt % 4096 ≡ 0
    → phys % 4096 ≡ 0
    → phys_end % 4096 ≡ 0
    → phys ≤ phys_end
    → phys_end < 2 ^ 32
    → virt + (phys_end - phys) ≤ 2 ^ 32
    → flags < 4096
    → ((paging_map_to mem directory virt phys phys_end flags).0 ≡ all_ok)
      × Maps mem directory virt phys
          ((phys_end - phys) / 4096)
          flags
          (paging_map_to mem directory virt phys phys_end flags).1
paging_map_to-Maps mem directory virt phys phys_end flags c al al' ale le lt fits small =
    rw (accepted mem directory virt phys phys_end flags al al' ale le) (
      paging_map_range-Maps mem directory virt phys ((phys_end - phys) / 4096) flags c al al'
        (omega arith) (omega arith) small)
