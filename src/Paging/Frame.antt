-- ===== src/Paging/Frame.antt =====
-- Addresses and flags in an entry.
use custom_peach_os.Prelude.{
  ℕ, ◌+◌, ◌*◌, ◌/◌, ◌%◌, ◌^◌, ◌≤◌, ◌<◌, ◌≡◌, ap, ◌∙◌, arith, bit_and, bit_or,
}
use custom_peach_os.Prelude.Bits.{and_high, and_low, or_fields}
use custom_peach_os.Paging.{table_of, paging_align_address, paging_align_to_lower_page}

-- The mask clears the twelve low bits of a 32-bit word.
pub table_of_lem : (entry : ℕ) → entry < 2 ^ 32 → table_of entry ≡ entry / 4096 * 4096
table_of_lem entry lt =
    ap (λ e. bit_and e 0xffff_f000) {x = entry} {y = entry / 4096 * 2 ^ 12 + entry % 4096}
      (omega arith)
    ∙ and_high 12 (entry / 4096) (entry % 4096) 0xfffff (omega arith)
    ∙ ap (λ (q : ℕ). q * 2 ^ 12)
        (ap (λ q. bit_and q 0xfffff) {x = entry / 4096} {y = 0 * 2 ^ 20 + entry / 4096}
            (omega arith)
          ∙ and_low 20 0 (entry / 4096) (omega arith))

-- Flags below the page size are added to an aligned address.
pub or_flags : (phys flags : ℕ) → phys % 4096 ≡ 0 → flags < 4096 → bit_or phys flags ≡ phys + flags
or_flags phys flags aligned small =
    ap (λ p. bit_or p flags) {x = phys} {y = phys / 4096 * 2 ^ 12} (omega arith)
    ∙ or_fields 12 (phys / 4096) flags small
    ∙ omega arith

-- Aligning up goes to the next page boundary, aligning down to the one before.
pub align_bounds :
    (a : ℕ)
    → a + 4096 ≤ 2 ^ 32
    → (paging_align_address a % 4096 ≡ 0)
      × (a ≤ paging_align_address a)
      × (paging_align_address a < a + 4096)
      × (paging_align_to_lower_page a % 4096 ≡ 0)
      × (paging_align_to_lower_page a ≤ a)
      × (a < paging_align_to_lower_page a + 4096)
unfolding paging_align_address paging_align_to_lower_page
align_bounds a h = ground arith
