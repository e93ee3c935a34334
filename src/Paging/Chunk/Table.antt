-- ===== src/Paging/Chunk/Table.antt =====
-- What the loop over one table writes.
use custom_peach_os.Prelude.{
  ℕ, zero, suc, ◌+◌, ◌*◌, ◌/◌, ◌%◌, ◌^◌, ◌≤◌, ◌<◌, ◌≡◌, refl, ap, ◌∙◌, ◌⊎◌, inl, inr, arith, bit_or,
  ◌==◌, Bool-cases, ==_iff,
}
use custom_peach_os.Prelude.Bits.{or_step, or-zero}
use custom_peach_os.Paging.{Words, store}
use custom_peach_os.Paging.Chunk.{table_loop}

-- Outside of the entries that are written the memory is as it was.
pub table_loop-outside :
    (mem : Words) (table offset flags b rounds a : ℕ)
    → (a < table + 4 * b) ⊎ (table + 4 * (b + rounds) ≤ a)
    → table_loop mem table offset flags b rounds a ≡ mem a
unfolding table_loop
table_loop-outside mem table offset flags b zero a out = refl
table_loop-outside mem table offset flags b (suc rounds) a out =
    let v : ℕ = bit_or ((offset + b * 4096) % 2 ^ 32) flags in
    table_loop-outside (store mem (table + 4 * b) v) table offset flags (b + 1) rounds a (shift out)
    ∙ ground (arith, out)
  where
    shift :
        (a < table + 4 * b) ⊎ (table + 4 * (b + suc rounds) ≤ a)
        → (a < table + 4 * (b + 1)) ⊎ (table + 4 * (b + 1 + rounds) ≤ a)
    shift (inl lt) = inl (omega arith)
    shift (inr le) = inr (omega arith)

pub table_loop-inside :
    (mem : Words) (table offset flags b rounds k : ℕ)
    → b ≤ k
    → k < b + rounds
    → table_loop mem table offset flags b rounds (table + 4 * k)
      ≡ bit_or ((offset + k * 4096) % 2 ^ 32) flags
unfolding table_loop
table_loop-inside mem table offset flags b zero k lo hi = absurd (omega arith)
table_loop-inside mem table offset flags b (suc rounds) k lo hi =
    let mem' : Words = store mem (table + 4 * b) (bit_or ((offset + b * 4096) % 2 ^ 32) flags) in
    elim (Bool-cases (b == k)) [
      | inl here ↦
          let at : b ≡ k = (==_iff b k).0 here in
          table_loop-outside mem' table offset flags (b + 1) rounds (table + 4 * k)
            (inl (omega arith))
          ∙ ground (arith, ap (λ j. bit_or ((offset + j * 4096) % 2 ^ 32) flags) at)
      | inr later ↦
          table_loop-inside mem' table offset flags (b + 1) rounds k (ground arith) (omega arith)
    ]

-- The mark of a writable table leaves the address of the table.
pub or_two : (a : ℕ) → bit_or a 2 ≡ a / 4 * 4 + 2 + a % 2
or_two a = omega (arith, or_step a 2, or_step (a / 2) 1, or-zero (a / 2 / 2))
