-- ===== src/Paging/Entries.antt =====
-- Reading and writing one entry of a well-formed directory.
use custom_peach_os.Prelude.{
  ℕ, ◌+◌, ◌*◌, ◌/◌, ◌%◌, ◌^◌, ◌<◌, ◌≡◌, ◌≢◌, sym, ap, ◌∙◌, arith, ◌==◌, ◌⊎◌, if◌then◌else◌,
}
use custom_peach_os.Prelude.Int.{ℤ}
use custom_peach_os.Status.{all_ok, einvarg}
use custom_peach_os.Paging.{Words, store, table_of, paging_set, paging_get, paging_map}
use custom_peach_os.Paging.Frame.{table_of_lem, or_flags}

abbrev pub entry : Words → ℕ → ℕ → ℕ
entry mem directory i = mem (directory + 4 * i)

-- The tables are pages of their own, none of them the directory, and no two the same.
pub record IsChunk (mem : Words) (directory : ℕ) : Type 0 where
  pub aligned : directory % 4096 ≡ 0
  pub word : (i : ℕ) → i < 1024 → entry mem directory i < 2 ^ 32
  pub apart : (i : ℕ) → i < 1024 → table_of (entry mem directory i) ≢ directory
  pub distinct :
      (i j : ℕ)
      → i < 1024
      → j < 1024
      → table_of (entry mem directory i) ≡ table_of (entry mem directory j)
      → i ≡ j

-- Where the entry for a virtual address is kept.
abbrev pub slot : Words → ℕ → ℕ → ℕ
slot mem directory virt =
    table_of (entry mem directory (virt / 4_194_304)) + 4 * (virt % 4_194_304 / 4096)

pub paging_get-slot :
    (mem : Words) (directory virt : ℕ)
    → virt % 4096 ≡ 0
    → paging_get mem directory virt ≡ mem (slot mem directory virt)
unfolding paging_get
paging_get-slot mem directory virt al = ground arith

pub paging_set-slot :
    (mem : Words) (directory virt val : ℕ)
    → virt % 4096 ≡ 0
    → paging_set mem directory virt val ≡ (all_ok, store mem (slot mem directory virt) val)
unfolding paging_set
paging_set-slot mem directory virt val al = ground arith

pub paging_set_ok :
    (mem : Words) (directory virt val : ℕ)
    → virt % 4096 ≡ 0
    → paging_set mem directory virt val ≡ (all_ok, (paging_set mem directory virt val).1)
paging_set_ok mem directory virt val al =
    let e = paging_set-slot mem directory virt val al in
    e ∙ ap (λ (r : ℤ × Words). (all_ok, r.1)) (sym e)

module _ {mem : Words} {directory : ℕ} (c : IsChunk mem directory) (virt val : ℕ)
    (small : virt < 2 ^ 32) where
  -- The write hits no entry of the directory.
  slot-ne-entry : (i : ℕ) → i < 1024 → directory + 4 * i ≢ slot mem directory virt
  slot-ne-entry i lt e = c.apart (virt / 4_194_304) (omega arith) (
      omega (
        arith,
        c.aligned,
        table_of_lem (entry mem directory (virt / 4_194_304))
            (c.word (virt / 4_194_304) (omega arith)),
      ))

  entry-store :
      (i : ℕ)
      → i < 1024
      → entry (store mem (slot mem directory virt) val) directory i ≡ entry mem directory i
  entry-store i lt = ground (arith, slot-ne-entry i lt)

  -- Distinct pages have distinct slots.
  slot-injective :
      (virt' : ℕ)
      → virt' < 2 ^ 32
      → virt % 4096 ≡ 0
      → virt' % 4096 ≡ 0
      → slot mem directory virt' ≡ slot mem directory virt
      → virt' ≡ virt
  slot-injective virt' small' al al' e =
      let i = virt / 4_194_304 in
      let i' = virt' / 4_194_304 in
      let same : table_of (entry mem directory i') ≡ table_of (entry mem directory i) = omega (
        arith,
        e,
        table_of_lem (entry mem directory i) (c.word i (omega arith)),
        table_of_lem (entry mem directory i') (c.word i' (omega arith)),
      ) in
      omega (arith, e, same, c.distinct i' i (omega arith) (omega arith) same)

  -- `paging_set` of an aligned 32-bit address keeps a well-formed directory well formed.
  pub paging_set-IsChunk : virt % 4096 ≡ 0 → IsChunk (paging_set mem directory virt val).1 directory
  paging_set-IsChunk al = rw (paging_set-slot mem directory virt val al) (record {
    aligned = c.aligned;
    word = λ i lt. rw (entry-store i lt) (c.word i lt);
    apart = λ i lt. rw (entry-store i lt) (c.apart i lt);
    distinct = λ i j lt lt'. rw (entry-store i lt, entry-store j lt') (c.distinct i j lt lt');
  })

  pub slot-store :
      (virt' : ℕ)
      → virt' < 2 ^ 32
      → slot (store mem (slot mem directory virt) val) directory virt' ≡ slot mem directory virt'
  slot-store virt' small' =
      ap (λ e. table_of e + 4 * (virt' % 4_194_304 / 4096))
        (entry-store (virt' / 4_194_304) (omega arith))

  -- On a well-formed directory, after `paging_set` of an aligned 32-bit address, `paging_get` reads
  -- the value there, and reads at every other aligned 32-bit address what it read before.
  pub paging_get-set :
      (virt' : ℕ)
      → virt % 4096 ≡ 0
      → virt' < 2 ^ 32
      → virt' % 4096 ≡ 0
      → paging_get (paging_set mem directory virt val).1 directory virt'
        ≡ (if virt' == virt then val else paging_get mem directory virt')
  paging_get-set virt' al small' al' = rw (paging_set-slot mem directory virt val al) (
      paging_get-slot (store mem (slot mem directory virt) val) directory virt' al'
      ∙ ap (store mem (slot mem directory virt) val) (slot-store virt' small')
      ∙ ground (
        arith,
        paging_get-slot mem directory virt' al',
        slot-injective virt' small' al al',
        ap (slot mem directory) {x = virt'} {y = virt},
      ))

-- An address that is not aligned is refused, and nothing is written.
pub paging_map_refuses :
    (mem : Words) (directory virt phys flags : ℕ)
    → (virt % 4096 ≢ 0) ⊎ (phys % 4096 ≢ 0)
    → paging_map mem directory virt phys flags ≡ (einvarg, mem)
unfolding paging_map
paging_map_refuses mem directory virt phys flags off = ground arith

pub paging_map-set :
    (mem : Words) (directory virt phys flags : ℕ)
    → virt % 4096 ≡ 0
    → phys % 4096 ≡ 0
    → flags < 4096
    → paging_map mem directory virt phys flags ≡ paging_set mem directory virt (phys + flags)
unfolding paging_map
paging_map-set mem directory virt phys flags al al' small =
    ground (arith, ap (paging_set mem directory virt) (or_flags phys flags al' small))
