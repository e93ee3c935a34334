-- ===== src/Files/Slots.antt =====
-- The search for an empty slot, and how the mode is read.
use custom_peach_os.Prelude.{
  ℕ, zero, suc, ◌+◌, ◌<◌, ◌≡◌, ◌≢◌, refl, Option, none, some, List, [], ◌∷◌, arith, ◌==◌, ltb,
  ltb→lt, Bool-cases, inl, inr, if◌then◌else◌, length, get_or,
}
use custom_peach_os.CString.{Bytes, head, strncmp}
use custom_peach_os.Files.{read, write, append, invalid, free_slot, file_get_mode_by_string}

-- Slot `k` is empty, and no slot before it.
pub record FirstFree {ℓ} {A : Type ℓ} (slots : List (Option A)) (k : ℕ) : Type ℓ where
  pub inside : k < length slots
  pub empty : get_or slots k none ≡ none
  pub taken : (j : ℕ) → j < k → get_or slots j none ≢ none

module _ {ℓ} {A : Type ℓ} where
  pub free_slot-some :
      (slots : List (Option A)) (i : ℕ) {j : ℕ}
      → free_slot slots i ≡ some j
      → (k : ℕ) × (j ≡ i + k) × FirstFree slots k
  unfolding free_slot
  free_slot-some [] i e = cc e
  free_slot-some (none ∷ slots) i {j} e =
      let q : i ≡ j = cc e in
      (
        0,
        omega arith,
        record { inside = omega arith; empty = refl; taken = λ j lt. absurd (omega arith) },
      )
  free_slot-some (some a ∷ slots) i e =
      let (k, je, first) = free_slot-some slots (i + 1) e in
      (
        suc k,
        omega arith,
        record {
          inside = omega (arith, first.inside);
          empty = first.empty;
          taken = behind a slots k first;
        },
      )
    where
      behind :
          (a : A) (slots : List (Option A)) (k : ℕ)
          → FirstFree slots k
          → (j : ℕ) → j < suc k
          → get_or (some a ∷ slots) j none ≢ none
      behind a slots k first zero lt = λ e. cc e
      behind a slots k first (suc j) lt = first.taken j (omega arith)

  pub free_slot-none :
      (slots : List (Option A)) (i k : ℕ)
      → free_slot slots i ≡ none
      → k < length slots
      → get_or slots k none ≢ none
  unfolding free_slot
  free_slot-none [] i k e lt = absurd (omega arith)
  free_slot-none (none ∷ slots) i k e lt = cc e
  free_slot-none (some a ∷ slots) i zero e lt = λ q. cc q
  free_slot-none (some a ∷ slots) i (suc k) e lt = free_slot-none slots (i + 1) k e (omega arith)

-- There is one first empty slot.
pub FirstFree-unique {ℓ} :
    {A : Type ℓ} (slots : List (Option A)) (j k : ℕ) → FirstFree slots j → FirstFree slots k → j ≡ k
FirstFree-unique slots j k f g = elim (Bool-cases (ltb j k)) [
  | inl lt ↦ absurd (g.taken j (ltb→lt j k lt) f.empty)
  | inr ge ↦ elim (Bool-cases (ltb k j)) [
    | inl lt ↦ absurd (f.taken k (ltb→lt k j lt) g.empty)
    | inr le ↦ ground arith
  ]
]

-- The mode is the first byte's.
pub mode-head :
    (str : Bytes)
    → file_get_mode_by_string str ≡ (
        if head str == b'r'
        then read
        else (if head str == b'w' then write else (if head str == b'a' then append else invalid)))
unfolding file_get_mode_by_string strncmp
mode-head str = ground arith
