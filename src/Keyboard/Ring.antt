-- ===== src/Keyboard/Ring.antt =====
-- The key buffer as a ring: the keys in it, and its invariant.
use custom_peach_os.Prelude.{
  ℕ, zero, suc, ◌+◌, ◌-◌, ◌%◌, ◌^◌, ◌≤◌, ◌<◌, ◌≡◌, ◌≢◌, refl, sym, ap, ◌∙◌, List, [], ◌∷◌, ◌++◌,
  arith, ◌==◌, ==_iff, if◌then◌else◌, Bool-cases, inl, inr, length, get_or, set, length-set,
  get_or-set_self, get_or-set_ne,
}
use native.Mathlib.Numerals.{add-one}
use custom_peach_os.Keyboard.{KeyboardBuffer}

-- The `n` keys from position `h` on.
abbrev pub keys : List ℕ → ℕ → ℕ → List ℕ
keys b h zero = []
keys b h (suc n) = get_or b (h % 1024) 0 ∷ keys b (h + 1) n

-- How many keys are in the buffer.
abbrev pub count : KeyboardBuffer → ℕ
count kb = (kb.tail + 2 ^ 32 - kb.head) % 2 ^ 32

abbrev pub contents : KeyboardBuffer → List ℕ
contents kb = keys kb.buffer kb.head (count kb)

-- The cells of the keys are not 0, and all other cells are.
pub record IsValid (kb : KeyboardBuffer) : Type 0 where
  pub storage : length kb.buffer ≡ 1024
  pub head_word : kb.head < 2 ^ 32
  pub tail_word : kb.tail < 2 ^ 32
  pub fits : count kb ≤ 1024
  pub filled : (k : ℕ) → k < count kb → get_or kb.buffer ((kb.head + k) % 1024) 0 ≢ 0
  pub blank : (k : ℕ) → count kb ≤ k → k < 1024 → get_or kb.buffer ((kb.head + k) % 1024) 0 ≡ 0

pub length-keys : (b : List ℕ) (h n : ℕ) → length (keys b h n) ≡ n
length-keys b h zero = refl
length-keys b h (suc n) = ap suc (length-keys b (h + 1) n)

pub keys_congr : (b : List ℕ) (h h' n : ℕ) → h % 1024 ≡ h' % 1024 → keys b h n ≡ keys b h' n
keys_congr b h h' zero e = refl
keys_congr b h h' (suc n) e = cc (keys_congr b (h + 1) (h' + 1) n (omega arith))

-- A write outside the keys does not change them.
pub keys-set_out :
    (b : List ℕ) (h n i v : ℕ)
    → ((k : ℕ) → k < n → i ≢ (h + k) % 1024)
    → keys (set b i v) h n ≡ keys b h n
keys-set_out b h zero i v out = refl
keys-set_out b h (suc n) i v out = cc (
  get_or-set_ne b i (h % 1024) v 0 (λ e. out 0 (omega arith) (omega arith)),
  keys-set_out b (h + 1) n i v (λ k lt e. out (suc k) (omega arith) (omega arith)),
)

-- A write just behind the keys adds one.
pub keys-set_end :
    (b : List ℕ) (h n i v : ℕ)
    → length b ≡ 1024
    → n < 1024
    → i ≡ (h + n) % 1024
    → keys (set b i v) h (suc n) ≡ keys b h n ++ (v ∷ [])
keys-set_end b h zero i v len lt e =
    let e' : i ≡ h % 1024 = omega arith in
    rw e' (rw (get_or-set_self b (h % 1024) v 0 (omega arith)))
keys-set_end b h (suc n) i v len lt e = cc (
  get_or-set_ne b i (h % 1024) v 0 (λ e'. omega arith),
  keys-set_end b (h + 1) n i v len (omega arith) (omega arith),
)

module _ {kb : KeyboardBuffer} (v : IsValid kb) where
  get_or-set_buffer :
      (i j c : ℕ)
      → i < 1024
      → get_or (set kb.buffer i c) j 0 ≡ (if j == i then c else get_or kb.buffer j 0)
  get_or-set_buffer i j c lt = elim (Bool-cases (j == i)) [
    | inl e ↦
        rw ((==_iff j i).0 e, get_or-set_self kb.buffer i c 0 (omega (arith, v.storage)))
          (ground arith)
    | inr ne ↦ rw (get_or-set_ne kb.buffer i j c 0 (ground arith), ne)
  ]

  -- Position `k` behind the head is the tail's cell only where `k` is the number of keys, below the
  -- capacity.
  slot-eq :
      count kb < 1024 → (k : ℕ) → k < 1024 → (kb.head + k) % 1024 ≡ kb.tail % 1024 → k ≡ count kb
  slot-eq room k lt e = omega (arith, v.head_word, v.tail_word)

  pub slot-count : kb.tail % 1024 ≡ (kb.head + count kb) % 1024
  slot-count = omega (arith, v.head_word, v.tail_word)

  abbrev pub pushed : ℕ → KeyboardBuffer
  pushed c = record {
    buffer = set kb.buffer (kb.tail % 1024) c;
    tail = (kb.tail + 1) % 2 ^ 32;
    head = kb.head;
  }

  pub count-pushed : (c : ℕ) → count kb < 1024 → count (pushed c) ≡ count kb + 1
  count-pushed c room = omega (arith, v.head_word, v.tail_word)

  -- A key pushed below the capacity keeps the invariant.
  pub pushed-IsValid : (c : ℕ) → c ≢ 0 → count kb < 1024 → IsValid (pushed c)
  pushed-IsValid c ne room = record {
    storage = length-set kb.buffer (kb.tail % 1024) c ∙ v.storage;
    head_word = v.head_word;
    tail_word = omega arith;
    fits = omega (arith, count-pushed c room);
    filled = λ k lt. ground (
      arith,
      get_or-set_buffer (kb.tail % 1024) ((kb.head + k) % 1024) c (omega arith),
      slot-count,
      count-pushed c room,
      v.filled k,
    );
    blank = λ k le lt. ground (
      arith,
      get_or-set_buffer (kb.tail % 1024) ((kb.head + k) % 1024) c (omega arith),
      slot-eq room k lt,
      count-pushed c room,
      v.blank k,
    );
  }

  -- It stands behind the other keys.
  pub contents-pushed : (c : ℕ) → count kb < 1024 → contents (pushed c) ≡ contents kb ++ (c ∷ [])
  contents-pushed c room =
      rw (count-pushed c room, add-one)
        (keys-set_end kb.buffer kb.head (count kb) (kb.tail % 1024) c v.storage room slot-count)

  abbrev pub popped : KeyboardBuffer
  popped = record {
    buffer = set kb.buffer (kb.head % 1024) 0;
    tail = kb.tail;
    head = (kb.head + 1) % 2 ^ 32;
  }

  pub count-popped : 0 < count kb → count popped + 1 ≡ count kb
  count-popped some_key = omega (arith, v.head_word, v.tail_word)

  pub popped-IsValid : 0 < count kb → IsValid popped
  popped-IsValid some_key = record {
    storage = length-set kb.buffer (kb.head % 1024) 0 ∙ v.storage;
    head_word = omega arith;
    tail_word = v.tail_word;
    fits = omega (arith, count-popped some_key, v.fits);
    filled = λ k lt. ground (
      arith,
      next_cell k,
      v.fits,
      count-popped some_key,
      get_or-set_buffer (kb.head % 1024) ((kb.head + suc k) % 1024) 0 (omega arith),
      v.filled (suc k),
    );
    blank = λ k le lt. ground (
      arith,
      next_cell k,
      count-popped some_key,
      get_or-set_buffer (kb.head % 1024) ((kb.head + suc k) % 1024) 0 (omega arith),
      v.blank (suc k),
    );
  }
    where
      next_cell : (k : ℕ) → ((kb.head + 1) % 2 ^ 32 + k) % 1024 ≡ (kb.head + suc k) % 1024
      next_cell k = omega arith

  -- The oldest key is at the head, and the others remain.
  pub contents-popped :
      0 < count kb → contents kb ≡ get_or kb.buffer (kb.head % 1024) 0 ∷ contents popped
  contents-popped some_key =
      ap (keys kb.buffer kb.head) {x = count kb} {y = suc (count popped)}
        (omega (arith, count-popped some_key))
      ∙ ap (λ l. get_or kb.buffer (kb.head % 1024) 0 ∷ l)
          (keys_congr kb.buffer (kb.head + 1) ((kb.head + 1) % 2 ^ 32) (count popped) (omega arith)
            ∙ sym (
                keys-set_out kb.buffer ((kb.head + 1) % 2 ^ 32) (count popped) (kb.head % 1024) 0
                  (λ k lt e. omega (arith, count-popped some_key, v.fits))))
