-- ===== src/Keyboard/Queue.antt =====
-- The key buffer against a bounded first-in first-out queue.
use custom_peach_os.Prelude.{
  ℕ, ◌+◌, ◌-◌, ◌%◌, ◌^◌, ◌<◌, ◌≡◌, ◌≢◌, sym, ap, ◌∙◌, Option, none, some, List, [], ◌∷◌, ◌++◌,
  arith, ltb, ◌==◌, ==_iff, if◌then◌else◌, Bool-cases, Option-cases, inl, inr, length, get_or, set,
  set-set, set_same, get_or-set_self,
}
use custom_peach_os.Keyboard.{KeyboardBuffer, get_tail_index, push, pop, backspace}
use custom_peach_os.Keyboard.Ring.{
  count, contents, IsValid, length-keys, pushed, popped, pushed-IsValid, contents-pushed,
  popped-IsValid, contents-popped, slot-count,
}

-- A key of 0 is none; `none` is a push onto a full queue.
unfoldable pub enqueue : List ℕ → ℕ → Option (List ℕ)
enqueue q c =
    if c == 0 then some q else (if ltb (length q) 1024 then some (q ++ (c ∷ [])) else none)

-- The next key, or 0.
unfoldable pub dequeue : List ℕ → ℕ × List ℕ
dequeue [] = (0, [])
dequeue (c ∷ q) = (c, q)

-- The buffers that hold a queue.
pub record Shows (kb : Option KeyboardBuffer) (q : List ℕ) : Type 0 where
  pub buffer : KeyboardBuffer
  pub present : kb ≡ some buffer
  pub valid : IsValid buffer
  pub queue : contents buffer ≡ q

push-zero : (kb : KeyboardBuffer) (c : ℕ) → c ≡ 0 → push (some kb) c ≡ some kb
unfolding push
push-zero kb c e = ground arith

push-pushed :
    (kb : KeyboardBuffer) (c : ℕ) (v : IsValid kb) → c ≢ 0 → push (some kb) c ≡ some (pushed v c)
unfolding push
push-pushed kb c v ne = ground arith

-- `keyboard_push` is `enqueue` wherever the queue takes the key.
pub push_refines :
    (kb : Option KeyboardBuffer) (q q' : List ℕ) (c : ℕ)
    → Shows kb q
    → enqueue q c ≡ some q'
    → Shows (push kb c) q'
unfolding enqueue
push_refines kb q q' c sh e = elim (Bool-cases (c == 0)) [
  | inl z ↦ record {
    buffer = sh.buffer;
    present = ap (λ b. push b c) sh.present ∙ push-zero sh.buffer c ((==_iff c 0).0 z);
    valid = sh.valid;
    queue = sh.queue ∙ ground arith;
  }
  | inr nz ↦
      let len = length-keys sh.buffer.buffer sh.buffer.head (count sh.buffer) in
      let room : count sh.buffer < 1024 =
        ground (arith, len, ap (λ (l : List ℕ). length l) sh.queue) in
      record {
        buffer = pushed sh.valid c;
        present = ap (λ b. push b c) sh.present ∙ push-pushed sh.buffer c sh.valid (ground arith);
        valid = pushed-IsValid sh.valid c (ground arith) room;
        queue = contents-pushed sh.valid c room ∙ ap (λ l. l ++ (c ∷ [])) sh.queue ∙ ground arith;
      }
]

pop-popped :
    (kb : KeyboardBuffer) (v : IsValid kb)
    → 0 < count kb
    → pop (some kb) ≡ (get_or kb.buffer (kb.head % 1024) 0, some (popped v))
unfolding pop
pop-popped kb v some_key = ground (
  arith,
  v.filled 0 some_key,
  ap (λ i. get_or kb.buffer i 0) {x = (kb.head + 0) % 1024} {y = kb.head % 1024} (omega arith),
)

pop-blank : (kb : KeyboardBuffer) (v : IsValid kb) → count kb ≡ 0 → pop (some kb) ≡ (0, some kb)
unfolding pop
pop-blank kb v no_key = ground (
  arith,
  v.blank 0,
  ap (λ i. get_or kb.buffer i 0) {x = (kb.head + 0) % 1024} {y = kb.head % 1024} (omega arith),
)

-- `keyboard_pop` is `dequeue`.
pub pop_refines :
    (kb : Option KeyboardBuffer) (q : List ℕ)
    → Shows kb q
    → ((pop kb).0 ≡ (dequeue q).0) × Shows (pop kb).1 (dequeue q).1
unfolding dequeue
pop_refines kb [] sh =
    let b = sh.buffer in
    let no_key : count b ≡ 0 =
      omega
        (arith, length-keys b.buffer b.head (count b), ap (λ (l : List ℕ). length l) sh.queue) in
    let e = ap pop sh.present ∙ pop-blank b sh.valid no_key in
    (
      ap (λ r. r.0) e,
      record { buffer = b; present = ap (λ r. r.1) e; valid = sh.valid; queue = sh.queue },
    )
pop_refines kb (c ∷ q) sh =
    let b = sh.buffer in
    let some_key : 0 < count b =
      omega
        (arith, length-keys b.buffer b.head (count b), ap (λ (l : List ℕ). length l) sh.queue) in
    let e = ap pop sh.present ∙ pop-popped b sh.valid some_key in
    let parts = sym (contents-popped sh.valid some_key) ∙ sh.queue in
    (
      ap (λ r. r.0) e ∙ cc parts,
      record {
        buffer = popped sh.valid;
        present = ap (λ r. r.1) e;
        valid = popped-IsValid sh.valid some_key;
        queue = cc parts;
      },
    )

pub data Op : Type 0 where
  put : ℕ → Op
  get : Op

-- The keys that the reads return, in order.
unfoldable pub run : Option KeyboardBuffer → List Op → List ℕ
run kb [] = []
run kb (put c ∷ ops) = run (push kb c) ops
run kb (get ∷ ops) = (pop kb).0 ∷ run (pop kb).1 ops

unfoldable pub run_queue : List ℕ → List Op → Option (List ℕ)
run_queue q [] = some []
run_queue q (put c ∷ ops) = elim (enqueue q c) [ none ↦ none | some q' ↦ run_queue q' ops ]
run_queue q (get ∷ ops) = elim (run_queue (dequeue q).1 ops) [
  | none ↦ none
  | some r ↦ some ((dequeue q).0 ∷ r)
]

-- From a buffer that shows a queue, any sequence of key presses and reads, in which the queue is
-- never full at a press, returns the keys that the bounded first-in first-out queue returns.
pub run_refines :
    (ops : List Op) (kb : Option KeyboardBuffer) (q r : List ℕ)
    → Shows kb q
    → run_queue q ops ≡ some r
    → run kb ops ≡ r
unfolding run run_queue
run_refines [] kb q r sh e = cc
run_refines (put c ∷ ops) kb q r sh e = elim (Option-cases (enqueue q c)) [
  | inl full ↦ ground arith
  | inr (q', taken) ↦
      run_refines ops (push kb c) q' r (push_refines kb q q' c sh taken) (ground arith)
]
run_refines (get ∷ ops) kb q r sh e =
    let (same, rest) = pop_refines kb q sh in
    elim (Option-cases (run_queue (dequeue q).1 ops)) [
      | inl full ↦ ground arith
      | inr (r', ran) ↦ cc (same, run_refines ops (pop kb).1 (dequeue q).1 r' rest ran, rw ran at e)
    ]

-- On a valid buffer with fewer than 1024 unread keys, `keyboard_backspace` after a push of a key
-- that is not 0 gives back the buffer as it was.
pub backspace-push :
    (kb : KeyboardBuffer) (c : ℕ)
    → IsValid kb
    → c ≢ 0
    → count kb < 1024
    → (kb' : KeyboardBuffer) × (push (some kb) c ≡ some kb') × (backspace kb' ≡ kb)
unfolding backspace get_tail_index
backspace-push kb c v ne room = (
  pushed v c,
  push-pushed kb c v ne,
  ground (
    arith,
    back,
    ap (λ i. set (set kb.buffer (kb.tail % 1024) c) i 0) (ap (λ (t : ℕ). t % 1024) back),
    set-set kb.buffer (kb.tail % 1024) c 0,
    set_same kb.buffer (kb.tail % 1024) 0 0 (omega (arith, v.storage)) blank,
  ),
)
  where
    back : ((kb.tail + 1) % 2 ^ 32 + 2 ^ 32 - 1) % 2 ^ 32 ≡ kb.tail
    back = omega (arith, v.tail_word)

    blank : get_or kb.buffer (kb.tail % 1024) 0 ≡ 0
    blank = ap (λ i. get_or kb.buffer i 0) (slot-count v) ∙ v.blank (count kb) (omega arith) room

-- On a valid buffer with 1024 unread keys, the read after a push of a key that is not 0 returns
-- that newest key, whose cell was that of the oldest.
pub push_overwrites :
    (kb : KeyboardBuffer) (c : ℕ)
    → IsValid kb
    → c ≢ 0
    → count kb ≡ 1024
    → (pop (push (some kb) c)).0 ≡ c
unfolding pop
push_overwrites kb c v ne full = rw (push-pushed kb c v ne) (
    ground (
      arith,
      get_or-set_self kb.buffer (kb.tail % 1024) c 0 (omega (arith, v.storage)),
      ap (λ i. get_or (set kb.buffer (kb.tail % 1024) c) i 0) same_cell,
    ))
  where
    same_cell : kb.head % 1024 ≡ kb.tail % 1024
    same_cell = omega (arith, v.head_word, v.tail_word)
