-- ===== src/Task/Append.antt =====
-- The list of tasks, and `task_new` as appending to it.
use custom_peach_os.Prelude.{ℕ, ◌≡◌, ◌≢◌, refl, sym, ap, ◌∙◌, List, [], ◌∷◌, ◌++◌, arith}
use mathlib.Core.Path.{subst}
use custom_peach_os.Task.{Store, write, Tasks, task_link}

abbrev pub first : List ℕ → ℕ
first [] = 0
first (x ∷ xs) = x

-- The last task, or `p` if there is none.
abbrev pub last : ℕ → List ℕ → ℕ
last p [] = p
last p (x ∷ xs) = last x xs

-- From behind task `p` on the tasks are linked in both directions, in the order of the list.
abbrev pub Linked : Store → ℕ → List ℕ → Type 0
Linked store p [] = Unit
Linked store p (x ∷ xs) =
    (x ≢ 0) × ((store x).prev ≡ p) × ((store x).next ≡ first xs) × Linked store x xs

abbrev pub Fresh : ℕ → List ℕ → Type 0
Fresh a [] = Unit
Fresh a (x ∷ xs) = (x ≢ a) × Fresh a xs

abbrev pub Distinct : List ℕ → Type 0
Distinct [] = Unit
Distinct (x ∷ xs) = Fresh x xs × Distinct xs

pub record IsTaskList (t : Tasks) (xs : List ℕ) : Type 0 where
  pub head_first : t.task_head ≡ first xs
  pub tail_last : t.task_tail ≡ last 0 xs
  pub linked : Linked t.store 0 xs
  pub distinct : Distinct xs

last-Fresh : (a p : ℕ) (xs : List ℕ) → p ≢ a → Fresh a xs → last p xs ≢ a
last-Fresh a p [] ne f = ne
last-Fresh a p (x ∷ xs) ne f = last-Fresh a x xs f.0 f.1

pub last-append : (p a : ℕ) (xs : List ℕ) → last p (xs ++ (a ∷ [])) ≡ a
last-append p a [] = refl
last-append p a (x ∷ xs) = last-append x a xs

first-append : (a x : ℕ) (xs : List ℕ) → first ((x ∷ xs) ++ (a ∷ [])) ≡ x
first-append a x xs = refl

Fresh-append : (a x : ℕ) (xs : List ℕ) → Fresh x xs → a ≢ x → Fresh x (xs ++ (a ∷ []))
Fresh-append a x [] f ne = (ne, tt)
Fresh-append a x (y ∷ xs) f ne = (f.0, Fresh-append a x xs f.1 ne)

Distinct-append : (a : ℕ) (xs : List ℕ) → Distinct xs → Fresh a xs → Distinct (xs ++ (a ∷ []))
Distinct-append a [] d f = (tt, tt)
Distinct-append a (x ∷ xs) d f =
    (Fresh-append a x xs d.0 (λ e. f.0 (sym e)), Distinct-append a xs d.1 f.1)

-- The store that `task_link` leaves.
abbrev linked_store : Store → ℕ → ℕ → Store
linked_store store tail a =
    let store1 = write store tail (record (store tail) { next = a }) in
    write store1 a (record (store1 a) { prev = tail })

prev-other :
    (store : Store) (tail a x : ℕ) → x ≢ a → (linked_store store tail a x).prev ≡ (store x).prev
prev-other store tail a x ne = ground (arith, ap store {x = x} {y = tail})

next-other :
    (store : Store) (tail a x : ℕ)
    → x ≢ a
    → x ≢ tail
    → (linked_store store tail a x).next ≡ (store x).next
next-other store tail a x ne nt = ground arith

next-tail : (store : Store) (tail a : ℕ) → tail ≢ a → (linked_store store tail a tail).next ≡ a
next-tail store tail a ne = ground arith

prev-new : (store : Store) (tail a : ℕ) → (linked_store store tail a a).prev ≡ tail
prev-new store tail a = ground arith

next-new :
    (store : Store) (tail a : ℕ) → tail ≢ a → (linked_store store tail a a).next ≡ (store a).next
next-new store tail a ne = ground arith

Linked-append :
    (store : Store) (a p x : ℕ) (xs : List ℕ)
    → a ≢ 0
    → (store a).next ≡ 0
    → Linked store p (x ∷ xs)
    → Distinct (x ∷ xs)
    → Fresh a (x ∷ xs)
    → Linked (linked_store store (last x xs) a) p ((x ∷ xs) ++ (a ∷ []))
Linked-append store a p x [] nz end l d f = (
  l.0,
  prev-other store x a x f.0 ∙ l.1,
  next-tail store x a f.0,
  (nz, prev-new store x a, next-new store x a f.0 ∙ end, tt),
)
Linked-append store a p x (y ∷ xs) nz end l d f = (
  l.0,
  prev-other store (last y xs) a x f.0 ∙ l.1,
  next-other store (last y xs) a x f.0 (λ e. last-Fresh x y xs d.0.0 d.0.1 (sym e)) ∙ l.2,
  Linked-append store a x y xs nz end l.3 d.1 f.1,
)

task_link_of :
    (t : Tasks) (a : ℕ)
    → t.task_head ≢ 0
    → task_link t a ≡ record t { store = linked_store t.store t.task_tail a; task_tail = a }
unfolding task_link
task_link_of t a ne = ground arith

task_link_first :
    (t : Tasks) (a : ℕ)
    → t.task_head ≡ 0
    → task_link t a ≡ record t { task_head = a; task_tail = a; current_task = a }
unfolding task_link
task_link_first t a e = ground arith

-- Where the tasks are linked in both directions in the order of a list without repetitions, and a
-- task that is not among them, not a null pointer and has no neighbours is added by the end of
-- `task_new`, the tasks are so linked in the order of the list with that task behind it.
pub task_link-IsTaskList :
    (t : Tasks) (xs : List ℕ) (a : ℕ)
    → IsTaskList t xs
    → a ≢ 0
    → Fresh a xs
    → (t.store a).next ≡ 0
    → (t.store a).prev ≡ 0
    → IsTaskList (task_link t a) (xs ++ (a ∷ []))
task_link-IsTaskList t [] a v nz f end start = rw (task_link_first t a v.head_first) (record {
  head_first = refl;
  tail_last = refl;
  linked = (nz, start, end, tt);
  distinct = (tt, tt);
})
task_link-IsTaskList t (x ∷ xs) a v nz f end start =
    rw (task_link_of t a (λ e. v.linked.0 (sym v.head_first ∙ e))) (record {
      head_first = v.head_first;
      tail_last = sym (last-append x a xs);
      linked =
          subst (λ (q : ℕ). Linked (linked_store t.store q a) 0 ((x ∷ xs) ++ (a ∷ [])))
            (sym v.tail_last) (Linked-append t.store a 0 x xs nz end v.linked v.distinct f);
      distinct = Distinct-append a (x ∷ xs) v.distinct f;
    })
