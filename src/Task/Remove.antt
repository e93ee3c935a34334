-- ===== src/Task/Remove.antt =====
-- `task_list_remove` of the last task.
use custom_peach_os.Prelude.{ℕ, ◌≡◌, ◌≢◌, sym, ap, ◌∙◌, List, [], ◌∷◌, ◌++◌, arith}
use mathlib.Core.Path.{subst}
use custom_peach_os.Task.{Store, write, Tasks, task_list_remove}
use custom_peach_os.Task.Append.{last, Linked, Fresh, Distinct, IsTaskList, last-append}

-- The store in which the task at `q` has no next task.
abbrev cut_store : Store → ℕ → ℕ → Store
cut_store store q v = write store q (record (store q) { next = v })

prev-cut : (store : Store) (q v x : ℕ) → (cut_store store q v x).prev ≡ (store x).prev
prev-cut store q v x = ground (arith, ap store {x = x} {y = q})

next-cut_other : (store : Store) (q v x : ℕ) → x ≢ q → (cut_store store q v x).next ≡ (store x).next
next-cut_other store q v x ne = ground arith

next-cut_self : (store : Store) (q v : ℕ) → (cut_store store q v q).next ≡ v
next-cut_self store q v = ground arith

last-ne : (x y a : ℕ) (xs : List ℕ) → Fresh x (y ∷ xs ++ (a ∷ [])) → last y xs ≢ x
last-ne x y a [] f = f.0
last-ne x y a (z ∷ xs) f = last-ne x z a xs f.1

Linked-cut :
    (store : Store) (a p x : ℕ) (xs : List ℕ)
    → Linked store p ((x ∷ xs) ++ (a ∷ []))
    → Distinct ((x ∷ xs) ++ (a ∷ []))
    → Linked (cut_store store (last x xs) 0) p (x ∷ xs)
Linked-cut store a p x [] l d = (l.0, prev-cut store x 0 x ∙ l.1, next-cut_self store x 0, tt)
Linked-cut store a p x (y ∷ xs) l d = (
  l.0,
  prev-cut store (last y xs) 0 x ∙ l.1,
  next-cut_other store (last y xs) 0 x (λ e. last-ne x y a xs d.0 (sym e)) ∙ l.2,
  Linked-cut store a x y xs l.3 d.1,
)

-- What the links say of the last task.
Linked-last :
    (store : Store) (a p x : ℕ) (xs : List ℕ)
    → Linked store p ((x ∷ xs) ++ (a ∷ []))
    → (last x xs ≢ 0) × ((store a).prev ≡ last x xs) × ((store a).next ≡ 0)
Linked-last store a p x [] l = (l.0, l.3.1, l.3.2)
Linked-last store a p x (y ∷ xs) l = Linked-last store a x y xs l.3

Fresh-last : (a x : ℕ) (xs : List ℕ) → Fresh x (xs ++ (a ∷ [])) → a ≢ x
Fresh-last a x [] f = f.0
Fresh-last a x (y ∷ xs) f = Fresh-last a x xs f.1

Fresh-front : (a x : ℕ) (xs : List ℕ) → Fresh x (xs ++ (a ∷ [])) → Fresh x xs
Fresh-front a x [] f = tt
Fresh-front a x (y ∷ xs) f = (f.0, Fresh-front a x xs f.1)

Distinct-front : (a : ℕ) (xs : List ℕ) → Distinct (xs ++ (a ∷ [])) → Distinct xs
Distinct-front a [] d = tt
Distinct-front a (x ∷ xs) d = (Fresh-front a x xs d.0, Distinct-front a xs d.1)

remove_of :
    (t : Tasks) (a q : ℕ)
    → (t.store a).prev ≡ q
    → (t.store a).next ≡ 0
    → q ≢ 0
    → a ≢ t.task_head
    → a ≡ t.task_tail
    → let r = task_list_remove t a in
      (r.store ≡ cut_store t.store q 0) × (r.task_head ≡ t.task_head) × (r.task_tail ≡ q)
unfolding task_list_remove
remove_of t a q e end nz nh et =
    (ground arith, ground arith, ground (arith, prev-cut t.store q 0 a))

-- Where the tasks are linked in both directions in the order of a list without repetitions and with
-- at least two tasks, `task_list_remove` of the last task leaves the others so linked in their
-- order.
pub task_list_remove-IsTaskList :
    (t : Tasks) (a x : ℕ) (xs : List ℕ)
    → IsTaskList t ((x ∷ xs) ++ (a ∷ []))
    → IsTaskList (task_list_remove t a) (x ∷ xs)
task_list_remove-IsTaskList t a x xs v =
    let (nz, back, end) = Linked-last t.store a 0 x xs v.linked in
    let (stored, head, tail) =
      remove_of t a (last x xs) back end nz (λ e. Fresh-last a x xs v.distinct.0 (e ∙ v.head_first))
        (sym (v.tail_last ∙ last-append x a xs)) in
    record {
      head_first = head ∙ v.head_first;
      tail_last = tail;
      linked =
          subst (λ (s : Store). Linked s 0 (x ∷ xs)) (sym stored)
            (Linked-cut t.store a 0 x xs v.linked v.distinct);
      distinct = Distinct-front a (x ∷ xs) v.distinct;
    }
