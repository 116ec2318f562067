-- ===== src/Scheduler/Queue.antt =====
-- The ready queue, linked through the task table, is a queue of distinct tasks.
use minicore_os.Base.{
  ℕ, ◌≡◌, ◌≢◌, refl, Bool, true, false, ◌||◌, Option, none, some, List, [], ◌∷◌, ◌++◌, arith, ◌==◌,
  ◌∙◌, ap, subst, sym, Option-cases, inl, inr,
}
use mathlib.Core.Path.{subst₂}
use native.Mathlib.Decide.{ℕ_discrete}
use minicore_os.Scheduler.{Task, Scheduler, update, set_next, task_queue_add, unlink_head}

abbrev pub has : ℕ → List ℕ → Bool
has i [] = false
has i (x ∷ xs) = (i == x) || has i xs

abbrev pub Distinct : List ℕ → Type 0
Distinct [] = Unit {0}
Distinct (x ∷ xs) = (has x xs ≡ false) × Distinct xs

abbrev pub last? : List ℕ → Option ℕ
last? [] = none
last? (x ∷ []) = some x
last? (x ∷ (y ∷ ys)) = last? (y ∷ ys)

-- From `p` the `next` pointers lead through the tasks `xs`, and the last one is NULL.
abbrev pub Linked : (ℕ → Task) → Option ℕ → List ℕ → Type 0
Linked t p [] = p ≡ none
Linked t p (x ∷ xs) = (p ≡ some x) × Linked t (t x).next xs

pub record IsQueue (s : Scheduler) (xs : List ℕ) : Type 0 where
  pub links : Linked s.tasks s.queue_head xs
  pub tail : s.queue_tail ≡ last? xs
  pub distinct : Distinct xs

pub update_self : (t : ℕ → Task) (i : ℕ) (f : Task → Task) → update t i f i ≡ f (t i)
unfolding update
update_self t i f = ground arith

pub update_ne : (t : ℕ → Task) (i : ℕ) (f : Task → Task) (j : ℕ) → j ≢ i → update t i f j ≡ t j
unfolding update
update_ne t i f j ne = ground arith

-- Tables that agree on the `next` pointers of the tasks in the queue hold the same queue.
pub Linked-frame :
    (t g : ℕ → Task) (p : Option ℕ) (xs : List ℕ)
    → ((i : ℕ) → has i xs ≡ true → (g i).next ≡ (t i).next)
    → Linked t p xs
    → Linked g p xs
Linked-frame t g p [] same e = e
Linked-frame t g p (x ∷ xs) same (e, l) = (
  e,
  Linked-frame t g (g x).next xs (λ i h. same i (ground arith))
      (subst (λ q. Linked t q xs) (sym (same x (ground arith))) l),
)

has-append : (i : ℕ) (xs ys : List ℕ) → has i (xs ++ ys) ≡ (has i xs || has i ys)
has-append i [] ys = refl
has-append i (x ∷ xs) ys = ground (arith, has-append i xs ys)

pub has-snoc : (i : ℕ) (xs : List ℕ) (j : ℕ) → has i (xs ++ (j ∷ [])) ≡ (has i xs || i == j)
has-snoc i xs j = ground (arith, has-append i xs (j ∷ []))

Distinct-snoc : (xs : List ℕ) (i : ℕ) → has i xs ≡ false → Distinct xs → Distinct (xs ++ (i ∷ []))
Distinct-snoc [] i out d = (refl, tt)
Distinct-snoc (x ∷ xs) i out (e, d) =
    (ground (arith, has-snoc x xs i), Distinct-snoc xs i (ground arith) d)

last?-has : (xs : List ℕ) (z : ℕ) → last? xs ≡ some z → has z xs ≡ true
last?-has [] z e = cc
last?-has (x ∷ []) z e = ground arith
last?-has (x ∷ (y ∷ ys)) z e = ground (arith, last?-has (y ∷ ys) z e)

last?-snoc : (xs : List ℕ) (i : ℕ) → last? (xs ++ (i ∷ [])) ≡ some i
last?-snoc [] i = refl
last?-snoc (x ∷ []) i = refl
last?-snoc (x ∷ (y ∷ ys)) i = last?-snoc (y ∷ ys) i

last?-none : (xs : List ℕ) → last? xs ≡ none → xs ≡ []
last?-none [] e = refl
last?-none (x ∷ []) e = cc
last?-none (x ∷ (y ∷ ys)) e = cc (last?-none (y ∷ ys) e)

module _ (t : ℕ → Task) (i z : ℕ) where
  abbrev linked_in : ℕ → Task
  linked_in = set_next (set_next t i none) z (some i)

  next_last : (linked_in z).next ≡ some i
  next_last = ap (λ (k : Task). k.next) (update_self (set_next t i none) z _)

  next_new : i ≢ z → (linked_in i).next ≡ none
  next_new ne =
      ap (λ (k : Task). k.next) (update_ne (set_next t i none) z _ i ne)
      ∙ ap (λ (k : Task). k.next) (update_self t i _)

  next_other : (x : ℕ) → x ≢ i → x ≢ z → (linked_in x).next ≡ (t x).next
  next_other x ne ne' =
      ap (λ (k : Task). k.next) (update_ne (set_next t i none) z _ x ne' ∙ update_ne t i _ x ne)

  Linked-snoc :
      (p : Option ℕ) (xs : List ℕ)
      → last? xs ≡ some z
      → has i xs ≡ false
      → Distinct xs
      → Linked t p xs
      → Linked linked_in p (xs ++ (i ∷ []))
  Linked-snoc p [] e out d l = cc
  Linked-snoc p (x ∷ []) e out d (ep, l) =
      let ez : x ≡ z = ground arith in
      (ep, (subst (λ v. (linked_in v).next ≡ some i) (sym ez) next_last, next_new (ground arith)))
  Linked-snoc p (x ∷ (y ∷ ys)) e out (dx, d) (ep, l) =
      let inside = last?-has (y ∷ ys) z e in
      (
        ep,
        subst (λ q. Linked linked_in q (y ∷ (ys ++ (i ∷ []))))
            (sym (next_other x (ground arith) (ground arith)))
            (Linked-snoc (t x).next (y ∷ ys) e (ground arith) d l),
      )

-- `task_queue_add` puts a task that is not in the queue at its end.
pub task_queue_add-IsQueue :
    {s : Scheduler} {xs : List ℕ} (i : ℕ)
    → IsQueue s xs
    → has i xs ≡ false
    → IsQueue (task_queue_add s i) (xs ++ (i ∷ []))
unfolding task_queue_add
task_queue_add-IsQueue {s} {xs} i q out = elim (Option-cases s.queue_tail) [
  | inl e ↦
      rw (e, last?-none xs (sym q.tail ∙ e))
        (record {
          links = (refl, ap (λ (k : Task). k.next) (update_self s.tasks i _));
          tail = refl;
          distinct = (refl, tt);
        })
  | inr (z, e) ↦ rw e (record {
    links = Linked-snoc s.tasks i z s.queue_head xs (sym q.tail ∙ e) out q.distinct q.links;
    tail = sym (last?-snoc xs i);
    distinct = Distinct-snoc xs i out q.distinct;
  })
]

tail_behind :
    (t : ℕ → Task) (x : ℕ) (tail p : Option ℕ) (xs : List ℕ)
    → Linked t p xs
    → tail ≡ last? (x ∷ xs)
    → elim p [ none ↦ none | some j ↦ tail ] ≡ last? xs
tail_behind t x tail p [] l e = rw l
tail_behind t x tail p (y ∷ ys) (ep, l) e = rw ep e

-- `task_queue_remove_next` takes the first task of the queue.
pub unlink_head-IsQueue :
    {s : Scheduler} (x : ℕ) (xs : List ℕ) → IsQueue s (x ∷ xs) → IsQueue (unlink_head s x) xs
unfolding unlink_head
unlink_head-IsQueue {s} x xs q = record {
  links =
      Linked-frame s.tasks (set_next s.tasks x none) (s.tasks x).next xs
        (λ i h. ap (λ (k : Task). k.next) (update_ne s.tasks x _ i (ground (arith, q.distinct.0))))
        q.links.1;
  tail = tail_behind s.tasks x s.queue_tail (s.tasks x).next xs q.links.1 q.tail;
  distinct = q.distinct.1;
}

-- A write that keeps the `next` pointer keeps the queue.
pub update-IsQueue :
    {s : Scheduler} {xs : List ℕ} (i : ℕ) (f : Task → Task)
    → ((k : Task) → (f k).next ≡ k.next)
    → IsQueue s xs
    → IsQueue (record s { tasks = update s.tasks i f }) xs
update-IsQueue {s} {xs} i f keep q = record {
  links = Linked-frame s.tasks (update s.tasks i f) s.queue_head xs (λ j h. same j) q.links;
  tail = q.tail;
  distinct = q.distinct;
}
  where
    same : (j : ℕ) → (update s.tasks i f j).next ≡ (s.tasks j).next
    same j = elim (ℕ_discrete j i) [
      | yes e ↦
          subst (λ v. (update s.tasks i f v).next ≡ (s.tasks v).next) (sym e)
            (ap (λ (k : Task). k.next) (update_self s.tasks i f) ∙ keep (s.tasks i))
      | no ne ↦ ap (λ (k : Task). k.next) (update_ne s.tasks i f j ne)
    ]

-- The queue does not depend on the other variables.
pub same-IsQueue :
    {s s' : Scheduler} {xs : List ℕ}
    → s'.tasks ≡ s.tasks
    → s'.queue_head ≡ s.queue_head
    → s'.queue_tail ≡ s.queue_tail
    → IsQueue s xs
    → IsQueue s' xs
same-IsQueue {s} {s'} {xs} et eh el q = record {
  links = subst₂ (λ t p. Linked t p xs) (sym et) (sym eh) q.links;
  tail = el ∙ q.tail;
  distinct = q.distinct;
}
