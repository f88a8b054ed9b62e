-- ===== src/Executor/Streams/Kept.antt =====
-- What all that happens to the listeners keeps.
use secu_scan.Prelude.{
  ℕ, ◌+◌, ◌≤◌, ◌≡◌, refl, sym, ap, ◌∙◌, subst, ◌≢◌, inl, inr, true, Option, none, some, List, [],
  ◌∷◌, map, arith, ◌==◌, Bool-cases, any, All, Text, text_eq, lookup, or_default, insert, erase,
  lookup-insert, lookup-erase,
}
use mathlib.Core.Option.{none-ne-some}
use secu_scan.Executor.Streams.{
  take_event, read_event, Event, Queue, enqueue_listener_event, Listeners, subscribe, remove_queue,
  unsubscribe, broadcast, cleanup_listeners,
}
use secu_scan.Executor.Streams.Queues.{
  All-grow, All-map, All-remove, All-snoc, IsGood, enqueue-IsGood, map-ne-nil, snoc-ne-nil,
  take_event-IsGood,
}

abbrev pub queues_of : Text → Listeners → List Queue
queues_of task_id l = or_default [] (lookup task_id l.queues)

-- Every task that is there has a listener, and every queue keeps to the bound and to a number that was
-- given before.
abbrev pub IsValid : Listeners → Type 0
IsValid l =
    (task_id : Text) (qs : List Queue)
    → lookup task_id l.queues ≡ some qs
    → (qs ≢ []) × All (IsGood l.next_identity) qs

-- An update of one task
insert-IsValid :
    (task_id : Text) (new : List Queue) (next : ℕ) (l : Listeners)
    → IsValid l
    → l.next_identity ≤ next
    → new ≢ []
    → All (IsGood next) new
    → IsValid (record { queues = insert task_id new l.queues; next_identity = next })
insert-IsValid task_id new next l v le some_queue good t qs h =
    elim (Bool-cases (text_eq t task_id)) [
      | inl same ↦
          let own : lookup t (insert task_id new l.queues) ≡ some new =
            lookup-insert t task_id new l.queues ∙ rw same refl in
          subst (λ qs. (qs ≢ []) × All (IsGood next) qs) (ap (or_default []) (sym own ∙ h))
            (some_queue, good)
      | inr other ↦
          let (ne, old) = v t qs (sym (lookup-insert t task_id new l.queues ∙ rw other refl) ∙ h) in
          (ne, All-grow l.next_identity next qs le old)
    ]

erase-IsValid :
    (task_id : Text) (l : Listeners)
    → IsValid l
    → IsValid (record l { queues = erase task_id l.queues })
erase-IsValid task_id l v t qs h = elim (Bool-cases (text_eq t task_id)) [
  | inl same ↦ absurd (none-ne-some qs (sym (lookup-erase t task_id l.queues ∙ rw same refl) ∙ h))
  | inr other ↦ v t qs (sym (lookup-erase t task_id l.queues ∙ rw other refl) ∙ h)
]

pub queues_of-IsGood :
    (task_id : Text) (l : Listeners)
    → IsValid l
    → All (IsGood l.next_identity) (queues_of task_id l)
queues_of-IsGood task_id l v = split (lookup task_id l.queues) refl
  where
    split :
        (o : Option (List Queue))
        → lookup task_id l.queues ≡ o
        → All (IsGood l.next_identity) (or_default [] (lookup task_id l.queues))
    split none q = rw q tt
    split (some qs) q = rw q (v task_id qs q).1

subscribe-IsValid : (task_id : Text) (l : Listeners) → IsValid l → IsValid (subscribe task_id l).0
unfolding subscribe
subscribe-IsValid task_id l v =
    insert-IsValid task_id _ (l.next_identity + 1) l v (omega arith)
      (snoc-ne-nil (queues_of task_id l) _)
      (All-snoc (l.next_identity + 1) (queues_of task_id l) _
        (All-grow l.next_identity (l.next_identity + 1) (queues_of task_id l) (omega arith)
          (queues_of-IsGood task_id l v))
        (record { positive = omega arith; bound = refl; held = omega arith }, omega arith))

-- An update of each queue of a task
map-IsValid :
    (task_id : Text) (f : Queue → Queue) (qs : List Queue) (l : Listeners)
    → ((q : Queue) → IsGood l.next_identity q → IsGood l.next_identity (f q))
    → IsValid l
    → lookup task_id l.queues ≡ some qs
    → IsValid (record l { queues = insert task_id (map f qs) l.queues })
map-IsValid task_id f qs l keep v q =
    let (ne, good) = v task_id qs q in
    insert-IsValid task_id (map f qs) l.next_identity l v (omega arith) (map-ne-nil f qs ne)
      (All-map l.next_identity f keep qs good)

broadcast-IsValid :
    (task_id : Text) (event : Event) (l : Listeners)
    → IsValid l
    → IsValid (broadcast task_id event l)
unfolding broadcast
broadcast-IsValid task_id event l v = split (lookup task_id l.queues) refl
  where
    split :
        (o : Option (List Queue))
        → lookup task_id l.queues ≡ o
        → IsValid (broadcast task_id event l)
    split none q = rw (q, broadcast) v
    split (some qs) q =
        rw (q, broadcast)
          (map-IsValid task_id (enqueue_listener_event event) qs l
            (enqueue-IsGood l.next_identity event) v q)

read_event-IsValid :
    (task_id : Text) (identity : ℕ) (l : Listeners)
    → IsValid l
    → IsValid (read_event task_id identity l)
unfolding read_event
read_event-IsValid task_id identity l v = split (lookup task_id l.queues) refl
  where
    split :
        (o : Option (List Queue))
        → lookup task_id l.queues ≡ o
        → IsValid (read_event task_id identity l)
    split none q = rw (q, read_event) v
    split (some qs) q =
        rw (q, read_event)
          (map-IsValid task_id (take_event identity) qs l
            (take_event-IsGood l.next_identity identity) v q)

unsubscribe-IsValid :
    (task_id : Text) (identity : ℕ) (l : Listeners)
    → IsValid l
    → IsValid (unsubscribe task_id identity l)
unfolding unsubscribe
unsubscribe-IsValid task_id identity l v = split (lookup task_id l.queues) refl
  where
    leaves :
        (qs left : List Queue)
        → lookup task_id l.queues ≡ some qs
        → any (λ q. q.identity == identity) qs ≡ true
        → remove_queue identity qs ≡ left
        → IsValid (unsubscribe task_id identity l)
    leaves qs [] q found e = rw (q, unsubscribe, found, e) (erase-IsValid task_id l v)
    leaves qs (p ∷ left) q found e =
        rw (q, unsubscribe, found, e)
          (insert-IsValid task_id (p ∷ left) l.next_identity l v (omega arith) (cc) (
            subst (All (IsGood l.next_identity)) e
              (All-remove l.next_identity identity qs (v task_id qs q).1)))

    split :
        (o : Option (List Queue))
        → lookup task_id l.queues ≡ o
        → IsValid (unsubscribe task_id identity l)
    split none q = rw (q, unsubscribe) v
    split (some qs) q = elim (Bool-cases (any (λ q. q.identity == identity) qs)) [
      | inl found ↦ leaves qs (remove_queue identity qs) q found refl
      | inr missing ↦ rw (q, unsubscribe, missing) v
    ]

-- What happens to the listeners.
pub data Change : Listeners → Listeners → Type 0 where
  subscribes : (task_id : Text) (l : Listeners) → Change l (subscribe task_id l).0
  unsubscribes :
      (task_id : Text) (identity : ℕ) (l : Listeners) → Change l (unsubscribe task_id identity l)
  broadcasts :
      (task_id : Text) (event : Event) (l : Listeners) → Change l (broadcast task_id event l)
  reads : (task_id : Text) (identity : ℕ) (l : Listeners) → Change l (read_event task_id identity l)
  cleans : (task_id : Text) (l : Listeners) → Change l (cleanup_listeners task_id l)

abbrev pub no_listeners : Listeners
no_listeners = record { queues = []; next_identity = 0 }

pub data Reach : Listeners → Type 0 where
  here : Reach no_listeners
  next : {l m : Listeners} → Reach l → Change l m → Reach m

Change-IsValid : {l m : Listeners} → Change l m → IsValid l → IsValid m
unfolding cleanup_listeners
Change-IsValid (subscribes task_id l) v = subscribe-IsValid task_id l v
Change-IsValid (unsubscribes task_id identity l) v = unsubscribe-IsValid task_id identity l v
Change-IsValid (broadcasts task_id event l) v = broadcast-IsValid task_id event l v
Change-IsValid (reads task_id identity l) v = read_event-IsValid task_id identity l v
Change-IsValid (cleans task_id l) v = erase-IsValid task_id l v

-- Whatever happens to the listeners, no task is left with an empty list of them, and no queue holds more
-- than 100 events.
pub listeners-IsValid : {l : Listeners} → Reach l → IsValid l
unfolding lookup
listeners-IsValid here task_id qs h = absurd (none-ne-some qs h)
listeners-IsValid (next r c) task_id qs h = Change-IsValid c (listeners-IsValid r) task_id qs h
