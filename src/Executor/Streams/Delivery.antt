-- ===== src/Executor/Streams/Delivery.antt =====
-- Which events a listener holds.
use secu_scan.Prelude.{
  newest_short, newest, newest-append, ℕ, ◌≡◌, refl, sym, ap, ◌∙◌, subst, inl, inr, false, Option,
  none, some, List, [], ◌∷◌, ◌++◌, map, arith, ◌==◌, if◌then◌else◌, Bool-cases, All, Text, text_eq,
  text_eq_refl, text_eq_iff, lookup, or_default, lookup-insert,
}
use mathlib.Core.Option.{none-ne-some}
use mathlib.Core.List.{append-nil, append_assoc}
use secu_scan.Executor.Streams.{
  Event, Queue, enqueue_listener_event, Listeners, subscribe, broadcast,
  stream_listener_queue_maxsize,
}
use secu_scan.Executor.Streams.Bounded.{IsBounded, enqueue-newest, enqueue-IsBounded}
use secu_scan.Executor.Streams.Kept.{IsValid, queues_of, queues_of-IsGood}
use secu_scan.Executor.Streams.Queues.{IsGood, enqueue-identity}

-- The queue with a number
abbrev pub find_queue : ℕ → List Queue → Option Queue
find_queue identity [] = none
find_queue identity (q ∷ qs) = if q.identity == identity then some q else find_queue identity qs

abbrev pub listener : Text → ℕ → Listeners → Option Queue
listener task_id identity l = find_queue identity (queues_of task_id l)

-- The events of a task, of events of all tasks
abbrev pub events_of : Text → List (Text × Event) → List Event
events_of task_id [] = []
events_of task_id ((t, event) ∷ bs) =
    let rest = events_of task_id bs in if text_eq task_id t then event ∷ rest else rest

abbrev pub broadcast_all : List (Text × Event) → Listeners → Listeners
broadcast_all [] l = l
broadcast_all ((t, event) ∷ bs) l = broadcast_all bs (broadcast t event l)

find_queue-map :
    (event : Event) (identity : ℕ) (qs : List Queue) (q : Queue)
    → find_queue identity qs ≡ some q
    → find_queue identity (map (enqueue_listener_event event) qs)
      ≡ some (enqueue_listener_event event q)
find_queue-map event identity [] q h = absurd (none-ne-some q h)
find_queue-map event identity (p ∷ qs) q h = elim (Bool-cases (p.identity == identity)) [
  | inl same ↦ ground (arith, enqueue-identity event p, same, h)
  | inr other ↦
      ground (arith, enqueue-identity event p, other, h, find_queue-map event identity qs q)
]

find_queue-snoc :
    (next : ℕ) (qs : List Queue) (q : Queue)
    → All (IsGood next) qs
    → q.identity ≡ next
    → find_queue next (qs ++ q ∷ []) ≡ some q
find_queue-snoc next [] q h e = ground (arith, e)
find_queue-snoc next (p ∷ qs) q h e = ground (arith, h.0.1, find_queue-snoc next qs q h.1 e)

-- A broadcast reaches the listeners of its task.
broadcast-own :
    (task_id : Text) (event : Event) (identity : ℕ) (l : Listeners) (q : Queue)
    → listener task_id identity l ≡ some q
    → listener task_id identity (broadcast task_id event l) ≡ some (enqueue_listener_event event q)
unfolding broadcast
broadcast-own task_id event identity l q h = split (lookup task_id l.queues) refl
  where
    split :
        (o : Option (List Queue))
        → lookup task_id l.queues ≡ o
        → listener task_id identity (broadcast task_id event l)
          ≡ some (enqueue_listener_event event q)
    split none e = absurd (ground (arith, h, e))
    split (some qs) e =
        rw
          (
            e,
            broadcast,
            lookup-insert task_id task_id (map (enqueue_listener_event event) qs) l.queues,
            text_eq_refl task_id,
          )
          (find_queue-map event identity qs q
            (subst (λ o. find_queue identity (or_default [] o) ≡ some q) e h))

broadcast-other :
    (task_id t : Text) (event : Event) (identity : ℕ) (l : Listeners)
    → text_eq task_id t ≡ false
    → listener task_id identity (broadcast t event l) ≡ listener task_id identity l
unfolding broadcast
broadcast-other task_id t event identity l other = split (lookup t l.queues) refl
  where
    split :
        (o : Option (List Queue))
        → lookup t l.queues ≡ o
        → listener task_id identity (broadcast t event l) ≡ listener task_id identity l
    split none e = rw (e, broadcast) refl
    split (some qs) e =
        rw
          (
            e,
            broadcast,
            lookup-insert task_id t (map (enqueue_listener_event event) qs) l.queues,
            other,
          )
          refl

-- Once an event has come in, the newest of what comes later are the newest of all.
module _ (n : ℕ) (q : Queue) (event : Event) where
  abbrev queue_after : Queue
  queue_after = record q { events = newest n (q.events ++ event ∷ []) }

  queue_after-newest :
      (es : List Event) → newest n (queue_after.events ++ es) ≡ newest n (q.events ++ event ∷ es)
  queue_after-newest es =
      newest-append n (q.events ++ event ∷ []) es
      ∙ ap (newest n) (append_assoc q.events (event ∷ []) es)

abbrev with_events : Queue → List Event → Option Queue
with_events q es = some (record q { events = es })

broadcast_all-newest :
    (task_id : Text) (identity : ℕ) (bs : List (Text × Event)) (l : Listeners) (q : Queue)
    → IsBounded stream_listener_queue_maxsize q
    → listener task_id identity l ≡ some q
    → listener task_id identity (broadcast_all bs l)
      ≡ with_events q (newest stream_listener_queue_maxsize (q.events ++ events_of task_id bs))
broadcast_all-newest task_id identity [] l q b h =
    h
    ∙ ap (with_events q) (
        sym (
          ap (newest stream_listener_queue_maxsize) (append-nil q.events)
          ∙ newest_short stream_listener_queue_maxsize q.events b.held))
broadcast_all-newest task_id identity ((t, event) ∷ bs) l q b h =
    elim (Bool-cases (text_eq task_id t)) [
      | inl same ↦
          let e : task_id ≡ t = (text_eq_iff task_id t).0 same in
          let got : listener task_id identity (broadcast t event l)
              ≡ some (queue_after 100 q event) =
            subst
              (λ t.
                listener task_id identity (broadcast t event l)
                ≡ some (enqueue_listener_event event q))
              e (broadcast-own task_id event identity l q h)
            ∙ ap {A = Queue} {B = Option Queue} (λ q. some q) (enqueue-newest 100 event q b) in
          let after =
            subst (IsBounded 100) (enqueue-newest 100 event q b)
              (enqueue-IsBounded 100 event q b) in
          rw same (
            broadcast_all-newest task_id identity bs (broadcast t event l) (queue_after 100 q event)
              after got
            ∙ ap (with_events q) (queue_after-newest 100 q event (events_of task_id bs)))
      | inr other ↦ rw other (
          broadcast_all-newest task_id identity bs (broadcast t event l) q b
            (broadcast-other task_id t event identity l other ∙ h))
    ]

-- Of valid listeners: a listener that subscribes to a task, and reads nothing, holds after any broadcasts the
-- newest 100 of the events of its task, in order, whatever is broadcast to other tasks.
pub subscriber-newest :
    (task_id : Text) (bs : List (Text × Event)) (l : Listeners)
    → IsValid l
    → let (l', identity) = subscribe task_id l in
      listener task_id identity (broadcast_all bs l')
      ≡ some (record {
        identity = identity;
        maxsize = stream_listener_queue_maxsize;
        events = newest stream_listener_queue_maxsize (events_of task_id bs);
      })
unfolding subscribe
subscriber-newest task_id bs l v =
    broadcast_all-newest task_id l.next_identity bs (subscribe task_id l).0 fresh
      (record { positive = omega arith; bound = refl; held = omega arith }) held
  where
    fresh : Queue
    fresh = record {
      identity = l.next_identity;
      maxsize = stream_listener_queue_maxsize;
      events = [];
    }

    held : listener task_id l.next_identity (subscribe task_id l).0 ≡ some fresh
    held =
        rw
          (
            lookup-insert task_id task_id (queues_of task_id l ++ fresh ∷ []) l.queues,
            text_eq_refl task_id,
          )
          (find_queue-snoc l.next_identity (queues_of task_id l) fresh
            (queues_of-IsGood task_id l v) refl)
