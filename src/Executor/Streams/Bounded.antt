-- ===== src/Executor/Streams/Bounded.antt =====
-- A listener's queue is a channel that keeps the newest events.
use secu_scan.Prelude.{
  newest, drop-append, length-newest-le, ℕ, ◌≤◌, ◌<◌, ◌≡◌, refl, sym, ap, ◌∙◌, subst, Option, none,
  some, List, [], ◌∷◌, ◌++◌, arith, length, length-append, drop, length-drop,
}
use native.Mathlib.Decide.{dec_lt}
use secu_scan.Executor.Streams.{
  Event, Queue, put_nowait, get_nowait, enqueue_listener_event, receive,
}

-- The queue keeps to its bound.
pub record IsBounded (n : ℕ) (q : Queue) : Type 0 where
  pub positive : 0 < n
  pub bound : q.maxsize ≡ n
  pub held : length q.events ≤ n

drop-full :
    (n : ℕ) (xs : List Event) (event : Event)
    → length xs ≡ n
    → 0 < n
    → newest n (xs ++ event ∷ []) ≡ drop 1 xs ++ event ∷ []
drop-full n xs event full pos =
    ap (λ k. drop k (xs ++ event ∷ [])) {y = 1} (omega (arith, length-append xs (event ∷ []), full))
    ∙ drop-append 1 xs (event ∷ []) (omega (arith, full))

drop-room :
    (n : ℕ) (xs : List Event) (event : Event)
    → length xs < n
    → newest n (xs ++ event ∷ []) ≡ xs ++ event ∷ []
drop-room n xs event room =
    ap (λ k. drop k (xs ++ event ∷ [])) {y = 0} (omega (arith, length-append xs (event ∷ [])))

enqueue-room :
    (n : ℕ) (event : Event) (q : Queue)
    → q.maxsize ≡ n
    → length q.events < n
    → enqueue_listener_event event q ≡ record q { events = q.events ++ event ∷ [] }
unfolding enqueue_listener_event put_nowait
enqueue-room n event q bound room = ground arith

enqueue-full :
    (n : ℕ) (event : Event) (q : Queue)
    → q.maxsize ≡ n
    → length q.events ≡ n
    → 0 < n
    → enqueue_listener_event event q ≡ record q { events = drop 1 q.events ++ event ∷ [] }
unfolding enqueue_listener_event put_nowait get_nowait
enqueue-full n event q bound full pos = ground (arith, length-drop 1 q.events)

-- An event that comes in leaves the newest `n` of the events held and itself.
pub enqueue-newest :
    (n : ℕ) (event : Event) (q : Queue)
    → IsBounded n q
    → enqueue_listener_event event q ≡ record q { events = newest n (q.events ++ event ∷ []) }
enqueue-newest n event q b = elim (dec_lt (length q.events) n) [
  | yes room ↦
      enqueue-room n event q b.bound room
      ∙ ap (λ (es : List Event). record q { events = es }) (sym (drop-room n q.events event room))
  | no full ↦
      let same : length q.events ≡ n = omega (arith, b.held) in
      enqueue-full n event q b.bound same b.positive
      ∙ ap (λ (es : List Event). record q { events = es })
          (sym (drop-full n q.events event same b.positive))
]

pub enqueue-IsBounded :
    (n : ℕ) (event : Event) (q : Queue)
    → IsBounded n q
    → IsBounded n (enqueue_listener_event event q)
enqueue-IsBounded n event q b = subst (IsBounded n) (sym (enqueue-newest n event q b)) (record {
  positive = b.positive;
  bound = b.bound;
  held = length-newest-le n (q.events ++ event ∷ []);
})

-- What a queue goes through: an event comes in, or its reader takes one.
pub data QueueAction : Type 0 where
  comes : Event → QueueAction
  takes : QueueAction

-- The events that the reader gets, `none` where it finds the queue empty
pub run : List QueueAction → Queue → List (Option Event)
run [] q = []
run (comes event ∷ acts) q = run acts (enqueue_listener_event event q)
run (takes ∷ acts) q = (receive q).0 ∷ run acts (receive q).1

-- The specification: a channel holds the newest `n` of the events that were sent and not taken.
abbrev next_event : List Event → Option Event
next_event [] = none
next_event (event ∷ events) = some event

unfoldable pub run_channel : ℕ → List QueueAction → List Event → List (Option Event)
run_channel n [] pending = []
run_channel n (comes event ∷ acts) pending = run_channel n acts (newest n (pending ++ event ∷ []))
run_channel n (takes ∷ acts) pending = next_event pending ∷ run_channel n acts (drop 1 pending)

pub receive-next :
    (q : Queue) → receive q ≡ (next_event q.events, record q { events = drop 1 q.events })
unfolding receive
receive-next q = split q.events refl
  where
    split :
        (es : List Event)
        → q.events ≡ es
        → receive q ≡ (next_event q.events, record q { events = drop 1 q.events })
    split [] e = ground (arith, e)
    split (event ∷ events) e = ground (arith, e)

pub taken-IsBounded :
    (n : ℕ) (q : Queue) → IsBounded n q → IsBounded n (record q { events = drop 1 q.events })
taken-IsBounded n q b = record {
  positive = b.positive;
  bound = b.bound;
  held = omega (arith, length-drop 1 q.events, b.held);
}

-- A bounded queue is a channel that keeps the newest events: whatever comes in and is taken, its reader gets
-- what the channel gives.
pub run-refines :
    (n : ℕ) (acts : List QueueAction) (q : Queue)
    → IsBounded n q
    → run acts q ≡ run_channel n acts q.events
unfolding run run_channel
run-refines n [] q b = refl
run-refines n (comes event ∷ acts) q b =
    run-refines n acts (enqueue_listener_event event q) (enqueue-IsBounded n event q b)
    ∙ ap (λ (q : Queue). run_channel n acts q.events) (enqueue-newest n event q b)
run-refines n (takes ∷ acts) q b =
    let left : Queue = record q { events = drop 1 q.events } in
    rw (receive-next q)
      (ap (λ r. next_event q.events ∷ r) (run-refines n acts left (taken-IsBounded n q b)))
