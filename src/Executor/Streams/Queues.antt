-- ===== src/Executor/Streams/Queues.antt =====
-- What the operations on one queue of a listener, and on a list of them, keep.
use secu_scan.Prelude.{
  ℕ, ◌≤◌, ◌<◌, ◌≡◌, refl, ◌≢◌, inl, inr, List, [], ◌∷◌, ◌++◌, map, arith, ◌==◌, Bool-cases, All,
}
use secu_scan.Executor.Streams.{
  take_event, Event, Queue, enqueue_listener_event, remove_queue, stream_listener_queue_maxsize,
}
use secu_scan.Executor.Streams.{put_nowait, get_nowait}
use secu_scan.Executor.Streams.Bounded.{receive-next, taken-IsBounded, IsBounded, enqueue-IsBounded}

abbrev pub IsGood : ℕ → Queue → Type 0
IsGood next q = IsBounded stream_listener_queue_maxsize q × (q.identity < next)

pub All-grow : (m n : ℕ) (qs : List Queue) → m ≤ n → All (IsGood m) qs → All (IsGood n) qs
All-grow m n [] le h = tt
All-grow m n (q ∷ qs) le h = ((h.0.0, omega (arith, le, h.0.1)), All-grow m n qs le h.1)

pub All-snoc :
    (n : ℕ) (qs : List Queue) (q : Queue)
    → All (IsGood n) qs
    → IsGood n q
    → All (IsGood n) (qs ++ q ∷ [])
All-snoc n [] q h g = (g, tt)
All-snoc n (p ∷ qs) q h g = (h.0, All-snoc n qs q h.1 g)

pub snoc-ne-nil : (qs : List Queue) (q : Queue) → qs ++ q ∷ [] ≢ []
snoc-ne-nil [] q = cc
snoc-ne-nil (p ∷ qs) q = cc

pub enqueue-identity :
    (event : Event) (q : Queue) → (enqueue_listener_event event q).identity ≡ q.identity
unfolding enqueue_listener_event put_nowait get_nowait
enqueue-identity event q = ground arith

pub All-map :
    (n : ℕ) (f : Queue → Queue)
    → ((q : Queue) → IsGood n q → IsGood n (f q))
    → (qs : List Queue) → All (IsGood n) qs
    → All (IsGood n) (map f qs)
All-map n f keep [] h = tt
All-map n f keep (q ∷ qs) h = (keep q h.0, All-map n f keep qs h.1)

pub enqueue-IsGood :
    (n : ℕ) (event : Event) (q : Queue) → IsGood n q → IsGood n (enqueue_listener_event event q)
enqueue-IsGood n event q g = (
  enqueue-IsBounded stream_listener_queue_maxsize event q g.0,
  omega (arith, enqueue-identity event q, g.1),
)

pub take_event-IsGood : (n identity : ℕ) (q : Queue) → IsGood n q → IsGood n (take_event identity q)
unfolding take_event
take_event-IsGood n identity q g = elim (Bool-cases (q.identity == identity)) [
  | inl same ↦ rw (same, receive-next q) (taken-IsBounded stream_listener_queue_maxsize q g.0, g.1)
  | inr other ↦ rw other g
]

pub map-ne-nil : (f : Queue → Queue) (qs : List Queue) → qs ≢ [] → map f qs ≢ []
map-ne-nil f [] h e = h refl
map-ne-nil f (q ∷ qs) h e = cc

pub All-remove :
    (n identity : ℕ) (qs : List Queue)
    → All (IsGood n) qs
    → All (IsGood n) (remove_queue identity qs)
unfolding remove_queue
All-remove n identity [] h = tt
All-remove n identity (q ∷ qs) h = elim (Bool-cases (q.identity == identity)) [
  | inl same ↦ rw same h.1
  | inr other ↦ rw other (h.0, All-remove n identity qs h.1)
]
