-- ===== src/Executor/Streams.antt =====
-- The queues of the listeners to a task: `subscribe`, `unsubscribe`, `_broadcast`, `_cleanup_listeners`.
pub mod Bounded
pub mod Queues
pub mod Kept
pub mod Delivery
mod Tests
use secu_scan.Prelude.{
  ℕ, ◌+◌, ◌&&◌, Option, none, some, List, [], ◌∷◌, ◌++◌, map, ltb, leb, ◌==◌, if◌then◌else◌, length,
  any, drop, Text, Dict, lookup, or_default, insert, erase,
}

-- `STREAM_LISTENER_QUEUE_MAXSIZE`
abbrev pub stream_listener_queue_maxsize : ℕ
stream_listener_queue_maxsize = 100

-- `{"type": event_type, "data": data}`, the data by their text
pub record Event : Type 0 where
  pub event_type : Text
  pub payload : Text

-- An `asyncio.Queue` with its bound, the next event first. `identity` tells the objects apart.
pub record Queue : Type 0 where
  pub identity : ℕ
  pub maxsize : ℕ
  pub events : List Event

-- `q.put_nowait(event)`, `none` where it raises `QueueFull`; a bound of 0 is none.
unfoldable pub put_nowait : Event → Queue → Option Queue
put_nowait event q =
    if ltb 0 q.maxsize && leb q.maxsize (length q.events)
    then none
    else some (record q { events = q.events ++ event ∷ [] })

-- `q.get_nowait()`, with the empty queue left as it is
unfoldable pub get_nowait : Queue → Queue
get_nowait q = record q { events = drop 1 q.events }

-- `_enqueue_listener_event`
unfoldable pub enqueue_listener_event : Event → Queue → Queue
unfolding get_nowait
enqueue_listener_event event q = elim (put_nowait event q) [
  | some q' ↦ q'
  | none ↦ or_default (get_nowait q) (put_nowait event (get_nowait q))
]

-- The reader's `get_nowait`: the next event, if there is one
unfoldable pub receive : Queue → Option Event × Queue
receive q = elim q.events [
  | [] ↦ (none, q)
  | event ∷ events ↦ (some event, record q { events = events })
]

-- `_listeners`, with the number of the next queue
pub record Listeners : Type 0 where
  pub queues : Dict (List Queue)
  pub next_identity : ℕ

-- `subscribe` and the number of the queue that it returns
unfoldable pub subscribe : Text → Listeners → Listeners × ℕ
subscribe task_id l =
    let q : Queue = record {
      identity = l.next_identity;
      maxsize = stream_listener_queue_maxsize;
      events = [];
    } in
    (
      record {
        queues = insert task_id (or_default [] (lookup task_id l.queues) ++ q ∷ []) l.queues;
        next_identity = l.next_identity + 1;
      },
      l.next_identity,
    )

-- `list.remove(q)`: the first such queue
unfoldable pub remove_queue : ℕ → List Queue → List Queue
remove_queue identity [] = []
remove_queue identity (q ∷ qs) =
    let rest = remove_queue identity qs in if q.identity == identity then qs else q ∷ rest

-- `unsubscribe`; the last queue of a task takes the task with it.
unfoldable pub unsubscribe : Text → ℕ → Listeners → Listeners
unfolding remove_queue
unsubscribe task_id identity l = elim (lookup task_id l.queues) [
  | none ↦ l
  | some qs ↦
      if any (λ q. q.identity == identity) qs
      then elim (remove_queue identity qs) [
        | [] ↦ record l { queues = erase task_id l.queues }
        | q ∷ qs' ↦ record l { queues = insert task_id (q ∷ qs') l.queues }
      ]
      else l
]

-- `_broadcast`
unfoldable pub broadcast : Text → Event → Listeners → Listeners
broadcast task_id event l = elim (lookup task_id l.queues) [
  | none ↦ l
  | some qs ↦ record l { queues = insert task_id (map (enqueue_listener_event event) qs) l.queues }
]

-- `_cleanup_listeners`
unfoldable pub cleanup_listeners : Text → Listeners → Listeners
cleanup_listeners task_id l = record l { queues = erase task_id l.queues }

-- The reader of a queue takes the next event, while the queue stays with the listeners.
unfoldable pub take_event : ℕ → Queue → Queue
unfolding receive
take_event identity q = if q.identity == identity then (receive q).1 else q

unfoldable pub read_event : Text → ℕ → Listeners → Listeners
read_event task_id identity l = elim (lookup task_id l.queues) [
  | none ↦ l
  | some qs ↦ record l { queues = insert task_id (map (take_event identity) qs) l.queues }
]
