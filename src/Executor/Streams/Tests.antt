-- ===== src/Executor/Streams/Tests.antt =====
-- The theorems of the listeners' queues at concrete inputs.
use secu_scan.Prelude.{newest, ◌≡◌, refl, none, some, [], ◌∷◌, arith, Text, codes}
use secu_scan.Executor.Streams.{
  Event, Queue, Listeners, subscribe, broadcast, stream_listener_queue_maxsize,
}
use secu_scan.Executor.Streams.Bounded.{comes, takes, run, run_channel, run-refines}
use secu_scan.Executor.Streams.Kept.{
  Reach, here, next, subscribes, broadcasts, no_listeners, listeners-IsValid, IsValid,
}
use secu_scan.Executor.Streams.Delivery.{listener, broadcast_all, events_of, subscriber-newest}

abbrev output : Event
output = record { event_type = codes "output"; payload = codes "line" }

abbrev status : Event
status = record { event_type = codes "status"; payload = codes "failed" }

abbrev small : Queue
small = record { identity = 0; maxsize = 1; events = [] }

run-refines_example :
    run (comes output ∷ comes status ∷ takes ∷ takes ∷ []) small
    ≡ run_channel 1 (comes output ∷ comes status ∷ takes ∷ takes ∷ []) []
run-refines_example =
    run-refines 1 (comes output ∷ comes status ∷ takes ∷ takes ∷ []) small
      (record { positive = omega arith; bound = refl; held = omega arith })

gets_newest :
    run_channel 1 (comes output ∷ comes status ∷ takes ∷ takes ∷ []) [] ≡ some status ∷ none ∷ []
unfolding run_channel
gets_newest = refl

abbrev t1 : Text
t1 = codes "t1"

abbrev one_listener : Listeners
one_listener = broadcast t1 output (subscribe t1 no_listeners).0

one_listener-Reach : Reach one_listener
one_listener-Reach =
    next (next here (subscribes t1 no_listeners))
      (broadcasts t1 output (subscribe t1 no_listeners).0)

listeners-IsValid_example : IsValid one_listener
listeners-IsValid_example = listeners-IsValid one_listener-Reach

subscriber-newest_example :
    let (l', identity) = subscribe t1 one_listener in
    listener t1 identity (broadcast_all ((t1, status) ∷ (codes "t2", output) ∷ []) l')
    ≡ some (record {
      identity = identity;
      maxsize = stream_listener_queue_maxsize;
      events =
          newest stream_listener_queue_maxsize
            (events_of t1 ((t1, status) ∷ (codes "t2", output) ∷ []));
    })
subscriber-newest_example =
    subscriber-newest t1 ((t1, status) ∷ (codes "t2", output) ∷ []) one_listener
      (listeners-IsValid one_listener-Reach)
