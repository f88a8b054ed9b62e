-- ===== src/Ratelimit/Hourly.antt =====
-- `class RateLimiter`: tasks per hour for each pair of a client and a plugin. A message is
-- represented by the figures that it shows.
pub mod Quota
pub mod Isolation
use secu_scan.Prelude.{
  ℕ, ◌+◌, ◌*◌, ◌≤◌, ◌≡◌, Bool, true, false, ◌&&◌, List, [], ◌∷◌, ◌++◌, Option, none, some, Text,
  Dict, lookup, insert, or_default, text_eq, ends_with, leb, length, if◌then◌else◌,
}
use secu_scan.Ratelimit.Window.{recent}

-- `timedelta(hours=1)`
abbrev pub hour : ℕ
hour = 3600 * 1_000_000

-- `task_history`
pub record RateLimiter : Type 0 where
  pub task_history : Dict (List ℕ)

-- What a call of `can_execute` is given, with the instant that `datetime.now()` returns in it.
pub record Call : Type 0 where
  pub now : ℕ
  pub plugin_id : Text
  pub max_per_hour : ℕ
  pub client_id : Text

-- `f"{client_id}:{plugin_id}"`
unfoldable pub bucket : Text → Text → Text
bucket client_id plugin_id = client_id ++ b':' ∷ plugin_id

-- `self.task_history[bucket]` of the `defaultdict(list)`
unfoldable pub history : RateLimiter → Text → List ℕ
history s b = or_default [] (lookup b s.task_history)

-- `(allowed, error_message)`, the message with its `recent_count` and `max_per_hour`
pub record Answer : Type 0 where
  pub allowed : Bool
  pub message : Option (ℕ × ℕ)

unfoldable pub can_execute : RateLimiter → Call → Answer × RateLimiter
can_execute s c =
    let b = bucket c.client_id c.plugin_id in
    let kept = recent hour c.now (history s b) in
    if leb c.max_per_hour (length kept)
    then (
      record { allowed = false; message = some (length kept, c.max_per_hour) },
      record s { task_history = insert b kept s.task_history },
    )
    else (
      record { allowed = true; message = none },
      record s { task_history = insert b (kept ++ c.now ∷ []) s.task_history },
    )

-- Every bucket that ends in `suffix` is set to the empty list.
clear_matching : Text → Dict (List ℕ) → Dict (List ℕ)
clear_matching suffix [] = []
clear_matching suffix ((k, v) ∷ d) =
    (k, (if ends_with k suffix then [] else v)) ∷ clear_matching suffix d

-- `reset(plugin_id)`, where `None` and the empty text clear all.
pub reset : RateLimiter → Option Text → RateLimiter
reset s none = record s { task_history = [] }
reset s (some []) = record s { task_history = [] }
reset s (some (c ∷ p)) = record s { task_history = clear_matching (b':' ∷ c ∷ p) s.task_history }
