-- ===== src/Ratelimit/Concurrent.antt =====
-- `class ConcurrentTaskLimiter`: the tasks that hold one of `max_concurrent` slots.
pub mod Slots
use secu_scan.Prelude.{
  ℕ, ◌+◌, ◌-◌, Bool, true, false, List, [], ◌∷◌, ◌++◌, Option, none, some, Text, text_eq, text_in,
  leb, length, if◌then◌else◌,
}

pub record Limiter : Type 0 where
  pub max_concurrent : ℕ
  pub running_tasks : List Text

-- `ConcurrentTaskLimiter(max_concurrent)`
unfoldable pub init : ℕ → Limiter
init n = record { max_concurrent = n; running_tasks = [] }

-- `(acquired, error_message)`, the message with its `max_concurrent`
unfoldable pub acquire : Limiter → Text → Bool × Option ℕ × Limiter
acquire s t =
    if leb s.max_concurrent (length s.running_tasks)
    then (false, some s.max_concurrent, s)
    else (true, none, record s { running_tasks = s.running_tasks ++ t ∷ [] })

-- `running_tasks.remove(task_id)`: the first entry goes
remove : Text → List Text → List Text
remove t [] = []
remove t (x ∷ xs) = if text_eq t x then xs else x ∷ remove t xs

pub release : Limiter → Text → Limiter
unfolding remove
release s t =
    if text_in t s.running_tasks then record s { running_tasks = remove t s.running_tasks } else s

pub get_available_slots : Limiter → ℕ
get_available_slots s = s.max_concurrent - length s.running_tasks
