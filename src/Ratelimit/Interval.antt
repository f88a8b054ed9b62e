-- ===== src/Ratelimit/Interval.antt =====
-- `class WorkflowRateLimiter`: the least time between two scheduled runs of a workflow.
pub mod Spacing
use secu_scan.Prelude.{
  ℕ, ◌+◌, ◌-◌, Bool, true, false, Option, none, some, Text, Dict, lookup, insert, ltb,
  if◌then◌else◌,
}

-- `_last_run`
pub record Limiter : Type 0 where
  pub last_run : Dict ℕ

-- `last and (now - last) < min_interval`, with the time that is left to wait
unfoldable pub too_soon : Option ℕ → ℕ → ℕ → Bool
too_soon none now interval = false
too_soon (some last) now interval = ltb now (last + interval)

remaining : Option ℕ → ℕ → ℕ → ℕ
remaining none now interval = 0
remaining (some last) now interval = last + interval - now

-- `check_workflow_rate_limit(workflow_id, interval)` at `now`: the answer, the wait that the message
-- shows, and the new state.
unfoldable pub check_workflow_rate_limit : Limiter → ℕ → Text → ℕ → Bool × Option ℕ × Limiter
unfolding too_soon remaining
check_workflow_rate_limit s now workflow_id interval =
    let last = lookup workflow_id s.last_run in
    if too_soon last now interval
    then (false, some (remaining last now interval), s)
    else (true, none, record s { last_run = insert workflow_id now s.last_run })
