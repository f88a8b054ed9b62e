-- ===== src/Workflow/Steps/Slots.antt =====
-- The slots that the tasks of a run take.
use secu_scan.Ratelimit.Concurrent as Concurrent
use secu_scan.Ratelimit.Concurrent.Slots as Slots
use secu_scan.NetworkPolicy.Engine.{Engine}
use secu_scan.Workflow.Steps.{State}

-- Calls of `acquire` and `release` lead from the slots of one state to those of the other.
abbrev pub Reaches : State → State → Type 0
Reaches s t = Slots.Reach s.concurrent_limiter t.concurrent_limiter
