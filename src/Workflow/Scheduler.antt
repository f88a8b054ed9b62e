-- ===== src/Workflow/Scheduler.antt =====
-- `WorkflowScheduler.tick` and `_should_run`: which workflows run at a tick. Instants are microseconds;
-- `last_run_at` is the instant that its text stands for, which is taken as UTC where it names no zone.
use secu_scan.Prelude.{
  ℕ, ◌+◌, ◌*◌, ◌≡◌, Bool, true, false, ◌&&◌, ◌||◌, Option, none, some, List, [], ◌∷◌, arith, leb,
  if◌then◌else◌, Text, text_eq, text_in,
}
use secu_scan.Ratelimit.Endpoint.{second}
use secu_scan.Ratelimit.Interval.{Limiter, check_workflow_rate_limit}

-- A row that the tick reads, and the instant at which the limiter is asked about it.
pub record Row : Type 0 where
  pub id : Text
  pub last_run_at : Option ℕ
  pub schedule_seconds : ℕ
  pub asked_at : ℕ

-- `_should_run`
unfoldable pub should_run : ℕ → Option ℕ → ℕ → Bool
should_run now none schedule_seconds = true
should_run now (some last) schedule_seconds = leb (last + schedule_seconds * second) now

-- The loop of `tick`, where no run raises: the workflows that are run, in order, of which the tick then
-- sets `last_run_at`, and the limiter. The rows were all read before.
unfoldable pub tick : ℕ → ℕ → List Row → Limiter → List Text × Limiter
tick now interval [] limiter = ([], limiter)
tick now interval (row ∷ rows) limiter =
    let (ok, wait, limiter') = check_workflow_rate_limit limiter row.asked_at row.id interval in
    let (run_ids, after_run) = tick now interval rows limiter' in
    let (skip_ids, after_skip) = tick now interval rows limiter in
    if should_run now row.last_run_at row.schedule_seconds
    then (if ok then (row.id ∷ run_ids, after_run) else (run_ids, after_run))
    else (skip_ids, after_skip)

-- Some row of the workflow is due.
abbrev pub is_due : ℕ → Text → List Row → Bool
is_due now id [] = false
is_due now id (row ∷ rows) =
    (text_eq id row.id && should_run now row.last_run_at row.schedule_seconds) || is_due now id rows

-- A tick runs only workflows that are due.
pub tick-is_due :
    (now interval : ℕ) (rows : List Row) (limiter : Limiter) (id : Text)
    → text_in id (tick now interval rows limiter).0 ≡ true
    → is_due now id rows ≡ true
unfolding tick text_in
tick-is_due now interval [] limiter id h = absurd (ground (arith, h))
tick-is_due now interval (row ∷ rows) limiter id h = ground (
  arith,
  h,
  tick-is_due now interval rows limiter id,
  tick-is_due now interval rows (check_workflow_rate_limit limiter row.asked_at row.id interval).2
      id,
)
