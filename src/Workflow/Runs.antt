-- ===== src/Workflow/Runs.antt =====
-- `record_workflow_run`, `check_workflow_run_tasks`, `finalize_workflow_run` and the loop of
-- `_finalize_workflow_run`, over the tables `tasks` and `workflow_runs`.
pub mod Verdict
pub mod Finalize
use secu_scan.Prelude.{
  ℕ, zero, suc, ◌+◌, Bool, true, false, Option, none, some, List, [], ◌∷◌, if◌then◌else◌, any, all,
  Text, codes, Dict, lookup, or_default, insert,
}

-- `TaskStatus`, which are also the statuses of a run
pub data Status : Type 0 where
  queued running completed failed cancelled : Status

-- A row of `workflow_runs`; `none` stands for `task_ids_json` that cannot be read.
pub record Run : Type 0 where
  pub workflow_id : Text
  pub version_number : Option ℕ
  pub triggered_by : Text
  pub status : Status
  pub task_ids : Option (List Text)
  pub is_complete : Bool
  pub error_message : Option Text

-- The status of each task, and the rows of the runs.
pub record Tables : Type 0 where
  pub tasks : Dict Status
  pub runs : Dict Run

-- `record_workflow_run`, under a fresh `run_id`
unfoldable pub record_workflow_run : Text → Text → Option ℕ → List Text → Text → Tables → Tables
record_workflow_run run_id workflow_id version_number task_ids triggered_by t = record t {
  runs =
      insert run_id
        (record {
          workflow_id = workflow_id;
          version_number = version_number;
          triggered_by = triggered_by;
          status = queued;
          task_ids = some task_ids;
          is_complete = false;
          error_message = none;
        })
        t.runs;
}

-- The loop over the tasks of the run: a task that has no row is passed over.
unfoldable pub statuses_of : List Text → Dict Status → List Status
statuses_of [] tasks = []
statuses_of (tid ∷ rest) tasks =
    let more = statuses_of rest tasks in elim (lookup tid tasks) [ none ↦ more | some s ↦ s ∷ more ]

abbrev pub in_progress : Status → Bool
in_progress queued = true
in_progress running = true
in_progress completed = false
in_progress failed = false
in_progress cancelled = false

abbrev pub is_completed : Status → Bool
is_completed completed = true
is_completed queued = false
is_completed running = false
is_completed failed = false
is_completed cancelled = false

abbrev pub is_cancelled : Status → Bool
is_cancelled cancelled = true
is_cancelled queued = false
is_cancelled running = false
is_cancelled failed = false
is_cancelled completed = false

-- What the statuses come to.
unfoldable pub terminal_status : List Status → Option Status
terminal_status [] = none
terminal_status (s ∷ ss) =
    if any in_progress (s ∷ ss)
    then none
    else if all is_completed (s ∷ ss)
    then some completed
    else if any is_cancelled (s ∷ ss)
    then some cancelled
    else some failed

-- `if not task_ids`
unfoldable pub status_of_tasks : List Text → Dict Status → Option Status
status_of_tasks [] tasks = some completed
status_of_tasks (tid ∷ rest) tasks = terminal_status (statuses_of (tid ∷ rest) tasks)

-- `check_workflow_run_tasks`
unfoldable pub check_workflow_run_tasks : Text → Tables → Option Status
check_workflow_run_tasks run_id t = elim (lookup run_id t.runs) [
  | none ↦ none
  | some run ↦ status_of_tasks (or_default [] run.task_ids) t.tasks
]

-- `finalize_workflow_run`: the `UPDATE` of the row, if there is one
unfoldable pub finalize_workflow_run : Text → Status → Option Text → Tables → Tables
finalize_workflow_run run_id status error_message t = elim (lookup run_id t.runs) [
  | none ↦ t
  | some run ↦ record t {
    runs =
        insert run_id
          (record run { status = status; is_complete = true; error_message = error_message })
          t.runs;
  }
]

abbrev pub timed_out : Text
timed_out = codes "Run finalization timed out — check individual task statuses"

-- `_finalize_workflow_run` with `polls` polls left. `read i` is what the tables hold at poll `i`, and
-- `none` an exception in that poll; at the end, the tables are those after the last poll.
unfoldable pub finalize : (ℕ → Option Tables) → Text → ℕ → ℕ → Option Tables
finalize read run_id i zero = elim (read i) [
  | none ↦ none
  | some t ↦ some (finalize_workflow_run run_id failed (some timed_out) t)
]
finalize read run_id i (suc polls) =
    let later = finalize read run_id (i + 1) polls in
    elim (read i) [
      | none ↦ none
      | some t ↦ elim (check_workflow_run_tasks run_id t) [
        | none ↦ later
        | some status ↦ some (finalize_workflow_run run_id status none t)
      ]
    ]
