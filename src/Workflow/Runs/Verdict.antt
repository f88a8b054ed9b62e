-- ===== src/Workflow/Runs/Verdict.antt =====
-- What `check_workflow_run_tasks` answers about a run.
use secu_scan.Prelude.{
  Bool, true, false, not, ◌||◌, Option, none, some, List, [], ◌∷◌, if◌then◌else◌, any, Text, Dict,
  lookup,
}
use secu_scan.Workflow.Runs.{
  Status, queued, running, completed, failed, cancelled, in_progress, is_cancelled,
}

-- Some task of the run has a row with a status that `p` holds of.
abbrev pub some_task : (Status → Bool) → List Text → Dict Status → Bool
some_task p [] tasks = false
some_task p (tid ∷ rest) tasks =
    elim (lookup tid tasks) [ none ↦ false | some s ↦ p s ] || some_task p rest tasks

abbrev pub anything : Status → Bool
anything s = true

abbrev pub is_failed : Status → Bool
is_failed failed = true
is_failed queued = false
is_failed running = false
is_failed completed = false
is_failed cancelled = false

-- The verdict in terms of the tasks: a run with no task is completed; a run none of whose tasks has a
-- row, or with a task in progress, has no verdict; else one cancelled task makes it cancelled, and if
-- there is none, one failed task makes it failed; otherwise it is completed.
abbrev pub verdict : List Text → Dict Status → Option Status
verdict [] tasks = some completed
verdict (tid ∷ rest) tasks =
    let ids = tid ∷ rest in
    if not (some_task anything ids tasks) || some_task in_progress ids tasks
    then none
    else if some_task is_cancelled ids tasks
    then some cancelled
    else if some_task is_failed ids tasks
    then some failed
    else some completed

-- The verdict on a list of statuses.
abbrev verdict_of : List Status → Option Status
verdict_of ss =
    if not (any anything ss) || any in_progress ss
    then none
    else if any is_cancelled ss
    then some cancelled
    else if any is_failed ss
    then some failed
    else some completed
