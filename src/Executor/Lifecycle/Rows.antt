-- ===== src/Executor/Lifecycle/Rows.antt =====
-- The status of one task after a write to another's row, or its own.
use secu_scan.Prelude.{
  ◌≡◌, subst, inl, inr, Bool, true, false, ◌&&◌, ◌||◌, Option, none, some, arith, if◌then◌else◌,
  Bool-cases, Text, text_eq, text_eq_iff, Dict, lookup, is_some, lookup-insert,
}
use secu_scan.Workflow.Runs.{Status, queued, running, completed, failed, cancelled}
use secu_scan.Executor.Lifecycle.{set_status, set_status_from, same_status}

-- A task with a final status.
abbrev pub is_over : Option Status → Bool
is_over none = false
is_over (some queued) = false
is_over (some running) = false
is_over (some completed) = true
is_over (some failed) = true
is_over (some cancelled) = true

abbrev pub is_running : Option Status → Bool
is_running none = false
is_running (some queued) = false
is_running (some running) = true
is_running (some completed) = false
is_running (some failed) = false
is_running (some cancelled) = false

abbrev pub has_begun : Option Status → Bool
has_begun o = is_running o || is_over o

pub lookup-set_status :
    (j id : Text) (status : Status) (tasks : Dict Status)
    → lookup j (set_status id status tasks)
      ≡ (if text_eq j id && is_some (lookup id tasks) then some status else lookup j tasks)
unfolding set_status
lookup-set_status j id status tasks = ground (arith, lookup-insert j id status tasks)

pub lookup-set_status_from :
    (j id : Text) (old status : Status) (tasks : Dict Status)
    → lookup j (set_status_from id old status tasks)
      ≡ (if text_eq j id && same_status old (lookup id tasks) then some status else lookup j tasks)
unfolding set_status_from
lookup-set_status_from j id old status tasks = ground (arith, lookup-insert j id status tasks)

-- To prove something of the task `id` after a step of task `j`, it is enough to take `j` for `id`, and
-- to take it for another.
pub by_task : (P : Text → Type 0) (id j : Text) → (text_eq id j ≡ false → P j) → P id → P j
by_task P id j other own = elim (Bool-cases (text_eq id j)) [
  | inl same ↦ subst P ((text_eq_iff id j).0 same) own
  | inr ne ↦ other ne
]
