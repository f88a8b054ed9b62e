-- ===== src/Executor/Lifecycle.antt =====
-- The life of a task: the writes of `create_task`, `execute_task`, `cancel_task`, `mark_task_failed` and of the
-- route `retry_task` to its row, in every order in which the awaits let them happen. Deletion of rows is
-- left out, and a write to the database succeeds.
pub mod Rows
pub mod Once
pub mod Over
use secu_scan.Prelude.{
  ℕ, ◌≡◌, Bool, true, false, not, Option, none, some, List, [], ◌∷◌, ◌++◌, if◌then◌else◌, filter,
  Text, text_eq, text_in, Dict, lookup, is_some, insert,
}
use secu_scan.Workflow.Runs.{Status, queued, running, completed, failed, cancelled}
use secu_scan.Ratelimit.Concurrent as Concurrent

-- The status of each task, the slots, and lists of task ids, one entry for each call or write: the times that a
-- task was put in the queue, by its creation or a retry; the calls of `execute_task` that have not yet tried
-- to claim their task; the claims; the calls that have not ended since; and the calls of `cancel_task` that have
-- found their task. `running_tasks` holds each id once.
pub record State : Type 0 where
  pub tasks : Dict Status
  pub slots : Concurrent.Limiter
  pub queuings : List Text
  pub entered : List Text
  pub claims : List Text
  pub active : List Text
  pub running_tasks : List Text
  pub cancelling : List Text

abbrev pub start : ℕ → State
start n = record {
  tasks = [];
  slots = Concurrent.init n;
  queuings = [];
  entered = [];
  claims = [];
  active = [];
  running_tasks = [];
  cancelling = [];
}

-- `UPDATE tasks SET status = … WHERE id = ?`
unfoldable pub set_status : Text → Status → Dict Status → Dict Status
set_status id status tasks = if is_some (lookup id tasks) then insert id status tasks else tasks

abbrev pub same_status : Status → Option Status → Bool
same_status queued (some queued) = true
same_status running (some running) = true
same_status s o = false

-- `UPDATE tasks SET status = … WHERE id = ? AND status = ?`
unfoldable pub set_status_from : Text → Status → Status → Dict Status → Dict Status
set_status_from id old status tasks =
    if same_status old (lookup id tasks) then insert id status tasks else tasks

abbrev pub without : Text → List Text → List Text
without id = filter (λ x. not (text_eq id x))

-- One entry less, as one call ends
unfoldable pub drop_one : Text → List Text → List Text
drop_one id [] = []
drop_one id (x ∷ xs) = let rest = drop_one id xs in if text_eq id x then xs else x ∷ rest

-- `create_task`, under a fresh id
unfoldable pub create_task : Text → State → State
create_task id s = record s { tasks = insert id queued s.tasks; queuings = s.queuings ++ id ∷ [] }

-- The test of the UPDATE of `retry_task`
abbrev pub can_retry : Option Status → Bool
can_retry none = false
can_retry (some queued) = false
can_retry (some running) = false
can_retry (some completed) = false
can_retry (some failed) = true
can_retry (some cancelled) = true

-- The UPDATE of `retry_task`, which a status other than `failed` and `cancelled` makes void
unfoldable pub retry_task : Text → State → State
retry_task id s =
    if can_retry (lookup id s.tasks)
    then record s { tasks = insert id queued s.tasks; queuings = s.queuings ++ id ∷ [] }
    else s

-- The first line of `execute_task`
unfoldable pub enter : Text → State → State
enter id s = record s { entered = id ∷ s.entered; running_tasks = id ∷ without id s.running_tasks }

-- The `finally` of an execution
unfoldable pub leave : Text → State → State
leave id s = record s {
  slots = Concurrent.release s.slots id;
  running_tasks = without id s.running_tasks;
}

-- The first UPDATE of `execute_task`: a call whose task is not queued leaves at once.
unfoldable pub claim : Text → State → State
unfolding drop_one leave
claim id s =
    if same_status queued (lookup id s.tasks)
    then record s {
      tasks = set_status_from id queued running s.tasks;
      entered = drop_one id s.entered;
      claims = s.claims ++ id ∷ [];
      active = id ∷ s.active;
    }
    else record (leave id s) { entered = drop_one id s.entered }

-- A call that is cancelled before its first UPDATE goes on in the handler.
unfoldable pub interrupt : Text → State → State
unfolding drop_one
interrupt id s = record s { entered = drop_one id s.entered; active = id ∷ s.active }

-- The write of the final status, by the scanner or by the handler of an exception
unfoldable pub settle : Text → Status → State → State
settle id status s = record s { tasks = set_status id status s.tasks }

-- `mark_task_failed`
unfoldable pub mark_task_failed : Text → State → State
mark_task_failed id s = record s { tasks = set_status id failed s.tasks }

-- `cancel_task` up to its write, where the task is in `running_tasks`
unfoldable pub ask_to_cancel : Text → State → State
ask_to_cancel id s =
    if text_in id s.running_tasks then record s { cancelling = id ∷ s.cancelling } else s

-- The write of `cancel_task`
unfoldable pub cancel_task : Text → State → State
unfolding drop_one
cancel_task id s = record s {
  tasks = set_status_from id running cancelled s.tasks;
  cancelling = drop_one id s.cancelling;
}

-- The handler of `CancelledError` in `execute_task`
unfoldable pub unwind : Text → State → State
unwind id s = record s { tasks = set_status_from id running cancelled s.tasks }

-- One write, of any task. A call of `execute_task` can leave without a final write: when it is cancelled in a
-- handler. More than one call can be active for one task: when it is retried while a cancelled call unwinds.
pub data Step : State → State → Type 0 where
  creates : (s : State) (id : Text) → lookup id s.tasks ≡ none → Step s (create_task id s)
  retries : (s : State) (id : Text) → Step s (retry_task id s)
  acquires :
      (s : State) (id : Text) → Step s (record s { slots = (Concurrent.acquire s.slots id).2 })
  enters : (s : State) (id : Text) → Step s (enter id s)
  claims : (s : State) (id : Text) → text_in id s.entered ≡ true → Step s (claim id s)
  interrupts : (s : State) (id : Text) → text_in id s.entered ≡ true → Step s (interrupt id s)
  completes : (s : State) (id : Text) → text_in id s.active ≡ true → Step s (settle id completed s)
  fails : (s : State) (id : Text) → text_in id s.active ≡ true → Step s (settle id failed s)
  rejects : (s : State) (id : Text) → Step s (mark_task_failed id s)
  asks : (s : State) (id : Text) → Step s (ask_to_cancel id s)
  cancels : (s : State) (id : Text) → text_in id s.cancelling ≡ true → Step s (cancel_task id s)
  unwinds : (s : State) (id : Text) → text_in id s.active ≡ true → Step s (unwind id s)
  leaves :
      (s : State) (id : Text)
      → text_in id s.active ≡ true
      → Step s (record (leave id s) { active = drop_one id s.active })

pub data Reach (s : State) : State → Type 0 where
  here : Reach s s
  next : {t u : State} → Reach s t → Step t u → Reach s u
