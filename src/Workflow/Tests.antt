-- ===== src/Workflow/Tests.antt =====
-- The theorems of the workflows at concrete inputs.
use secu_scan.Prelude.{
  ℕ, zero, suc, ◌≡◌, refl, true, false, not, ◌||◌, Option, none, some, List, [], ◌∷◌, arith, Text,
  codes, text_eq, lookup,
}
use secu_scan.Ratelimit.Concurrent as Concurrent
use secu_scan.Ratelimit.Hourly.{can_execute, history}
use secu_scan.Ratelimit.Identity.{truthy}
use secu_scan.NetworkPolicy.Engine.{init}
use secu_scan.Workflow.Runs.{
  Status, queued, running, completed, failed, Run, Tables, check_workflow_run_tasks, finalize,
  timed_out, status_of_tasks, terminal_status, statuses_of,
}
use secu_scan.Workflow.Runs.Finalize.{ended, finalize_settled, finalize-timed_out}
use secu_scan.Workflow.Versions.{Definition}
use secu_scan.Workflow.Scheduler.{Row}
use secu_scan.Workflow.Steps.{
  Settings, Plugin, Step, World, State, run_step, safe_mode, allows_exploit,
  requires_exploit_policy, run_plugin, check_target, launch,
}
use secu_scan.Workflow.Steps.Guards.{run_step-guards, target_ok}

abbrev nightly : Run
nightly = record {
  workflow_id = codes "nightly";
  version_number = some 1;
  triggered_by = codes "scheduler";
  status = queued;
  task_ids = some (codes "t1" ∷ []);
  is_complete = false;
  error_message = none;
}

abbrev with_task : Status → Tables
with_task status = record { tasks = (codes "t1", status) ∷ []; runs = (codes "r1", nightly) ∷ [] }

-- The task runs at the first poll, and is done at the second.
abbrev polls : ℕ → Option Tables
polls zero = some (with_task running)
polls (suc i) = some (with_task completed)

finalize_settled_example :
    (t' : Tables) × (finalize polls (codes "r1") 0 720 ≡ some t')
    × (ended (lookup (codes "r1") t'.runs) ≡ some (completed, none))
unfolding check_workflow_run_tasks status_of_tasks terminal_status statuses_of lookup text_eq
finalize_settled_example =
    finalize_settled polls (codes "r1") completed (with_task completed) 1 720
      ((with_task running, refl, refl), tt) refl refl (omega arith)

abbrev stuck : ℕ → Option Tables
stuck i = some (with_task running)

finalize-timed_out_example :
    (t' : Tables) × (finalize stuck (codes "r1") 0 1 ≡ some t')
    × (ended (lookup (codes "r1") t'.runs) ≡ some (failed, some timed_out))
unfolding check_workflow_run_tasks status_of_tasks terminal_status statuses_of lookup text_eq
finalize-timed_out_example =
    finalize-timed_out stuck (codes "r1") (with_task running) 1
      ((with_task running, refl, refl), tt) refl refl

abbrev down : ℕ → Option Tables
down i = none

abbrev definition : Definition
definition = record {
  name = codes "nightly";
  schedule_seconds = some 3600;
  schedule_timezone = none;
  enabled = true;
  steps = codes "[]";
}

abbrev calls : List (Text × Definition × Text)
calls =
    (codes "a", definition, codes "system")
    ∷ (codes "b", definition, codes "system")
    ∷ (codes "a", definition, codes "system")
    ∷ []

abbrev due : Row
due = record { id = codes "a"; last_run_at = none; schedule_seconds = 60; asked_at = 5 }

abbrev settings : Settings
settings = record {
  safe_mode_default = true;
  enforce_network_policy = true;
  max_tasks_per_hour = 50;
}

abbrev whois : Plugin
whois = record { level = codes "safe"; category = codes "recon"; max_per_hour = none }

abbrev world : World
world = record {
  get_plugin = λ p. some whois;
  get_target_policy = λ p. none;
  validate_target = λ t safe. some true;
  environment = record {
    ip_address = λ t. none;
    str_address = λ ip. [];
    ip_network = λ t. none;
    urlparse = λ t. none;
  };
  resolver = some (λ t. none);
}

abbrev no_target : Step
no_target = record {
  plugin_id = some (codes "whois");
  target = none;
  validation_mode = codes "proof";
  target_policy_id = none;
  now = 5;
  task_id = codes "t1";
}

abbrev idle : State
idle = record {
  rate_limiter = record { task_history = [] };
  concurrent_limiter = Concurrent.init 1;
  engine = init 10;
  tasks = [];
}

run_step-guards_example :
    let policy = world.get_target_policy no_target.target_policy_id in
    (plugin_id : Text) × (plugin : Plugin) × (truthy no_target.plugin_id ≡ some plugin_id)
    × (world.get_plugin plugin_id ≡ some plugin)
    × ((not (requires_exploit_policy plugin no_target) || allows_exploit policy) ≡ true)
    × (target_ok settings world plugin (safe_mode settings policy) no_target idle.engine ≡ true)
unfolding run_step truthy run_plugin requires_exploit_policy text_eq check_target launch can_execute
    history lookup Concurrent.acquire Concurrent.init
run_step-guards_example = run_step-guards settings world (codes "owner") no_target idle refl

-- While the loop awaits, the task `t1` ends.
abbrev ends : ℕ → State → State
ends i s = record s { concurrent_limiter = Concurrent.release s.concurrent_limiter (codes "t1") }
