-- ===== src/Workflow/Steps.antt =====
-- `_run_workflow`: the guards that a step of a workflow passes before it becomes a task. What loads
-- plugins and policies and what validates a target is a parameter, `World`.
pub mod Guards
pub mod Slots
use secu_scan.Prelude.{
  ℕ, ◌+◌, Bool, false, not, ◌&&◌, ◌||◌, Option, none, some, List, [], ◌∷◌, ◌++◌, if◌then◌else◌,
  Text, codes, text_eq, Dict, or_default, insert,
}
use secu_scan.Ratelimit.Hourly.{RateLimiter, can_execute}
use secu_scan.Ratelimit.Concurrent as Concurrent
use secu_scan.Ratelimit.Identity.{truthy}
use secu_scan.NetworkPolicy.Host.{Environment, Resolver}
use secu_scan.NetworkPolicy.Engine.{Engine, check_access}
use secu_scan.Workflow.Runs.{Status, queued, failed}

-- `settings`
pub record Settings : Type 0 where
  pub safe_mode_default : Bool
  pub enforce_network_policy : Bool
  pub max_tasks_per_hour : ℕ

pub record Plugin : Type 0 where
  pub level : Text
  pub category : Text
  pub max_per_hour : Option ℕ

pub record TargetPolicy : Type 0 where
  pub allow_public_targets : Bool
  pub allow_exploit_validation : Bool

-- A step, with its execution context normalised, the instant at which it is run and the id that its
-- task gets if it becomes one.
pub record Step : Type 0 where
  pub plugin_id : Option Text
  pub target : Option Text
  pub validation_mode : Text
  pub target_policy_id : Option Text
  pub now : ℕ
  pub task_id : Text

-- `validate_target(target, safe_mode)` answers `none` where it is not done in time; `resolver` is
-- `none` where the network policy is not.
pub record World : Type 0 where
  pub get_plugin : Text → Option Plugin
  pub get_target_policy : Option Text → Option TargetPolicy
  pub validate_target : Text → Bool → Option Bool
  pub environment : Environment
  pub resolver : Option Resolver

-- The limiters, the network policy and the table of tasks.
pub record State : Type 0 where
  pub rate_limiter : RateLimiter
  pub concurrent_limiter : Concurrent.Limiter
  pub engine : Engine
  pub tasks : Dict Status

-- Whether to go on with a step.
pub data Gate : Type 0 where
  go stop raise : Gate

-- How a step ends: it becomes a task, it is skipped, or an exception ends the run.
pub data Outcome : Type 0 where
  created skipped raised : Outcome

unfoldable pub safe_mode : Settings → Option TargetPolicy → Bool
safe_mode c none = c.safe_mode_default
safe_mode c (some p) = c.safe_mode_default && not p.allow_public_targets

unfoldable pub allows_exploit : Option TargetPolicy → Bool
allows_exploit none = false
allows_exploit (some p) = p.allow_exploit_validation

unfoldable pub requires_exploit_policy : Plugin → Step → Bool
requires_exploit_policy plugin step =
    text_eq plugin.level (codes "exploit")
    || text_eq step.validation_mode (codes "controlled_extract")

-- The network policy's word on a target.
unfoldable pub check_network : Settings → World → Text → Step → Text → Engine → Gate × Engine
check_network c w plugin_id step target e =
    if c.enforce_network_policy
    then elim w.resolver [
      | none ↦ (raise, e)
      | some resolve ↦
          let (answer, e') =
            check_access w.environment resolve step.now
              (record {
                dest_ip = target;
                dest_port = 0;
                plugin_id = plugin_id;
                task_id = [];
                dest_hostname = none;
              })
              e in
          ((if answer.allowed then go else stop), e')
    ]
    else (go, e)

-- The checks of the target, where there is one and the plugin does not read code.
unfoldable pub check_target :
    Settings → World → Text → Plugin → Bool → Step → Engine → Gate × Engine
check_target c w plugin_id plugin safe step e = elim (truthy step.target) [
  | none ↦ (go, e)
  | some target ↦
      if text_eq plugin.category (codes "code")
      then (go, e)
      else elim (w.validate_target target safe) [
        | none ↦ (stop, e)
        | some valid ↦ if valid then check_network c w plugin_id step target e else (stop, e)
      ]
]

-- The rate limit, the creation of the task, and the slot that it needs.
unfoldable pub launch : Settings → Text → Text → Plugin → Step → State → Outcome × State
launch c owner_id plugin_id plugin step s =
    let (answer, limiter) = can_execute s.rate_limiter (record {
      now = step.now;
      plugin_id = plugin_id;
      max_per_hour = or_default c.max_tasks_per_hour plugin.max_per_hour;
      client_id = codes "user:" ++ owner_id;
    }) in
    if answer.allowed
    then (let (ok, message, slots) = Concurrent.acquire s.concurrent_limiter step.task_id in
        if ok
        then (
          created,
          record s {
            rate_limiter = limiter;
            concurrent_limiter = slots;
            tasks = insert step.task_id queued s.tasks;
          },
        )
        else (
          skipped,
          record s {
            rate_limiter = limiter;
            concurrent_limiter = slots;
            tasks = insert step.task_id failed s.tasks;
          },
        ))
    else (skipped, record s { rate_limiter = limiter })

-- A step of a plugin that is there.
unfoldable pub run_plugin : Settings → World → Text → Text → Plugin → Step → State → Outcome × State
run_plugin c w owner_id plugin_id plugin step s =
    let policy = w.get_target_policy step.target_policy_id in
    if requires_exploit_policy plugin step && not (allows_exploit policy)
    then (skipped, s)
    else let (gate, e) = check_target c w plugin_id plugin (safe_mode c policy) step s.engine in
      elim gate [
        | go ↦ launch c owner_id plugin_id plugin step (record s { engine = e })
        | stop ↦ (skipped, record s { engine = e })
        | raise ↦ (raised, record s { engine = e })
      ]

-- One turn of the loop over the steps
unfoldable pub run_step : Settings → World → Text → Step → State → Outcome × State
run_step c w owner_id step s = elim (truthy step.plugin_id) [
  | none ↦ (skipped, s)
  | some plugin_id ↦ elim (w.get_plugin plugin_id) [
    | none ↦ (skipped, s)
    | some plugin ↦ run_plugin c w owner_id plugin_id plugin step s
  ]
]

-- The loop: the ids of the tasks created, `none` where it ends in an exception, and the state. The loop awaits
-- at every step and starts each task that it has created: `meanwhile` is what the tasks that run, these
-- and others, have made of the shared state before turn `i`.
unfoldable pub run_steps :
    Settings
    → World
    → (ℕ → State → State)
    → Text
    → ℕ
    → List Step
    → List Text
    → State
    → Option (List Text) × State
run_steps c w meanwhile owner_id i [] ids s = (some ids, meanwhile i s)
run_steps c w meanwhile owner_id i (step ∷ rest) ids s =
    let (outcome, s') = run_step c w owner_id step (meanwhile i s) in
    let longer = run_steps c w meanwhile owner_id (i + 1) rest (ids ++ step.task_id ∷ []) s' in
    let same = run_steps c w meanwhile owner_id (i + 1) rest ids s' in
    elim outcome [ created ↦ longer | skipped ↦ same | raised ↦ (none, s') ]
