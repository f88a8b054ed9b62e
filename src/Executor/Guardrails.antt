-- ===== src/Executor/Guardrails.antt =====
-- `_enforce_guardrails`: what a task passes between its start and its scanner.
pub mod Target
pub mod Scope
use secu_scan.Prelude.{
  ℕ, Bool, false, not, ◌&&◌, Option, none, some, [], if◌then◌else◌, Text, codes, text_eq,
}
use secu_scan.NetworkPolicy.Pin.{Pinned, pinned, resolve_and_pin, unresolvable, value_error}
use secu_scan.NetworkPolicy.Host.{Environment, Resolver}
use secu_scan.NetworkPolicy.Engine.{Engine}

pub record Settings : Type 0 where
  pub enforce_network_policy : Bool
  pub is_log_only : Bool

-- What lies outside: the category of the plugin, if it is there, `is_filesystem_target`, and
-- `validate_target(target, safe_mode)`, `none` where it is not done in time. The resolver answers twice,
-- when the host is pinned and when it is checked; `in_time` says whether both are done
-- in time; a check that is not leaves no entry in the trail here.
pub record World : Type 0 where
  pub category : Text → Option Text
  pub is_filesystem_target : Text → Bool
  pub validate_target : Text → Bool → Option Bool
  pub environment : Environment
  pub at_pin : Resolver
  pub at_check : Resolver
  pub in_time : Bool

-- The task goes on, with the pinned address if there is one; or it is marked as failed; or an
-- exception leaves the method.
pub data Guard : Type 0 where
  passed : Option Text → Guard
  rejected : Guard
  raised : Guard

abbrev pub reads_code : Option Text → Bool
reads_code none = false
reads_code (some category) = text_eq category (codes "code")

-- `not allowed`: let through with a warning, or rejected
unfoldable pub denied : Settings → Option Text → Guard
denied c address = if c.is_log_only then passed address else rejected

unfoldable pub of_pinned : Settings → Pinned → Engine → Guard × Engine
of_pinned c (pinned address allowed e') e =
    ((if allowed then passed (some address) else denied c (some address)), e')
of_pinned c (unresolvable e') e = (denied c none, e')
of_pinned c value_error e = (raised, e)

unfoldable pub check_network : Settings → World → ℕ → Text → Text → Text → Engine → Guard × Engine
check_network c w now target plugin_id task_id e =
    if c.enforce_network_policy
    then if w.in_time
      then of_pinned c
          (resolve_and_pin w.environment w.at_pin w.at_check now target plugin_id task_id e) e
      else (denied c none, e)
    else (passed none, e)

unfoldable pub enforce_guardrails :
    Settings → World → ℕ → Text → Text → Bool → Text → Engine → Guard × Engine
enforce_guardrails c w now target plugin_id safe_mode task_id e =
    if text_eq target []
    then (passed none, e)
    else if not (reads_code (w.category plugin_id)) && not (w.is_filesystem_target target)
    then elim (w.validate_target target safe_mode) [
      | none ↦ (rejected, e)
      | some valid ↦
          if valid then check_network c w now target plugin_id task_id e else (rejected, e)
    ]
    else check_network c w now target plugin_id task_id e
