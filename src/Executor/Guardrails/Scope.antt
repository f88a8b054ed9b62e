-- ===== src/Executor/Guardrails/Scope.antt =====
-- The guardrails of a task with the validation of targets in its place.
use secu_scan.Prelude.{ℕ, ◌≡◌, refl, ap, Bool, true, false, Option, some, [], arith, Text, text_eq}
use secu_scan.NetworkPolicy.Engine.{Engine}
use secu_scan.Executor.Guardrails.{Settings, World, passed, reads_code, enforce_guardrails}
use secu_scan.Executor.Guardrails.Target.{is_passed}
use secu_scan.Validation.Dns.{DnsCache}
use secu_scan.Validation.Target.{
  Outside, TargetCheck, checked, value_error, too_deep, valid, invalid, validate_target,
}
use secu_scan.Validation.Target.Accepted.{
  IsLawful, IsSafeDestination, destination, validate_target-IsSafe,
}
use secu_scan.Validation.Egress.{is_filesystem_target}

-- What `_enforce_guardrails` reads of the answer of `validate_target`: an exception, which
-- leaves the method, counts as a refusal here.
abbrev pub verdict : TargetCheck → Bool
verdict (checked valid dns) = true
verdict (checked (invalid reason) dns) = false
verdict value_error = false
verdict too_deep = false

-- A task in safe mode, of a plugin that is no code plugin, with a target that is not empty and no path of
-- the file system: if it passes the guardrails, its target is a safe destination, be the network policy
-- enforced or not.
pub guardrails-IsSafe :
    (c : Settings) (w : World) (o : Outside) (dns : DnsCache) (now : ℕ)
    (target plugin_id task_id : Text)
    → (e : Engine) (address : Option Text) → IsLawful o.library
    → w.validate_target target true ≡ some (verdict (validate_target o target true dns))
    → w.is_filesystem_target target ≡ is_filesystem_target target
    → is_filesystem_target target ≡ false
    → text_eq target [] ≡ false
    → reads_code (w.category plugin_id) ≡ false
    → (enforce_guardrails c w now target plugin_id true task_id e).0 ≡ passed address
    → IsSafeDestination o dns (destination o.library.environment target)
unfolding enforce_guardrails
guardrails-IsSafe c w o dns now target plugin_id task_id e address law links files no_path there
      no_code h =
    split (validate_target o target true dns) refl
  where
    split :
        (r : TargetCheck)
        → validate_target o target true dns ≡ r
        → IsSafeDestination o dns (destination o.library.environment target)
    split (checked valid dns') q = validate_target-IsSafe o target dns dns' law q
    split (checked (invalid reason) dns') q =
        absurd
          (ground (arith, ap is_passed h, links, q, ap verdict q, files, no_path, there, no_code))
    split value_error q =
        absurd
          (ground (arith, ap is_passed h, links, q, ap verdict q, files, no_path, there, no_code))
    split too_deep q =
        absurd
          (ground (arith, ap is_passed h, links, q, ap verdict q, files, no_path, there, no_code))
