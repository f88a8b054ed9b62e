-- ===== src/Executor/Guardrails/Target.antt =====
-- What the scanner of a task connects to.
use secu_scan.Prelude.{
  ℕ, ◌≡◌, refl, sym, ap, ◌∙◌, Bool, true, false, Option, none, some, [], arith, Text, text_eq,
  has_char, or_default,
}
use secu_scan.NetworkPolicy.Pin.{Pinned, pinned, resolve_and_pin, unresolvable, value_error}
use secu_scan.NetworkPolicy.Host.{Address}
use secu_scan.NetworkPolicy.Engine.{Engine}
use secu_scan.NetworkPolicy.Decision.{permitted}
use secu_scan.NetworkPolicy.Pinning.{IsLawful, resolve_and_pin-Sound}
use secu_scan.Executor.Guardrails.{
  Settings, World, Guard, passed, rejected, raised, denied, of_pinned, check_network,
  enforce_guardrails,
}

abbrev pub is_passed : Guard → Bool
is_passed (passed address) = true
is_passed rejected = false
is_passed raised = false

abbrev pinned_by : Guard → Option Text
pinned_by (passed address) = address
pinned_by rejected = none
pinned_by raised = none

-- The guard is the answer of a `resolve_and_pin` that allows the address.
abbrev IsAllowed : Settings → World → ℕ → Text → Text → Text → Engine → Option Text → Type 0
IsAllowed c w now target plugin_id task_id e o =
    (address : Text) × (e' : Engine) × (o ≡ some address)
    × (resolve_and_pin w.environment w.at_pin w.at_check now target plugin_id task_id e
        ≡ pinned address true e')

of_pinned-passed :
    (c : Settings) (p : Pinned) (e : Engine) (o : Option Text)
    → c.is_log_only ≡ false
    → (of_pinned c p e).0 ≡ passed o
    → (address : Text) × (e' : Engine) × (o ≡ some address) × (p ≡ pinned address true e')
unfolding of_pinned denied
of_pinned-passed c (pinned a true e') e o strict h = (a, e', sym (ap pinned_by h), refl)
of_pinned-passed c (pinned a false e') e o strict h =
    absurd (ground (arith, strict, ap is_passed h))
of_pinned-passed c (unresolvable e') e o strict h = absurd (ground (arith, strict, ap is_passed h))
of_pinned-passed c value_error e o strict h = absurd (ground (arith, ap is_passed h))

module _ (c : Settings) (w : World) (now : ℕ) (target plugin_id task_id : Text) (e : Engine)
    (o : Option Text) (on : c.enforce_network_policy ≡ true) (strict : c.is_log_only ≡ false) where
  check_network-passed :
      (check_network c w now target plugin_id task_id e).0 ≡ passed o
      → IsAllowed c w now target plugin_id task_id e o
  unfolding check_network denied
  check_network-passed h = split w.in_time refl
    where
      same :
          w.in_time ≡ true
          → check_network c w now target plugin_id task_id e
            ≡ of_pinned c
                (resolve_and_pin w.environment w.at_pin w.at_check now target plugin_id task_id e)
                e
      same q = rw (check_network, on, q) refl

      split : (b : Bool) → w.in_time ≡ b → IsAllowed c w now target plugin_id task_id e o
      split true q =
          of_pinned-passed c
            (resolve_and_pin w.environment w.at_pin w.at_check now target plugin_id task_id e) e o
            strict (sym (ap {A = Guard × Engine} (λ x. x.0) (same q)) ∙ h)
      split false q = absurd (ground (arith, ap is_passed h, on, strict, q))

  enforce_guardrails-passed :
      (safe_mode : Bool)
      → text_eq target [] ≡ false
      → (enforce_guardrails c w now target plugin_id safe_mode task_id e).0 ≡ passed o
      → IsAllowed c w now target plugin_id task_id e o
  unfolding enforce_guardrails
  enforce_guardrails-passed safe there h =
      check_network-passed (reaches (w.validate_target target safe) refl)
    where
      reaches :
          (v : Option Bool)
          → w.validate_target target safe ≡ v
          → (check_network c w now target plugin_id task_id e).0 ≡ passed o
      reaches v q = ground (arith, h, ap is_passed h, there, q)

-- Under a policy that is enforced, and not only logged, a task with a target that passes the guardrails
-- has a pinned address, and the rules permit that address, whatever the DNS answers between. The pinned
-- address carries no zone.
pub guardrails_permitted :
    (c : Settings) (w : World) (now : ℕ) (target plugin_id task_id : Text) (e : Engine)
    → (o : Option Text) (safe_mode : Bool) → IsLawful w.environment
    → c.enforce_network_policy ≡ true
    → c.is_log_only ≡ false
    → text_eq target [] ≡ false
    → (enforce_guardrails c w now target plugin_id safe_mode task_id e).0 ≡ passed o
    → has_char b'%' (or_default [] o) ≡ false
    → (address : Text) × (ip : Address) × (o ≡ some address)
      × (w.environment.ip_address address ≡ some ip)
      × (permitted now ip e ≡ true)
guardrails_permitted c w now target plugin_id task_id e o safe law on strict there h plain =
    let (address, e', is, answer) =
      enforce_guardrails-passed c w now target plugin_id task_id e o on strict safe there h in
    let (ip, read, verdict) =
      resolve_and_pin-Sound w.environment law w.at_pin w.at_check now target plugin_id task_id
        address true e e' answer (sym (ap (λ o. has_char b'%' (or_default [] o)) is) ∙ plain) in
    (address, ip, is, read, sym verdict)
