-- ===== src/NetworkPolicy/Defaults.antt =====
-- `_init_default_policies` and config.py's `MANDATORY_DENYLIST`.
pub mod Blocked
pub mod Mandatory
use secu_scan.Prelude.{ℕ, not, Option, none, some, List, [], ◌∷◌, Text, codes, or_default}
use secu_scan.NetworkPolicy.Host.{Environment, Resolver}
use secu_scan.NetworkPolicy.Engine.{
  Engine, Access, add_allow_rule, add_deny_rule, check_access, clear_audit_entries,
}

-- `MANDATORY_DENYLIST`
abbrev pub mandatory_denylist : List Text
mandatory_denylist =
    codes "169.254.169.254/32"
    ∷ codes "169.254.0.0/16"
    ∷ codes "127.0.0.0/8"
    ∷ codes "10.0.0.0/8"
    ∷ codes "172.16.0.0/12"
    ∷ codes "192.168.0.0/16"
    ∷ codes "100.64.0.0/10"
    ∷ codes "fc00::/7"
    ∷ codes "fe80::/10"
    ∷ codes "::1/128"
    ∷ []

-- The loops that add a list of rules and skip a text that is no network
unfoldable pub deny_all : Environment → ℕ → Text → List Text → Engine → Engine
deny_all env now reason [] e = e
deny_all env now reason (c ∷ cs) e =
    deny_all env now reason cs (or_default e (add_deny_rule env now c reason none e))

unfoldable pub allow_all : Environment → ℕ → Text → List Text → Engine → Engine
allow_all env now reason [] e = e
allow_all env now reason (c ∷ cs) e =
    allow_all env now reason cs (or_default e (add_allow_rule env now c reason none e))

-- The two implicit rules of an empty allowlist, which are not guarded.
unfoldable pub allow_public : Environment → ℕ → Engine → Option Engine
allow_public env now e =
    let why = codes "Default public egress (no explicit allowlist configured)" in
    elim (add_allow_rule env now (codes "0.0.0.0/0") why none e) [
      | none ↦ none
      | some e' ↦ add_allow_rule env now (codes "::/0") why none e'
    ]

-- `_init_default_policies`, the settings' denylist and allowlist as arguments
unfoldable pub init_default_policies :
    Environment → ℕ → List Text → List Text → Engine → Option Engine
init_default_policies env now denylist allowlist e =
    let guarded = deny_all env now (codes "Operator configured denylist") denylist (
      deny_all env now (codes "Mandatory denylist (not operator-configurable)") mandatory_denylist
        e) in
    let e' = allow_all env now (codes "Operator configured allowlist") allowlist guarded in
    elim allowlist [ [] ↦ allow_public env now e' | c ∷ cs ↦ some e' ]

-- What happens to an engine later: a rule is added (or refused), a connection is checked, the trail is
-- cleared.
pub data Operation : Type 0 where
  allowing denying : ℕ → Text → Text → Option ℕ → Operation
  checking : Resolver → ℕ → Access → Operation
  clearing : Operation

unfoldable pub perform : Environment → List Operation → Engine → Engine
perform env [] e = e
perform env (allowing now c why expires_at ∷ os) e =
    perform env os (or_default e (add_allow_rule env now c why expires_at e))
perform env (denying now c why expires_at ∷ os) e =
    perform env os (or_default e (add_deny_rule env now c why expires_at e))
perform env (checking resolve now a ∷ os) e = perform env os (check_access env resolve now a e).1
perform env (clearing ∷ os) e = perform env os (clear_audit_entries e)
