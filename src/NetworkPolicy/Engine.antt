-- ===== src/NetworkPolicy/Engine.antt =====
-- The engine: rules, decisions and the audit trail. A reason is represented by what it shows.
use secu_scan.Prelude.{
  ℕ, ◌-◌, Bool, true, false, not, ◌&&◌, Option, none, some, List, [], ◌∷◌, ◌++◌, ltb, ◌==◌,
  if◌then◌else◌, length, filter, drop, Text, codes, text_eq, is_some,
}
use secu_scan.NetworkPolicy.Host.{
  Address, Network, contains, Environment, Resolver, target_host, egress_host, literal, resolved,
  unresolved, locate,
}

pub data Action : Type 0 where
  allow deny : Action

-- `NetworkPolicy`
pub record Policy : Type 0 where
  pub cidr : Text
  pub action : Action
  pub reason : Text
  pub created_at : ℕ
  pub expires_at : Option ℕ

abbrev pub Rule : Type 0
Rule = Network × Policy

pub data Reason : Type 0 where
  invalid_address : Text → Reason
  blocked_by allowed_by : Policy → Reason
  denied_by_default : Reason

-- `AuditLogEntry`
pub record Entry : Type 0 where
  pub timestamp : ℕ
  pub plugin_id : Text
  pub task_id : Text
  pub action : Action
  pub dest_ip : Text
  pub dest_port : ℕ
  pub dest_hostname : Option Text
  pub policy_matched : Text
  pub reason : Reason

pub record Engine : Type 0 where
  pub allowlist : List Rule
  pub denylist : List Rule
  pub audit_entries : List Entry
  pub max_audit_entries : ℕ

-- `NetworkPolicyEngine(max_audit_entries=n)`
unfoldable pub init : ℕ → Engine
init n = record { allowlist = []; denylist = []; audit_entries = []; max_audit_entries = n }

unfoldable pub rule : Text → Action → Text → ℕ → Option ℕ → Network → Rule
rule cidr action reason now expires_at net = (
  net,
  record {
    cidr = cidr;
    action = action;
    reason = reason;
    created_at = now;
    expires_at = expires_at;
  },
)

-- `add_allow_rule` and `add_deny_rule`; `none` is the `ValueError` of a text that is no network.
unfoldable pub add_allow_rule : Environment → ℕ → Text → Text → Option ℕ → Engine → Option Engine
unfolding rule
add_allow_rule env now cidr reason expires_at e = elim (env.ip_network cidr) [
  | none ↦ none
  | some net ↦
      some (record e { allowlist = e.allowlist ++ rule cidr allow reason now expires_at net ∷ [] })
]

unfoldable pub add_deny_rule : Environment → ℕ → Text → Text → Option ℕ → Engine → Option Engine
unfolding rule
add_deny_rule env now cidr reason expires_at e = elim (env.ip_network cidr) [
  | none ↦ none
  | some net ↦
      some (record e { denylist = e.denylist ++ rule cidr deny reason now expires_at net ∷ [] })
]

-- `_is_expired`
unfoldable pub is_expired : ℕ → Option ℕ → Bool
is_expired now none = false
is_expired now (some t) = ltb t now

-- A rule that has not expired and whose network holds the address.
abbrev pub applies : ℕ → Address → Rule → Bool
applies now ip (net, policy) = not (is_expired now policy.expires_at) && contains net ip

-- The loops over the rules: the first one that applies.
unfoldable pub first_match : ℕ → Address → List Rule → Option Policy
first_match now ip [] = none
first_match now ip (r ∷ rs) = if applies now ip r then some r.1 else first_match now ip rs

-- `entries[-n:]`, which is the whole list at `n = 0`
unfoldable pub last_entries : ℕ → List Entry → List Entry
last_entries n es = if n == 0 then es else drop (length es - n) es

-- `_log_audit_entry`, in memory
unfoldable pub log_audit_entry : Entry → Engine → Engine
log_audit_entry entry e =
    let es = e.audit_entries ++ entry ∷ [] in
    record e {
      audit_entries =
          if ltb e.max_audit_entries (length es) then last_entries e.max_audit_entries es else es;
    }

-- The arguments of `check_access`
pub record Access : Type 0 where
  pub dest_ip : Text
  pub dest_port : ℕ
  pub plugin_id : Text
  pub task_id : Text
  pub dest_hostname : Option Text

-- The policy that an answer carries: none, a rule's, or the default one.
pub data Matched : Type 0 where
  nothing : Matched
  policy : Policy → Matched
  default_policy : Matched

pub record Answer : Type 0 where
  pub allowed : Bool
  pub reason : Reason
  pub matched : Matched

-- An answer, with the action and the `policy_matched` of its audit entry.
abbrev pub Decision : Type 0
Decision = Answer × Action × Text

-- Steps 1 to 3 of `check_access`
unfoldable pub decide : ℕ → Address → Engine → Decision
decide now ip e = elim (first_match now ip e.denylist) [
  | some p ↦ (record { allowed = false; reason = blocked_by p; matched = policy p }, deny, p.cidr)
  | none ↦ elim (first_match now ip e.allowlist) [
    | some p ↦ (record { allowed = true; reason = allowed_by p; matched = policy p }, allow, p.cidr)
    | none ↦ (
      record { allowed = false; reason = denied_by_default; matched = default_policy },
      deny,
      codes "default",
    )
  ]
]

-- The decision is written to the audit trail and returned.
unfoldable pub conclude : ℕ → Access → Text → Option Text → Decision → Engine → Answer × Engine
conclude now a dest_ip dest_hostname (answer, action, matched) e = (
  answer,
  log_audit_entry
      (record {
        timestamp = now;
        plugin_id = a.plugin_id;
        task_id = a.task_id;
        action = action;
        dest_ip = dest_ip;
        dest_port = a.dest_port;
        dest_hostname = dest_hostname;
        policy_matched = matched;
        reason = answer.reason;
      })
      e,
)

-- `dest_hostname or target_host`
unfoldable pub named : Option Text → Text → Option Text
named none t = some t
named (some []) t = some t
named (some (c ∷ h)) t = some (c ∷ h)

-- `check_access` at `now`, with the resolver of that moment
unfoldable pub check_access : Environment → Resolver → ℕ → Access → Engine → Answer × Engine
check_access env resolve now a e = elim (locate env resolve (target_host env a.dest_ip)) [
  | literal ip ↦ conclude now a (env.str_address ip) a.dest_hostname (decide now ip e) e
  | resolved answer ip ↦
      conclude now a answer (named a.dest_hostname (target_host env a.dest_ip)) (decide now ip e) e
  | unresolved ↦
      conclude now a a.dest_ip a.dest_hostname
        (
          record { allowed = false; reason = invalid_address a.dest_ip; matched = nothing },
          deny,
          codes "invalid_ip",
        )
        e
]

-- The two loops of `validate_egress_target`
unfoldable pub permits : ℕ → Address → Engine → Bool
permits now ip e = elim (first_match now ip e.denylist) [
  | some p ↦ false
  | none ↦ is_some (first_match now ip e.allowlist)
]

-- `validate_egress_target`: allowed or not
unfoldable pub validate_egress_target : Environment → Resolver → ℕ → Text → Engine → Bool
validate_egress_target env resolve now host e = elim (locate env resolve (egress_host env host)) [
  | literal ip ↦ permits now ip e
  | resolved answer ip ↦ permits now ip e
  | unresolved ↦ false
]

abbrev pub same_action : Action → Action → Bool
same_action allow allow = true
same_action deny deny = true
same_action allow deny = false
same_action deny allow = false

-- `get_audit_entries(plugin_id, action, limit)`, where the empty plugin id filters nothing
unfoldable pub get_audit_entries : Option Text → Option Action → ℕ → Engine → List Entry
get_audit_entries plugin_id action limit e =
    let by_plugin : List Entry = elim plugin_id [
      | none ↦ e.audit_entries
      | some p ↦ elim p [
        | [] ↦ e.audit_entries
        | c ∷ r ↦ filter (λ x. text_eq x.plugin_id (c ∷ r)) e.audit_entries
      ]
    ] in
    let by_action : List Entry = elim action [
      | none ↦ by_plugin
      | some a ↦ filter (λ x. same_action x.action a) by_plugin
    ] in
    last_entries limit by_action

-- `clear_audit_entries`
unfoldable pub clear_audit_entries : Engine → Engine
clear_audit_entries e = record e { audit_entries = [] }
