-- ===== src/Validation/Egress.antt =====
-- `validate_command_network_egress`: the network destinations in the arguments of a command.
pub mod Caches
pub mod Arguments
use secu_scan.Prelude.{
  ℕ, ◌+◌, ◌-◌, Bool, true, false, not, ◌&&◌, ◌||◌, Option, none, some, List, [], ◌∷◌, map, leb,
  ◌==◌, if◌then◌else◌, any, Text, codes, text_eq, strip, lower, starts_with, has_char, text_in,
}
use secu_scan.NetworkPolicy.Host.{Environment, Resolver, has_scheme_mark, split_last, is_digits}
use secu_scan.NetworkPolicy.Engine.{Engine, Access, check_access}
use secu_scan.Ratelimit.Identity.{split_on}
use secu_scan.Validation.Dns.{DnsCache}
use secu_scan.Validation.Target.{
  Validity, valid, invalid, TargetCheck, checked, value_error, too_deep, Outside, is_hostname,
  validate_target,
}

abbrev is_letter : ℕ → Bool
is_letter c = (leb b'a' c && leb c b'z') || (leb b'A' c && leb c b'Z')

-- `^[A-Za-z]:[\\/]`
unfoldable pub is_drive : Text → Bool
is_drive (c ∷ d ∷ e ∷ t) = is_letter c && d == b':' && (e == 92 || e == b'/')
is_drive [] = false
is_drive (c ∷ []) = false
is_drive (c ∷ d ∷ []) = false

unfoldable pub is_filesystem_target : Text → Bool
unfolding is_drive
is_filesystem_target target =
    any (starts_with target) (codes "/" ∷ codes "./" ∷ codes "../" ∷ codes "~/" ∷ [])
    || is_drive target

abbrev upper_char : ℕ → ℕ
upper_char c = if leb b'a' c && leb c b'z' then c - 32 else c

-- `part != part.lower() and part != part.upper()`
unfoldable pub is_mixed_case : Text → Bool
is_mixed_case part = not (text_eq part (lower part)) && not (text_eq part (map upper_char part))

abbrev is_url_scheme : Text → Bool
is_url_scheme scheme = text_in scheme (codes "http" ∷ codes "https" ∷ codes "ws" ∷ codes "wss" ∷ [])

-- `hostname if is_url else arg_str`, where it is not empty
unfoldable pub candidate_of : Environment → Text → Option Text
candidate_of env arg =
    if has_scheme_mark arg
    then elim (env.urlparse arg) [
      | none ↦ some arg
      | some (scheme, hostname) ↦
          if is_url_scheme scheme
          then elim hostname [ none ↦ none | some h ↦ elim h [ [] ↦ none | c ∷ t ↦ some (c ∷ t) ] ]
          else some arg
    ]
    else some arg

-- The candidate loses what looks like a port.
unfoldable pub clean_port : Text → Text
clean_port candidate =
    if has_char b':' candidate && not (starts_with candidate (codes "["))
    then elim (split_last b':' candidate) [
      | none ↦ candidate
      | some (host, port) ↦ if is_digits port then host else candidate
    ]
    else candidate

-- `localhost`, or a dotted name of which no label has letters of both cases
unfoldable pub is_host_like : Text → Bool
is_host_like candidate =
    text_eq (lower candidate) (codes "localhost")
    || (is_hostname (lower candidate)
        && has_char b'.' candidate
        && not (any is_mixed_case (split_on b'.' candidate)))

-- An argument that is checked: the candidate, and whether it is a host name.
pub record Endpoint : Type 0 where
  pub candidate : Text
  pub is_host : Bool

abbrev endpoint_of : Environment → Text → Option Endpoint
endpoint_of env candidate = elim (env.ip_network candidate) [
  | some net ↦ some (record { candidate = candidate; is_host = false })
  | none ↦
      if is_host_like candidate
      then some (record { candidate = candidate; is_host = true })
      else none
]

-- The endpoint of `arg_str`, or that the loop goes on to the next argument
unfoldable pub endpoint : Environment → Text → Option Endpoint
endpoint env arg = elim arg [
  | [] ↦ none
  | c ∷ t ↦
      if starts_with (c ∷ t) (codes "-") || is_filesystem_target (c ∷ t)
      then none
      else elim (candidate_of env (c ∷ t)) [
        | none ↦ none
        | some candidate ↦ endpoint_of env (clean_port candidate)
      ]
]

-- What is fixed for all arguments
pub record EgressPolicy : Type 0 where
  pub enforce_network_policy : Bool
  pub is_log_only : Bool
  pub plugin_id : Text
  pub task_id : Text
  pub pinned_ip : Option Text

-- The outside at the time of one argument, and the resolver and the moment of its `check_access`
pub record Moment : Type 0 where
  pub outside : Outside
  pub resolve : Resolver
  pub at_check : ℕ

-- The command is let through or refused, with the cache of names and the policy engine; or an exception
-- leaves the function.
pub data Egress : Type 0 where
  egress_allowed egress_refused : DnsCache → Engine → Egress
  egress_raised : Egress

-- `pinned_ip if (pinned_ip and is_host) else candidate`
unfoldable pub check_ip : EgressPolicy → Endpoint → Text
check_ip p x =
    if x.is_host
    then elim p.pinned_ip [
      | none ↦ x.candidate
      | some ip ↦ elim ip [ [] ↦ x.candidate | c ∷ t ↦ c ∷ t ]
    ]
    else x.candidate

abbrev pub access_of : EgressPolicy → Endpoint → Access
access_of p x = record {
  dest_ip = check_ip p x;
  dest_port = 0;
  dest_hostname = if x.is_host then some x.candidate else none;
  plugin_id = p.plugin_id;
  task_id = p.task_id;
}

-- The check of an endpoint against the network policy
unfoldable pub check_policy : EgressPolicy → Moment → Endpoint → DnsCache → Engine → Egress
check_policy p m x dns e =
    let (answer, e') =
      check_access m.outside.library.environment m.resolve m.at_check (access_of p x) e in
    if p.enforce_network_policy
    then if answer.allowed || p.is_log_only then egress_allowed dns e' else egress_refused dns e'
    else egress_allowed dns e

unfoldable pub after_target : EgressPolicy → Moment → Endpoint → Engine → TargetCheck → Egress
after_target p m x e (checked valid dns) = check_policy p m x dns e
after_target p m x e (checked (invalid reason) dns) = egress_refused dns e
after_target p m x e value_error = egress_raised
after_target p m x e too_deep = egress_raised

-- The body of the loop
unfoldable pub check_argument : EgressPolicy → Moment → Bool → Text → DnsCache → Engine → Egress
check_argument p m safe_mode arg dns e = elim (endpoint m.outside.library.environment (strip arg)) [
  | none ↦ egress_allowed dns e
  | some x ↦ after_target p m x e (validate_target m.outside x.candidate safe_mode dns)
]

unfoldable pub validate_command_network_egress :
    EgressPolicy → (ℕ → Moment) → ℕ → Bool → List Text → DnsCache → Engine → Egress
validate_command_network_egress p moments i safe_mode [] dns e = egress_allowed dns e
validate_command_network_egress p moments i safe_mode (arg ∷ args) dns e =
    let go_on = λ (dns' : DnsCache) (e' : Engine).
      validate_command_network_egress p moments (i + 1) safe_mode args dns' e' in
    elim (check_argument p (moments i) safe_mode arg dns e) [
      | egress_allowed dns' e' ↦ go_on dns' e'
      | egress_refused dns' e' ↦ egress_refused dns' e'
      | egress_raised ↦ egress_raised
    ]
