-- ===== src/Validation/Target.antt =====
-- `validate_target`: which addresses, networks, hosts and URLs may be scanned.
pub mod Safe
pub mod Names
pub mod Accepted
use secu_scan.Prelude.{
  ℕ, zero, suc, Bool, false, not, ◌&&◌, ◌||◌, Option, none, some, List, [], ◌∷◌, ◌++◌, leb, ◌==◌,
  if◌then◌else◌, length, all, Text, codes, strip, lower, ends_with, text_in, or_default,
}
use secu_scan.NetworkPolicy.Host.{Address, Network, Environment}
use secu_scan.Ratelimit.Identity.{split_on}
use secu_scan.Validation.Networks.{single, is_loopback_address, is_loopback, is_blocked, is_private}
use secu_scan.Validation.Allowed.{Settings, Library, net_within_allowed_networks}
use secu_scan.Validation.Dns.{
  Answers, DnsCache, same_address, unseen, resolve_host_ips, resolve_host_ips_uncached,
}

-- Why a target is refused, in the order of the messages
pub data TargetError : Type 0 where
  empty blocked loopback public outside bad_hostname no_addresses : TargetError
  blocked_tld : Text → TargetError

pub data Validity : Type 0 where
  valid : Validity
  invalid : TargetError → Validity

-- `validate_target` returns, with the cache of names; or `urlparse` raises `ValueError`; or the calls
-- of itself do not end.
pub data TargetCheck : Type 0 where
  checked : Validity → DnsCache → TargetCheck
  value_error too_deep : TargetCheck

-- What a call reads besides its arguments: the first resolution and, later, the second.
pub record Outside : Type 0 where
  pub settings : Settings
  pub library : Library
  pub now : ℕ
  pub answers : Answers
  pub later : ℕ
  pub answers_later : Answers

-- `_validate_resolved_ips_safe_mode`: the loop, and the test for an empty list
unfoldable pub validate_ips : Settings → Library → List Address → Validity
validate_ips c lib [] = valid
validate_ips c lib (ip ∷ ips) =
    let rest = validate_ips c lib ips in
    if is_blocked (single ip)
    then invalid blocked
    else if is_loopback_address ip && not c.allow_loopback_scans
    then invalid loopback
    else if not (is_private (single ip))
    then invalid public
    else if not (net_within_allowed_networks c lib (single ip))
    then invalid outside
    else rest

unfoldable pub validate_resolved_ips_safe_mode : Settings → Library → List Address → Validity
validate_resolved_ips_safe_mode c lib [] = invalid no_addresses
validate_resolved_ips_safe_mode c lib (ip ∷ ips) = validate_ips c lib (ip ∷ ips)

-- The part of `validate_target` on a text that reads as a network
unfoldable pub validate_network : Settings → Library → Network → Bool → Validity
validate_network c lib net safe_mode =
    if is_blocked net
    then invalid blocked
    else if is_loopback net && not c.allow_loopback_scans
    then invalid loopback
    else if safe_mode
    then if not (is_private net)
      then invalid public
      else if not (net_within_allowed_networks c lib net)
      then invalid outside
      else valid
    else valid

abbrev pub is_alnum : ℕ → Bool
is_alnum c = (leb b'a' c && leb c b'z') || (leb b'A' c && leb c b'Z') || (leb b'0' c && leb c b'9')

abbrev pub last_char : ℕ → Text → ℕ
last_char c [] = c
last_char c (d ∷ t) = last_char d t

-- `[a-zA-Z0-9]([a-zA-Z0-9\-]{0,61}[a-zA-Z0-9])?`
unfoldable pub is_label : Text → Bool
is_label [] = false
is_label (c ∷ t) =
    is_alnum c
    && all (λ d. is_alnum d || d == b'-') t
    && is_alnum (last_char c t)
    && leb (length (c ∷ t)) 63

-- `$` matches before a final line feed too.
unfoldable pub without_line_feed : Text → Text
without_line_feed [] = []
without_line_feed (c ∷ []) = if c == 10 then [] else c ∷ []
without_line_feed (c ∷ d ∷ t) = c ∷ without_line_feed (d ∷ t)

-- The regular expression of a host name
unfoldable pub is_hostname : Text → Bool
is_hostname t = all is_label (split_on b'.' (without_line_feed t))

-- `BLOCKED_TLDS`
abbrev pub blocked_tlds : List Text
blocked_tlds = codes ".mil" ∷ codes ".gov" ∷ []

unfoldable pub first_tld : Text → List Text → Option Text
first_tld t [] = none
first_tld t (tld ∷ tlds) = let rest = first_tld t tlds in if ends_with t tld then some tld else rest

-- The second resolution, where it is asked for
unfoldable pub rebind_check : Outside → Text → List Address → DnsCache → Validity × DnsCache
rebind_check o hostname ips dns =
    if o.settings.dns_rebind_check
    then (let (ips', dns') =
          resolve_host_ips_uncached o.settings o.library.environment o.answers_later o.later
            hostname dns in
        (validate_resolved_ips_safe_mode o.settings o.library (unseen [] (ips ++ ips')), dns'))
    else (valid, dns)

unfoldable pub validate_resolved : Outside → Text → DnsCache → Validity × DnsCache
validate_resolved o hostname dns =
    let (ips, dns') =
      resolve_host_ips o.settings o.library.environment o.answers o.now hostname dns in
    elim (validate_resolved_ips_safe_mode o.settings o.library ips) [
      | valid ↦ rebind_check o hostname ips dns'
      | invalid reason ↦ (invalid reason, dns')
    ]

-- The part of `validate_target` on a host name
unfoldable pub validate_hostname : Outside → Text → Bool → DnsCache → Validity × DnsCache
validate_hostname o hostname safe_mode dns =
    if not (is_hostname hostname)
    then (invalid bad_hostname, dns)
    else if safe_mode
    then elim (first_tld (lower hostname) blocked_tlds) [
      | some tld ↦ (invalid (blocked_tld tld), dns)
      | none ↦ validate_resolved o hostname dns
    ]
    else (valid, dns)

-- `_parse_url_hostname`, `none` where it raises
unfoldable pub parse_url_hostname : Environment → Text → Option (Option Text)
parse_url_hostname env target = elim (env.urlparse target) [
  | none ↦ none
  | some (scheme, hostname) ↦
      some (if text_in scheme (codes "http" ∷ codes "https" ∷ []) then hostname else none)
]

unfoldable pub of_hostname : Validity × DnsCache → TargetCheck
of_hostname (v, dns) = checked v dns

-- `validate_target`, on fuel for its calls of itself
unfoldable pub validate_target_within : ℕ → Outside → Text → Bool → DnsCache → TargetCheck
validate_target_within zero o target safe_mode dns = too_deep
validate_target_within (suc f) o target safe_mode dns =
    let again =
      λ (net : Network). validate_target_within f o (o.library.str_network net) safe_mode dns in
    let env = o.library.environment in
    elim (strip target) [
      | [] ↦ checked (invalid empty) dns
      | ch ∷ t ↦ elim (env.ip_network (ch ∷ t)) [
        | some net ↦ checked (validate_network o.settings o.library net safe_mode) dns
        | none ↦ elim (parse_url_hostname env (ch ∷ t)) [
          | none ↦ value_error
          | some parsed ↦
              let hostname = or_default (ch ∷ t) parsed in
              elim (env.ip_network hostname) [
                | some net ↦ again net
                | none ↦ of_hostname (validate_hostname o hostname safe_mode dns)
              ]
        ]
      ]
    ]

-- `validate_target`: the text of a network reads as that network, so that the call of itself is the last.
abbrev pub validate_target : Outside → Text → Bool → DnsCache → TargetCheck
validate_target o target safe_mode dns = validate_target_within 2 o target safe_mode dns
