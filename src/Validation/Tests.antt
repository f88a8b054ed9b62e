-- ===== src/Validation/Tests.antt =====
-- The theorems of validation.py at concrete inputs, and what it lets through.
use secu_scan.Prelude.{
  Json, string, array, object, nil, cons, end, field, read_from, show, ℕ, ◌≡◌, refl, true, false,
  ◌&&◌, Option, none, some, List, [], ◌∷◌, leb, if◌then◌else◌, all, Text, codes, text_eq, is_space,
  lstrip, strip, lower, starts_with, ends_with, has_char, text_in, lookup, insert, erase,
}
use secu_scan.NetworkPolicy.Host.{
  without_port, without_brackets, url_host, target_host, locate, count_char, split_last,
  has_scheme_mark, contains, is_digits, contains, v4, v6, Network, Environment,
}
use secu_scan.NetworkPolicy.Engine.{
  named, log_audit_entry, last_entries, is_expired, first_match, decide, conclude, check_access,
  Engine, allow,
}
use secu_scan.Ratelimit.Identity.{cons_head, split_on}
use secu_scan.Validation.Sample.{ten, library, library-IsLawful, settings, no_cache, outside}
use secu_scan.Validation.Networks.{
  network_address, broadcast_address, is_single, subnet_of, is_loopback_address, is_loopback,
  overlaps, is_blocked, is_private, ipv4, single,
}
use secu_scan.Validation.Allowed.{
  wildcard_octets, patterns_of, octets_value, admits_network, prepend, admits_single,
  wildcard_to_net, net_within_allowed_networks,
}
use secu_scan.Validation.Dns.{
  unseen, same_address, resolve_host_ips_uncached, resolve_host_ips, resolve_fresh, read_infos,
  Answers, inet,
}
use secu_scan.Validation.Target.{
  validate_resolved_ips_safe_mode, validate_resolved, validate_ips, validate_hostname, rebind_check,
  of_hostname, first_tld, is_label, without_line_feed, is_hostname, parse_url_hostname,
  validate_target, validate_target_within, checked, valid, validate_network,
}
use secu_scan.Validation.Target.Accepted.{destination, IsSafeDestination, validate_target-IsSafe}
use secu_scan.Validation.Egress.{
  is_mixed_case, is_drive, check_policy, check_ip, after_target, check_argument, is_host_like,
  clean_port, candidate_of, is_filesystem_target, EgressPolicy, Moment, endpoint,
  validate_command_network_egress, egress_allowed,
}
use secu_scan.Validation.Sanitize.{sanitize_input}
use secu_scan.Validation.Ports.{validate_port_range}
use secu_scan.Validation.Ports.Printed.{
  port, range, print, is_good, is_port_valid, validate_port_range-print,
}
use secu_scan.Validation.Payload.{PayloadLimits, validate_task_start_payload}
use secu_scan.Validation.Payload.Limits.{is_ok, is_in_limits, context_in_limits, payload-limits}
use secu_scan.Validation.Webhook.{
  passes_allowed, in_cidr, first_blocked, check_ranges, WebhookSettings, allows_port,
  webhook_allowed, resolve_and_validate_target,
}
use secu_scan.Validation.Webhook.Ranges.{HostIsReachable, webhook-reachable}
use secu_scan.Validation.Egress.Arguments.{engine_after, egress-IsSafe, AllArguments}

ten_wildcard : wildcard_to_net (codes "10.*.*.*") ≡ some ten
unfolding wildcard_to_net split_on text_eq is_digits prepend read_from
ten_wildcard = refl

accepts_address : validate_target outside (codes "10.0.0.5") true no_cache ≡ checked valid no_cache
unfolding validate_target_within strip text_eq validate_network is_blocked overlaps contains
    is_loopback is_loopback_address is_private subnet_of net_within_allowed_networks is_single
    admits_single wildcard_to_net split_on is_digits read_from
accepts_address = refl

accepts_url :
    validate_target outside (codes "http://10.0.0.5/") true no_cache ≡ checked valid no_cache
unfolding validate_target_within strip text_eq validate_network parse_url_hostname text_in
    is_blocked overlaps contains is_loopback is_loopback_address is_private subnet_of
    net_within_allowed_networks is_single admits_single wildcard_to_net split_on is_digits read_from
accepts_url = refl

validate_target-IsSafe_example :
    IsSafeDestination outside no_cache (destination library.environment (codes "http://10.0.0.5/"))
validate_target-IsSafe_example =
    validate_target-IsSafe outside (codes "http://10.0.0.5/") no_cache no_cache library-IsLawful
      accepts_url

-- The policy allows 10.0.0.0/8 and denies nothing.
abbrev private_only : Engine
private_only = record {
  allowlist =
      (
        ten,
        record {
          cidr = codes "10.0.0.0/8";
          action = allow;
          reason = [];
          created_at = 0;
          expires_at = none;
        },
      )
      ∷ [];
  denylist = [];
  audit_entries = [];
  max_audit_entries = 10;
}

abbrev egress_policy : EgressPolicy
egress_policy = record {
  enforce_network_policy = true;
  is_log_only = false;
  plugin_id = codes "nmap";
  task_id = codes "t1";
  pinned_ip = none;
}

abbrev moments : ℕ → Moment
moments i = record { outside = outside; resolve = λ t. none; at_check = 7 }

abbrev command : List Text
command = codes "nmap" ∷ codes "-sV" ∷ codes "10.0.0.5" ∷ []

abbrev after_command : Engine
after_command =
    engine_after private_only
      (validate_command_network_egress egress_policy moments 0 true command no_cache private_only)

lets_through :
    validate_command_network_egress egress_policy moments 0 true command no_cache private_only
    ≡ egress_allowed no_cache after_command
unfolding validate_command_network_egress check_argument endpoint strip starts_with
    is_filesystem_target candidate_of has_scheme_mark text_eq clean_port has_char is_host_like lower
    is_hostname split_on without_line_feed is_label after_target check_access conclude decide
    first_match is_expired last_entries log_audit_entry named contains count_char is_digits locate
    split_last target_host url_host without_brackets without_port read_from erase insert lookup
    ends_with is_space lstrip text_in cons_head admits_network admits_single
    net_within_allowed_networks octets_value patterns_of prepend wildcard_octets wildcard_to_net
    read_infos resolve_fresh resolve_host_ips resolve_host_ips_uncached same_address unseen check_ip
    check_policy is_drive is_mixed_case broadcast_address is_blocked is_loopback is_loopback_address
    is_private is_single network_address overlaps single subnet_of first_tld of_hostname
    parse_url_hostname rebind_check validate_hostname validate_ips validate_network
    validate_resolved validate_resolved_ips_safe_mode validate_target_within
lets_through = refl

egress-IsSafe_example : AllArguments egress_policy moments 0 private_only no_cache command
egress-IsSafe_example =
    egress-IsSafe egress_policy moments command no_cache no_cache private_only after_command refl
      refl (λ k. library-IsLawful) lets_through

-- An address of version 6 whose last group is decimal passes for a host and a port, and is not checked.
colon_notation : Text → Option Network
colon_notation t =
    if text_eq t (codes "2001:db8::1")
    then some (record { family = v6; base = 1; prefix = 128 })
    else none

ipv6_unchecked :
    endpoint (record library.environment { ip_network = colon_notation }) (codes "2001:db8::1")
    ≡ none
unfolding endpoint colon_notation starts_with is_filesystem_target candidate_of has_scheme_mark
    text_eq clean_port has_char split_last is_digits is_host_like lower is_hostname split_on
    without_line_feed is_label
ipv6_unchecked = refl

-- 8.0.0.0/6 passes for private, since it overlaps with 10.0.0.0/8, and holds public addresses.
abbrev wide : Network
wide = ipv4 8 0 0 0 6

wide_accepted :
    (validate_network (record settings { allowed_networks = [] }) library wide true ≡ valid)
    × (contains wide (record { version = v4; value = 134744072 }) ≡ true)
    × (is_private (single (record { version = v4; value = 134744072 })) ≡ false)
unfolding validate_network is_blocked overlaps contains is_loopback is_loopback_address is_private
    subnet_of net_within_allowed_networks single
wide_accepted = (refl, refl, refl)

dash_left : sanitize_input (codes " -rf") ≡ codes "-rf"
unfolding sanitize_input strip
dash_left = refl

validate_port_range-print_example :
    is_port_valid (validate_port_range (print (port 22) (range 8000 70000 ∷ [])))
    ≡ all is_good (port 22 ∷ range 8000 70000 ∷ [])
validate_port_range-print_example = validate_port_range-print (port 22) (range 8000 70000 ∷ [])

prints_ports : print (port 22) (range 8000 9000 ∷ []) ≡ codes "22,8000-9000"
unfolding show
prints_ports = refl

abbrev limits : PayloadLimits
limits = record { max_body_bytes = 100; max_field_length = 3; max_array_length = 2 }

abbrev inputs : Json
inputs = object (field (codes "target") (array (cons (string (codes "host")) nil)) end)

payload-limits_example :
    is_ok (validate_task_start_payload limits 40 inputs none)
    ≡ (leb 40 100 && is_in_limits limits inputs && context_in_limits limits none)
payload-limits_example = payload-limits limits 40 inputs none

abbrev webhooks : WebhookSettings
webhooks = record {
  blocked_ip_ranges = codes "10.0.0.5/32" ∷ [];
  allowed_ip_ranges = [];
  allowed_ports = 443 ∷ [];
}

abbrev web : Environment
web = record library.environment {
  ip_address =
      λ t. if text_eq t (codes "1") then some (record { version = v4; value = 1 }) else none;
  urlparse = λ t. some (codes "https", some t);
}

abbrev web_answers : Answers
web_answers t = some (record { family = inet; sockaddr = codes "1" } ∷ [])

webhook_passes :
    resolve_and_validate_target webhooks web (λ t. some (some 443)) web_answers (codes "hook")
    ≡ webhook_allowed
unfolding resolve_and_validate_target text_in text_eq check_ranges first_blocked in_cidr contains
    passes_allowed
webhook_passes = refl

webhook-reachable_example :
    (scheme : Text) × (hostname : Text) × (web.urlparse (codes "hook")
      ≡ some (scheme, some hostname))
    × (text_in scheme (codes "http" ∷ codes "https" ∷ []) ≡ true)
    × ((p : Option ℕ) × (◌≡◌ {A = Option (Option ℕ)} (some (some 443)) (some p))
        × (allows_port webhooks p ≡ true))
    × HostIsReachable webhooks web web_answers hostname
webhook-reachable_example =
    webhook-reachable webhooks web (λ t. some (some 443)) web_answers (codes "hook") webhook_passes
