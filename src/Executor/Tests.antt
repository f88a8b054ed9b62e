-- ===== src/Executor/Tests.antt =====
-- The theorems of the executor at concrete inputs.
use secu_scan.Prelude.{
  read_from, ◌≤◌, ◌<◌, ◌≡◌, refl, true, false, Option, none, some, [], ◌∷◌, Text, codes, text_eq,
  is_space, lstrip, strip, lower, starts_with, ends_with, has_char, text_in, lookup, insert, erase,
}
use secu_scan.Workflow.Runs.{queued, failed}
use secu_scan.Ratelimit.Concurrent.Slots.{held}
use secu_scan.NetworkPolicy.Pin.{pin, resolve_and_pin}
use secu_scan.NetworkPolicy.Host.{split_last, is_digits, Address, v4, contains}
use secu_scan.NetworkPolicy.Engine.{
  named, log_audit_entry, last_entries, Engine, allow, first_match, is_expired, check_access,
}
use secu_scan.NetworkPolicy.Decision.{permitted}
use secu_scan.NetworkPolicy.Host.{
  locate, target_host, without_brackets, without_port, url_host, has_scheme_mark, count_char,
}
use secu_scan.NetworkPolicy.Engine.{conclude, decide}
use secu_scan.Executor.Guardrails.{denied, check_network, of_pinned}
use secu_scan.NetworkPolicy.Notation.{notation, notation-IsLawful}
use secu_scan.Executor.Lifecycle.{
  State, start, create_task, claim, settle, Reach, here, next, creates, claims, fails, enter,
  enters, retry_task, retries, mark_task_failed, rejects, drop_one, set_status, set_status_from,
}
use secu_scan.Executor.Lifecycle.Once.{Reach-once}
use secu_scan.Executor.Lifecycle.Over.{Reach-over}
use secu_scan.Executor.Lifecycle.Rows.{is_over}
use secu_scan.Executor.Guardrails.{Settings, World, enforce_guardrails}
use secu_scan.Validation.Sample.{library, library-IsLawful, no_cache, outside}
use secu_scan.Validation.Target.{
  without_line_feed, validate_resolved_ips_safe_mode, validate_resolved, validate_ips,
  validate_hostname, rebind_check, parse_url_hostname, of_hostname, is_label, is_hostname,
  first_tld, validate_network, validate_target_within, validate_target,
}
use secu_scan.Validation.Target.Accepted.{IsSafeDestination, destination}
use secu_scan.Validation.Egress.{is_drive, is_filesystem_target}
use secu_scan.Executor.Guardrails.{passed}
use secu_scan.Executor.Guardrails.Scope.{verdict, guardrails-IsSafe}
use secu_scan.Executor.Guardrails.Target.{guardrails_permitted}
use secu_scan.Validation.Networks.{
  single, network_address, broadcast_address, is_single, subnet_of, is_private, is_loopback_address,
  is_loopback, overlaps, is_blocked,
}
use secu_scan.Validation.Allowed.{
  wildcard_octets, prepend, patterns_of, octets_value, admits_network, wildcard_to_net,
  admits_single, net_within_allowed_networks,
}
use secu_scan.Ratelimit.Identity.{split_on, cons_head}
use secu_scan.Validation.Dns.{
  unseen, same_address, resolve_host_ips_uncached, resolve_host_ips, resolve_fresh, read_infos,
}

abbrev t1 : Text
t1 = codes "t1"

abbrev created : State
created = create_task t1 (start 2)

abbrev entered : State
entered = enter t1 created

abbrev claimed : State
claimed = claim t1 entered

-- The task fails, is retried and runs again.
abbrev over : State
over = settle t1 failed claimed

abbrev again : State
again = retry_task t1 over

over_reached : Reach (start 2) over
unfolding lookup enter create_task claim insert set_status_from text_eq text_in drop_one
over_reached =
    next
      (next (next (next here (creates (start 2) t1 refl)) (enters created t1))
        (claims entered t1 refl))
      (fails claimed t1 refl)

Reach-once_example :
    (held t1 again.claims ≤ held t1 again.queuings)
    × (lookup t1 again.tasks ≡ some queued → held t1 again.claims < held t1 again.queuings)
Reach-once_example = Reach-once 2 t1 (next over_reached (retries over t1))

Reach-over_example : is_over (lookup t1 (mark_task_failed t1 over).tasks) ≡ true
unfolding lookup settle enter create_task claim insert set_status set_status_from text_eq
    mark_task_failed
Reach-over_example = Reach-over t1 (next here (rejects over t1)) refl refl

-- A policy that allows every address of version 4.
abbrev open_policy : Engine
open_policy = record {
  allowlist =
      (
        record { family = v4; base = 0; prefix = 0 },
        record {
          cidr = codes "0.0.0.0/0";
          action = allow;
          reason = codes "public";
          created_at = 0;
          expires_at = none;
        },
      )
      ∷ [];
  denylist = [];
  audit_entries = [];
  max_audit_entries = 10;
}

abbrev world : World
world = record {
  category = λ p. some (codes "recon");
  is_filesystem_target = λ t. false;
  validate_target = λ t safe. some true;
  environment = notation;
  at_pin = λ t. some (b'4' ∷ 100_007 ∷ []);
  at_check = λ t. none;
  in_time = true;
}

abbrev strict : Settings
strict = record { enforce_network_policy = true; is_log_only = false }

abbrev site : Text
site = codes "example.org"

abbrev answer : Option Text
answer = some (b'4' ∷ 100_007 ∷ [])

guardrails_permitted_example :
    (address : Text) × (ip : Address) × (answer ≡ some address)
    × (world.environment.ip_address address ≡ some ip)
    × (permitted 5 ip open_policy ≡ true)
unfolding text_eq enforce_guardrails check_network of_pinned resolve_and_pin pin check_access locate
    target_host without_brackets starts_with ends_with without_port has_char url_host
    has_scheme_mark strip lstrip is_space count_char conclude decide first_match is_expired contains
guardrails_permitted_example =
    guardrails_permitted strict world 5 site (codes "whois") t1 open_policy answer true
      notation-IsLawful refl refl refl refl refl

-- `validate_target` as the validation of targets
abbrev validating : World
validating = record world {
  validate_target = λ t safe_mode. some (verdict (validate_target outside t safe_mode no_cache));
  is_filesystem_target = is_filesystem_target;
}

abbrev unenforced : Settings
unenforced = record { enforce_network_policy = false; is_log_only = false }

abbrev lab : Text
lab = codes "10.0.0.5"

lab_passes :
    (enforce_guardrails unenforced validating 5 lab (codes "whois") true t1 open_policy).0
    ≡ passed none
unfolding enforce_guardrails text_eq is_filesystem_target starts_with validate_target_within strip
    validate_network is_blocked overlaps contains is_loopback is_loopback_address is_private
    subnet_of net_within_allowed_networks is_single admits_single wildcard_to_net check_network
    denied of_pinned check_access conclude decide first_match is_expired last_entries
    log_audit_entry named count_char has_scheme_mark is_digits locate split_last target_host
    url_host without_brackets without_port pin resolve_and_pin read_from erase insert lookup
    ends_with has_char is_space lower lstrip text_in cons_head split_on admits_network octets_value
    patterns_of prepend wildcard_octets read_infos resolve_fresh resolve_host_ips
    resolve_host_ips_uncached same_address unseen is_drive broadcast_address network_address single
    first_tld is_hostname is_label of_hostname parse_url_hostname rebind_check validate_hostname
    validate_ips validate_resolved validate_resolved_ips_safe_mode without_line_feed
lab_passes = refl

lab_no_path : is_filesystem_target lab ≡ false
unfolding is_filesystem_target starts_with
lab_no_path = refl

guardrails-IsSafe_example : IsSafeDestination outside no_cache (destination library.environment lab)
unfolding text_eq
guardrails-IsSafe_example =
    guardrails-IsSafe unenforced validating outside no_cache 5 lab (codes "whois") t1 open_policy
      none library-IsLawful refl refl lab_no_path refl refl lab_passes
