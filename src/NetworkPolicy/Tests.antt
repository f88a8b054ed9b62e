-- ===== src/NetworkPolicy/Tests.antt =====
-- The theorems of the network policy at concrete inputs: an environment that knows loopback, one
-- public address and two networks.
use secu_scan.Prelude.{
  ℕ, ◌≡◌, refl, false, none, some, List, [], ◌∷◌, if◌then◌else◌, Text, codes, text_eq, strip,
  starts_with, has_char, text_in, or_default,
}
use secu_scan.NetworkPolicy.Pin.{pin, resolve_and_pin}
use secu_scan.NetworkPolicy.Host.{
  Address, v4, Network, contains, Environment, Resolver, target_host, locate, has_scheme_mark,
  url_host, without_port, without_brackets,
}
use secu_scan.NetworkPolicy.Engine.{
  Access, Answer, Engine, Entry, init, check_access, allow, denied_by_default,
}
use secu_scan.NetworkPolicy.Decision.{check_access-permitted, permitted_at, address_of}
use secu_scan.NetworkPolicy.Defaults.{init_default_policies, allow_all, perform}
use secu_scan.NetworkPolicy.Defaults.Mandatory.{mandatory_denied}
use secu_scan.NetworkPolicy.Notation.{notation, notation-IsLawful}
use secu_scan.NetworkPolicy.Pinning.{Sound, resolve_and_pin-Sound}

abbrev loopback : Address
loopback = record { version = v4; value = 2130706433 }

abbrev loopback_net : Network
loopback_net = record { family = v4; base = 2130706432; prefix = 8 }

abbrev any_net : Network
any_net = record { family = v4; base = 0; prefix = 0 }

abbrev environment : Environment
environment = record {
  ip_address = λ t. if text_eq t (codes "127.0.0.1") then some loopback else none;
  str_address = λ ip. codes "127.0.0.1";
  ip_network = λ t.
      if text_eq t (codes "127.0.0.0/8")
      then some loopback_net
      else if text_eq t (codes "10.0.0.0/8")
      then none
      else some any_net;
  urlparse = λ t. none;
}

abbrev no_dns : Resolver
no_dns t = none

abbrev local_access : Access
local_access = record {
  dest_ip = codes "127.0.0.1";
  dest_port = 80;
  plugin_id = codes "nmap";
  task_id = codes "t1";
  dest_hostname = none;
}

check_access-permitted_example :
    (check_access environment no_dns 5 local_access (init 10)).0.allowed
    ≡ permitted_at 5
        (init 10)
        (address_of (locate environment no_dns (target_host environment local_access.dest_ip)))
check_access-permitted_example = check_access-permitted environment no_dns 5 local_access (init 10)

abbrev entry_at : ℕ → Entry
entry_at now = record {
  timestamp = now;
  plugin_id = codes "nmap";
  task_id = codes "t1";
  action = allow;
  dest_ip = codes "127.0.0.1";
  dest_port = 80;
  dest_hostname = none;
  policy_matched = codes "default";
  reason = denied_by_default;
}

abbrev three_entries : List Entry
three_entries = entry_at 1 ∷ entry_at 2 ∷ entry_at 3 ∷ []

-- The engine of an operator who allows everything and denies nothing.
abbrev opened : Engine
opened =
    or_default (init 10) (init_default_policies environment 5 [] (codes "0.0.0.0/0" ∷ []) (init 10))

mandatory_denied_example : (check_access environment no_dns 9 local_access opened).0.allowed ≡ false
unfolding init_default_policies text_in text_eq contains locate target_host without_brackets
    starts_with without_port has_char url_host has_scheme_mark strip allow_all perform
mandatory_denied_example =
    mandatory_denied environment 5 [] (codes "0.0.0.0/0" ∷ []) (init 10) opened
      (codes "127.0.0.0/8") loopback_net loopback [] no_dns 9 local_access refl refl refl refl refl

-- A host that resolves to an address of version 4 at first, and to nothing when it is checked.
abbrev moving : Text
moving = codes "example.org"

abbrev first_answer : Resolver
first_answer t = some (b'4' ∷ 100_007 ∷ [])

abbrev checked : Answer × Engine
checked =
    check_access notation no_dns 5
      (record {
        dest_ip = b'4' ∷ 100_007 ∷ [];
        dest_port = 0;
        plugin_id = codes "nmap";
        task_id = codes "t1";
        dest_hostname = some moving;
      })
      (init 10)

resolve_and_pin-Sound_example : Sound notation 5 (init 10) (b'4' ∷ 100_007 ∷ []) checked.0.allowed
unfolding resolve_and_pin pin has_char
resolve_and_pin-Sound_example =
    resolve_and_pin-Sound notation notation-IsLawful first_answer no_dns 5 moving (codes "nmap")
      (codes "t1") (b'4' ∷ 100_007 ∷ []) checked.0.allowed (init 10) checked.1 refl refl
