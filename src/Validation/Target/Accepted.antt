-- ===== src/Validation/Target/Accepted.antt =====
-- What `validate_target` accepts.
use mathlib.Core.Option.{none-ne-some}
use secu_scan.Prelude.{
  ℕ, suc, ◌≡◌, refl, sym, ap, ◌∙◌, Bool, true, false, Option, none, some, [], ◌∷◌, arith, Text,
  strip, or_default,
}
use secu_scan.NetworkPolicy.Host.{Network, Environment}
use secu_scan.Validation.Allowed.{Library}
use secu_scan.Validation.Dns.{DnsCache}
use secu_scan.Validation.Target.{
  Validity, valid, invalid, TargetCheck, checked, value_error, too_deep, empty, Outside,
  validate_network, validate_hostname, parse_url_hostname, validate_target_within, validate_target,
  of_hostname,
}
use secu_scan.Validation.Target.Safe.{IsSafeNetwork, is_valid, validate_network-IsSafe}
use secu_scan.Validation.Target.Names.{IsSafeHost, validate_hostname-IsSafe}

-- What a target stands for: a network, by itself or as the host of a URL; a host name; nothing; or a
-- text that `urlparse` does not read.
pub data Destination : Type 0 where
  to_network : Network → Destination
  to_host : Text → Destination
  to_nothing unreadable : Destination

abbrev host_destination : Environment → Text → Destination
host_destination env hostname = elim (env.ip_network hostname) [
  | some net ↦ to_network net
  | none ↦ to_host hostname
]

abbrev url_destination : Environment → Text → Option (Option Text) → Destination
url_destination env t none = unreadable
url_destination env t (some parsed) = host_destination env (or_default t parsed)

abbrev text_destination : Environment → Text → Destination
text_destination env t = elim (env.ip_network t) [
  | some net ↦ to_network net
  | none ↦ url_destination env t (parse_url_hostname env t)
]

abbrev pub destination : Environment → Text → Destination
destination env target = elim (strip target) [
  | [] ↦ to_nothing
  | c ∷ t ↦ text_destination env (c ∷ t)
]

-- What is documented of `ipaddress`: the text of a network reads as that network, and no text as none.
pub record IsLawful (lib : Library) : Type 0 where
  pub read_back :
      (t : Text) (net : Network)
      → lib.environment.ip_network t ≡ some net
      → lib.environment.ip_network (strip (lib.str_network net)) ≡ some net
  pub nothing : lib.environment.ip_network [] ≡ none

-- The answer for a destination
abbrev pub answer : Outside → Bool → DnsCache → Destination → TargetCheck
answer o safe_mode dns (to_network net) =
    checked (validate_network o.settings o.library net safe_mode) dns
answer o safe_mode dns (to_host hostname) = of_hostname (validate_hostname o hostname safe_mode dns)
answer o safe_mode dns to_nothing = checked (invalid empty) dns
answer o safe_mode dns unreadable = value_error

module _ (o : Outside) (safe_mode : Bool) (dns : DnsCache) where
  on_network :
      (f : ℕ) (target : Text) (net : Network)
      → o.library.environment.ip_network [] ≡ none
      → o.library.environment.ip_network (strip target) ≡ some net
      → validate_target_within (suc f) o target safe_mode dns
        ≡ checked (validate_network o.settings o.library net safe_mode) dns
  unfolding validate_target_within
  on_network f target net nothing h = split (strip target) refl
    where
      split :
          (t : Text)
          → strip target ≡ t
          → validate_target_within (suc f) o target safe_mode dns
            ≡ checked (validate_network o.settings o.library net safe_mode) dns
      split [] q =
          absurd (none-ne-some net (sym nothing ∙ ap o.library.environment.ip_network (sym q) ∙ h))
      split (c ∷ t) q =
          let e = ap o.library.environment.ip_network (sym q) ∙ h in
          rw (q, e, validate_target_within) refl

  on_text :
      (f : ℕ) (target : Text) (c : ℕ) (t : Text)
      → IsLawful o.library
      → strip target ≡ c ∷ t
      → validate_target_within (suc (suc f)) o target safe_mode dns
        ≡ answer o safe_mode dns (text_destination o.library.environment (c ∷ t))
  unfolding validate_target_within
  on_text f target c t law q = by_network (o.library.environment.ip_network (c ∷ t)) refl
    where
      by_host :
          (p : Option Text) (n : Option Network)
          → o.library.environment.ip_network (c ∷ t) ≡ none
          → parse_url_hostname o.library.environment (c ∷ t) ≡ some p
          → o.library.environment.ip_network (or_default (c ∷ t) p) ≡ n
          → validate_target_within (suc (suc f)) o target safe_mode dns
            ≡ answer o safe_mode dns (text_destination o.library.environment (c ∷ t))
      by_host p none e r k =
          rw (q, e, r, k, validate_target_within, text_destination, host_destination) refl
      by_host p (some net) e r k =
          rw (q, e, r, k, validate_target_within, text_destination, host_destination)
            (on_network f (o.library.str_network net) net law.nothing (law.read_back _ net k))

      by_url :
          (p : Option (Option Text))
          → o.library.environment.ip_network (c ∷ t) ≡ none
          → parse_url_hostname o.library.environment (c ∷ t) ≡ p
          → validate_target_within (suc (suc f)) o target safe_mode dns
            ≡ answer o safe_mode dns (text_destination o.library.environment (c ∷ t))
      by_url none e r = rw (q, e, r, validate_target_within, text_destination) refl
      by_url (some p) e r =
          by_host p (o.library.environment.ip_network (or_default (c ∷ t) p)) e r refl

      by_network :
          (n : Option Network)
          → o.library.environment.ip_network (c ∷ t) ≡ n
          → validate_target_within (suc (suc f)) o target safe_mode dns
            ≡ answer o safe_mode dns (text_destination o.library.environment (c ∷ t))
      by_network none e = by_url (parse_url_hostname o.library.environment (c ∷ t)) e refl
      by_network (some net) e = rw (q, e, validate_target_within, text_destination) refl

-- `validate_target` calls itself at most once: on any fuel of at least 2 it ends, and answers by what the
-- target stands for.
pub validate_target_total :
    (o : Outside) (safe_mode : Bool) (dns : DnsCache) (f : ℕ) (target : Text)
    → IsLawful o.library
    → validate_target_within (suc (suc f)) o target safe_mode dns
      ≡ answer o safe_mode dns (destination o.library.environment target)
unfolding validate_target_within
validate_target_total o safe_mode dns f target law = split (strip target) refl
  where
    split :
        (t : Text)
        → strip target ≡ t
        → validate_target_within (suc (suc f)) o target safe_mode dns
          ≡ answer o safe_mode dns (destination o.library.environment target)
    split [] q = rw (q, validate_target_within, destination) refl
    split (c ∷ t) q = on_text o safe_mode dns f target c t law q ∙ rw (q, destination) refl

abbrev pub IsSafeDestination : Outside → DnsCache → Destination → Type 0
IsSafeDestination o dns (to_network net) = IsSafeNetwork o.settings o.library net
IsSafeDestination o dns (to_host hostname) = IsSafeHost o hostname dns
IsSafeDestination o dns to_nothing = ⊥
IsSafeDestination o dns unreadable = ⊥

abbrev is_accepted : TargetCheck → Bool
is_accepted (checked v dns) = is_valid v
is_accepted value_error = false
is_accepted too_deep = false

valid_of : (v : Validity) → is_valid v ≡ true → v ≡ valid
valid_of valid h = refl
valid_of (invalid reason) h = cc

answer-IsSafe :
    (o : Outside) (dns : DnsCache) (d : Destination)
    → is_accepted (answer o true dns d) ≡ true
    → IsSafeDestination o dns d
unfolding of_hostname
answer-IsSafe o dns (to_network net) h =
    validate_network-IsSafe o.settings o.library net (valid_of _ h)
answer-IsSafe o dns (to_host hostname) h =
    validate_hostname-IsSafe o hostname dns (valid_of _ (host_valid h))
  where
    host_valid :
        is_accepted (of_hostname (validate_hostname o hostname true dns)) ≡ true
        → is_valid (validate_hostname o hostname true dns).0 ≡ true
    host_valid h = h
answer-IsSafe o dns to_nothing h = absurd (ground (arith, h))
answer-IsSafe o dns unreadable h = absurd (ground (arith, h))

pub validate_target-IsSafe :
    (o : Outside) (target : Text) (dns dns' : DnsCache)
    → IsLawful o.library
    → validate_target o target true dns ≡ checked valid dns'
    → IsSafeDestination o dns (destination o.library.environment target)
validate_target-IsSafe o target dns dns' law h =
    answer-IsSafe o dns (destination o.library.environment target)
      (ap is_accepted (sym (validate_target_total o true dns 0 target law) ∙ h))
