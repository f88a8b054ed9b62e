-- ===== src/Validation/Egress/Caches.antt =====
-- The cache of names from argument to argument.
use secu_scan.Prelude.{◌≡◌, refl, true, Option, none, some, arith, Text, strip}
use secu_scan.NetworkPolicy.Engine.{Engine}
use secu_scan.Validation.Dns.{DnsCache}
use secu_scan.Validation.Target.{
  valid, invalid, TargetCheck, checked, value_error, too_deep, validate_target,
}
use secu_scan.Validation.Egress.{
  EgressPolicy, Moment, Endpoint, endpoint, Egress, egress_allowed, egress_refused, egress_raised,
  check_policy, after_target, check_argument,
}

-- The cache of names after an argument: `validate_target` leaves it for an endpoint.
abbrev cache_of : DnsCache → TargetCheck → DnsCache
cache_of dns (checked v dns') = dns'
cache_of dns value_error = dns
cache_of dns too_deep = dns

abbrev cache_at : Moment → DnsCache → Option Endpoint → DnsCache
cache_at m dns none = dns
cache_at m dns (some x) = cache_of dns (validate_target m.outside x.candidate true dns)

abbrev pub cache_after : Moment → Text → DnsCache → DnsCache
cache_after m arg dns = cache_at m dns (endpoint m.outside.library.environment (strip arg))

abbrev pub kept_cache : DnsCache → Egress → DnsCache
kept_cache dns (egress_allowed dns' e) = dns'
kept_cache dns (egress_refused dns' e) = dns'
kept_cache dns egress_raised = dns

check_policy-cache :
    (p : EgressPolicy) (m : Moment) (x : Endpoint) (dns dns' : DnsCache) (e : Engine)
    → kept_cache dns (check_policy p m x dns' e) ≡ dns'
unfolding check_policy
check_policy-cache p m x dns dns' e = ground arith

after_target-cache :
    (p : EgressPolicy) (m : Moment) (x : Endpoint) (dns : DnsCache) (e : Engine) (c : TargetCheck)
    → kept_cache dns (after_target p m x e c) ≡ cache_of dns c
unfolding after_target
after_target-cache p m x dns e (checked valid dns') = check_policy-cache p m x dns dns' e
after_target-cache p m x dns e (checked (invalid reason) dns') = refl
after_target-cache p m x dns e value_error = refl
after_target-cache p m x dns e too_deep = refl

pub check_argument-cache :
    (p : EgressPolicy) (m : Moment) (arg : Text) (dns : DnsCache) (e : Engine)
    → kept_cache dns (check_argument p m true arg dns e) ≡ cache_after m arg dns
unfolding check_argument
check_argument-cache p m arg dns e = split (endpoint m.outside.library.environment (strip arg)) refl
  where
    split :
        (o : Option Endpoint)
        → endpoint m.outside.library.environment (strip arg) ≡ o
        → kept_cache dns (check_argument p m true arg dns e) ≡ cache_after m arg dns
    split none q = rw (q, check_argument, cache_after) refl
    split (some x) q =
        rw (q, check_argument, cache_after)
          (after_target-cache p m x dns e (validate_target m.outside x.candidate true dns))
