-- ===== src/Validation/Egress/Arguments.antt =====
-- What the arguments of an accepted command reach.
use secu_scan.Prelude.{
  ℕ, ◌+◌, ◌≡◌, refl, sym, ap, ◌∙◌, subst, Bool, true, false, Option, none, some, List, [], ◌∷◌,
  arith, Text, strip,
}
use secu_scan.NetworkPolicy.Host.{
  Address, Environment, Resolver, target_host, locate, Located, literal, resolved, unresolved,
}
use secu_scan.NetworkPolicy.Engine.{Engine, Access, check_access, conclude, log_audit_entry}
use secu_scan.NetworkPolicy.Decision.{permitted, permitted_at, address_of, check_access-permitted}
use secu_scan.Validation.Dns.{DnsCache}
use secu_scan.Validation.Target.{
  valid, invalid, TargetCheck, checked, value_error, too_deep, validate_target,
}
use secu_scan.Validation.Target.Accepted.{
  IsLawful, IsSafeDestination, destination, validate_target-IsSafe,
}
use secu_scan.Validation.Egress.Caches.{cache_after, kept_cache, check_argument-cache}
use secu_scan.Validation.Egress.{
  EgressPolicy, Moment, Endpoint, endpoint, Egress, egress_allowed, egress_refused, egress_raised,
  check_ip, access_of, check_policy, after_target, check_argument, validate_command_network_egress,
}

-- The rules of an engine are those of another.
abbrev SameRules : Engine → Engine → Type 0
SameRules e e' = (e'.denylist ≡ e.denylist) × (e'.allowlist ≡ e.allowlist)

check_access-SameRules :
    (env : Environment) (resolve : Resolver) (now : ℕ) (a : Access) (e : Engine)
    → SameRules e (check_access env resolve now a e).1
unfolding check_access conclude log_audit_entry
check_access-SameRules env resolve now a e =
    split (locate env resolve (target_host env a.dest_ip)) refl
  where
    split :
        (l : Located)
        → locate env resolve (target_host env a.dest_ip) ≡ l
        → SameRules e (check_access env resolve now a e).1
    split (literal ip) q = rw (q, check_access) (refl, refl)
    split (resolved answer ip) q = rw (q, check_access) (refl, refl)
    split unresolved q = rw (q, check_access) (refl, refl)

-- The rules of `e` permit the address of the endpoint, read or resolved.
abbrev IsPermitted : EgressPolicy → Moment → Engine → Endpoint → Type 0
IsPermitted p m e x =
    let env = m.outside.library.environment in
    permitted_at m.at_check e (address_of (locate env m.resolve (target_host env (check_ip p x))))
    ≡ true

-- In safe mode the endpoint is a safe destination, for the cache of names `dns`; and the policy permits it.
abbrev IsSafeEndpoint : EgressPolicy → Moment → Engine → DnsCache → Endpoint → Type 0
IsSafeEndpoint p m e dns x =
    IsSafeDestination m.outside dns (destination m.outside.library.environment x.candidate)
    × IsPermitted p m e x

abbrev IsSafeAt : EgressPolicy → Moment → Engine → DnsCache → Option Endpoint → Type 0
IsSafeAt p m e dns none = Unit
IsSafeAt p m e dns (some x) = IsSafeEndpoint p m e dns x

abbrev pub IsSafeArgument : EgressPolicy → Moment → Engine → DnsCache → Text → Type 0
IsSafeArgument p m e dns arg =
    IsSafeAt p m e dns (endpoint m.outside.library.environment (strip arg))

-- Each argument is safe for the cache at its turn.
abbrev pub AllArguments : EgressPolicy → (ℕ → Moment) → ℕ → Engine → DnsCache → List Text → Type 0
AllArguments p moments i e dns [] = Unit
AllArguments p moments i e dns (arg ∷ args) =
    IsSafeArgument p (moments i) e dns arg
    × AllArguments p moments (i + 1) e (cache_after (moments i) arg dns) args

abbrev is_allowed : Egress → Bool
is_allowed (egress_allowed dns e) = true
is_allowed (egress_refused dns e) = false
is_allowed egress_raised = false

abbrev pub engine_after : Engine → Egress → Engine
engine_after e (egress_allowed dns e') = e'
engine_after e (egress_refused dns e') = e'
engine_after e egress_raised = e

permitted_at-same :
    (now : ℕ) (e e' : Engine) (o : Option Address)
    → SameRules e e'
    → permitted_at now e' o ≡ true
    → permitted_at now e o ≡ true
permitted_at-same now e e' none s h = h
permitted_at-same now e e' (some ip) s h = rw (sym (s.0), sym (s.1)) h

module _ (p : EgressPolicy) (on : p.enforce_network_policy ≡ true)
    (strict : p.is_log_only ≡ false) where
  check_policy-IsPermitted :
      (m : Moment) (x : Endpoint) (dns : DnsCache) (e : Engine)
      → is_allowed (check_policy p m x dns e) ≡ true
      → IsPermitted p m e x × SameRules e (engine_after e (check_policy p m x dns e))
  unfolding check_policy
  check_policy-IsPermitted m x dns e h =
      let env = m.outside.library.environment in
      let allowed = check_access-permitted env m.resolve m.at_check (access_of p x) e in
      let same = check_access-SameRules env m.resolve m.at_check (access_of p x) e in
      (
        sym allowed ∙ ground (arith, h, on, strict),
        (ground (arith, same.0, on, strict), ground (arith, same.1, on, strict)),
      )

  after_target-IsSafe :
      (m : Moment) (x : Endpoint) (dns : DnsCache) (e : Engine) (c : TargetCheck)
      → IsLawful m.outside.library
      → validate_target m.outside x.candidate true dns ≡ c
      → is_allowed (after_target p m x e c) ≡ true
      → IsSafeEndpoint p m e dns x × SameRules e (engine_after e (after_target p m x e c))
  unfolding after_target
  after_target-IsSafe m x dns e (checked valid dns') law q h =
      let (permitted, rules) = check_policy-IsPermitted m x dns' e h in
      ((validate_target-IsSafe m.outside x.candidate dns dns' law q, permitted), rules)
  after_target-IsSafe m x dns e (checked (invalid reason) dns') law q h = absurd (ground (arith, h))
  after_target-IsSafe m x dns e value_error law q h = absurd (ground (arith, h))
  after_target-IsSafe m x dns e too_deep law q h = absurd (ground (arith, h))

  check_argument-IsSafe :
      (m : Moment) (arg : Text) (dns : DnsCache) (e : Engine)
      → IsLawful m.outside.library
      → is_allowed (check_argument p m true arg dns e) ≡ true
      → IsSafeArgument p m e dns arg
        × SameRules e (engine_after e (check_argument p m true arg dns e))
  unfolding check_argument
  check_argument-IsSafe m arg dns e law h =
      split (endpoint m.outside.library.environment (strip arg)) refl
    where
      skips :
          endpoint m.outside.library.environment (strip arg) ≡ none
          → check_argument p m true arg dns e ≡ egress_allowed dns e
      skips q = rw (q, check_argument) refl

      checks :
          {x : Endpoint}
          → endpoint m.outside.library.environment (strip arg) ≡ some x
          → check_argument p m true arg dns e
            ≡ after_target p m x e (validate_target m.outside x.candidate true dns)
      checks q = rw (q, check_argument) refl

      split :
          (o : Option Endpoint)
          → endpoint m.outside.library.environment (strip arg) ≡ o
          → IsSafeArgument p m e dns arg
            × SameRules e (engine_after e (check_argument p m true arg dns e))
      split none q = (
        subst (IsSafeAt p m e dns) (sym q) tt,
        subst (λ r. SameRules e (engine_after e r)) (sym (skips q)) (refl, refl),
      )
      split (some x) q =
          let (safe, rules) =
            after_target-IsSafe m x dns e (validate_target m.outside x.candidate true dns) law refl
              (ap is_allowed (sym (checks q)) ∙ h) in
          (
            subst (IsSafeAt p m e dns) (sym q) safe,
            subst (λ r. SameRules e (engine_after e r)) (sym (checks q)) rules,
          )

  IsSafeAt-same :
      (m : Moment) (e e' : Engine) (dns : DnsCache) (o : Option Endpoint)
      → SameRules e e'
      → IsSafeAt p m e' dns o
      → IsSafeAt p m e dns o
  IsSafeAt-same m e e' dns none s h = tt
  IsSafeAt-same m e e' dns (some x) s h = (
    h.0,
    permitted_at-same m.at_check e e'
        (address_of (
          locate m.outside.library.environment m.resolve
            (target_host m.outside.library.environment (check_ip p x))))
        s h.1,
  )

  AllArguments-IsSafe :
      (moments : ℕ → Moment) (i : ℕ) (args : List Text) (dns : DnsCache) (e e' : Engine)
      → ((k : ℕ) → IsLawful (moments k).outside.library)
      → SameRules e e'
      → is_allowed (validate_command_network_egress p moments i true args dns e') ≡ true
      → AllArguments p moments i e dns args
  unfolding validate_command_network_egress
  AllArguments-IsSafe moments i [] dns e e' law s h = tt
  AllArguments-IsSafe moments i (arg ∷ args) dns e e' law s h =
      split (check_argument p (moments i) true arg dns e') refl
        (λ (dns'' : DnsCache) (e'' : Engine).
          AllArguments-IsSafe moments (i + 1) args dns'' e e'' law)
    where
      steps :
          {r : Egress}
          → check_argument p (moments i) true arg dns e' ≡ r
          → validate_command_network_egress p moments i true (arg ∷ args) dns e' ≡ elim r [
            | egress_allowed dns'' e'' ↦
                validate_command_network_egress p moments (i + 1) true args dns'' e''
            | egress_refused dns'' e'' ↦ egress_refused dns'' e''
            | egress_raised ↦ egress_raised
          ]
      steps q = rw (q, validate_command_network_egress) refl

      split :
          (r : Egress)
          → check_argument p (moments i) true arg dns e' ≡ r
          → ((dns'' : DnsCache) (e'' : Engine)
              → SameRules e e''
              → is_allowed (validate_command_network_egress p moments (i + 1) true args dns'' e'')
                ≡ true
              → AllArguments p moments (i + 1) e dns'' args)
          → AllArguments p moments i e dns (arg ∷ args)
      split (egress_allowed dns'' e'') q rest =
          let (safe, rules) =
            check_argument-IsSafe (moments i) arg dns e' (law i) (ap is_allowed q) in
          let rules' = subst (λ r. SameRules e' (engine_after e' r)) q rules in
          (
            IsSafeAt-same (moments i) e e' dns
                (endpoint (moments i).outside.library.environment (strip arg)) s safe,
            subst (λ d. AllArguments p moments (i + 1) e d args)
                (sym (ap (kept_cache dns) q) ∙ check_argument-cache p (moments i) arg dns e')
                (rest dns'' e'' (rules'.0 ∙ s.0, rules'.1 ∙ s.1)
                  (ap is_allowed (sym (steps q)) ∙ h)),
          )
      split (egress_refused dns'' e'') q rest =
          absurd (ground (arith, ap is_allowed (sym (steps q)) ∙ h))
      split egress_raised q rest = absurd (ground (arith, ap is_allowed (sym (steps q)) ∙ h))

-- A command that is let through in safe mode, under a policy that is enforced and not only logged: each
-- argument that is taken for an endpoint is a safe destination, for the cache of names that the arguments before it
-- have left, and the rules that the engine has at the start permit the address that is checked for it.
pub egress-IsSafe :
    (p : EgressPolicy) (moments : ℕ → Moment) (args : List Text) (dns dns' : DnsCache)
    (e e' : Engine)
    → p.enforce_network_policy ≡ true
    → p.is_log_only ≡ false
    → ((k : ℕ) → IsLawful (moments k).outside.library)
    → validate_command_network_egress p moments 0 true args dns e ≡ egress_allowed dns' e'
    → AllArguments p moments 0 e dns args
egress-IsSafe p moments args dns dns' e e' on strict law h =
    AllArguments-IsSafe p on strict moments 0 args dns e e law (refl, refl) (ap is_allowed h)
