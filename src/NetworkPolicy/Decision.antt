-- ===== src/NetworkPolicy/Decision.antt =====
-- Which connections are allowed.
use secu_scan.Prelude.{
  ℕ, ◌≡◌, refl, Bool, false, not, ◌&&◌, Option, none, some, List, [], ◌∷◌, arith, any, Text,
  is_some,
}
use secu_scan.NetworkPolicy.Host.{
  Address, Environment, Resolver, target_host, egress_host, Located, literal, resolved, unresolved,
  locate,
}
use secu_scan.NetworkPolicy.Engine.{
  Rule, Engine, applies, first_match, Access, decide, conclude, check_access, permits,
  validate_egress_target,
}

-- The address that a host stands for.
abbrev pub address_of : Located → Option Address
address_of (literal ip) = some ip
address_of (resolved answer ip) = some ip
address_of unresolved = none

-- Some live rule of the list holds the address.
abbrev pub matches : ℕ → Address → List Rule → Bool
matches now ip rules = any (applies now ip) rules

pub first_match-matches :
    (now : ℕ) (ip : Address) (rules : List Rule)
    → is_some (first_match now ip rules) ≡ matches now ip rules
unfolding first_match
first_match-matches now ip [] = refl
first_match-matches now ip (r ∷ rs) = ground (arith, first_match-matches now ip rs)

-- Deny rules first, then allow rules, and nothing is allowed by default.
abbrev pub permitted : ℕ → Address → Engine → Bool
permitted now ip e = not (matches now ip e.denylist) && matches now ip e.allowlist

abbrev pub permitted_at : ℕ → Engine → Option Address → Bool
permitted_at now e none = false
permitted_at now e (some ip) = permitted now ip e

decide-permitted :
    (now : ℕ) (ip : Address) (e : Engine) → (decide now ip e).0.allowed ≡ permitted now ip e
unfolding decide
decide-permitted now ip e =
    ground (arith, first_match-matches now ip e.denylist, first_match-matches now ip e.allowlist)

permits-permitted : (now : ℕ) (ip : Address) (e : Engine) → permits now ip e ≡ permitted now ip e
unfolding permits
permits-permitted now ip e =
    ground (arith, first_match-matches now ip e.denylist, first_match-matches now ip e.allowlist)

-- `check_access` allows a connection exactly when its host stands for an address, read or resolved,
-- that no live rule of the denylist holds and some live rule of the allowlist does.
pub check_access-permitted :
    (env : Environment) (resolve : Resolver) (now : ℕ) (a : Access) (e : Engine)
    → (check_access env resolve now a e).0.allowed
      ≡ permitted_at now e (address_of (locate env resolve (target_host env a.dest_ip)))
unfolding check_access conclude
check_access-permitted env resolve now a e =
    split (locate env resolve (target_host env a.dest_ip)) refl
  where
    split :
        (l : Located)
        → locate env resolve (target_host env a.dest_ip) ≡ l
        → (check_access env resolve now a e).0.allowed ≡ permitted_at now e (address_of l)
    split (literal ip) q = rw (q, check_access) (decide-permitted now ip e)
    split (resolved answer ip) q = rw (q, check_access) (decide-permitted now ip e)
    split unresolved q = rw (q, check_access)

-- `validate_egress_target` decides by the same rule.
pub egress-permitted :
    (env : Environment) (resolve : Resolver) (now : ℕ) (host : Text) (e : Engine)
    → validate_egress_target env resolve now host e
      ≡ permitted_at now e (address_of (locate env resolve (egress_host env host)))
unfolding validate_egress_target
egress-permitted env resolve now host e = split (locate env resolve (egress_host env host)) refl
  where
    split :
        (l : Located)
        → locate env resolve (egress_host env host) ≡ l
        → validate_egress_target env resolve now host e ≡ permitted_at now e (address_of l)
    split (literal ip) q = rw (q, validate_egress_target) (permits-permitted now ip e)
    split (resolved answer ip) q = rw (q, validate_egress_target) (permits-permitted now ip e)
    split unresolved q = rw (q, validate_egress_target)
