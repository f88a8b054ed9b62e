-- ===== src/Validation/Target/Safe.antt =====
-- What safe mode lets through.
use secu_scan.Prelude.{
  ℕ, ◌≡◌, refl, sym, ap, ◌∙◌, subst, ◌≢◌, inl, inr, Bool, true, false, List, [], ◌∷◌, ◌++◌, arith,
  Bool-cases, any, All,
}
use secu_scan.NetworkPolicy.Host.{Version, v4, v6, same_version, Address, Network, contains}
use secu_scan.Validation.Networks.{
  single, is_loopback_address, is_loopback, is_blocked, is_private, blocked_networks,
  allowed_private, network_address, broadcast_address,
}
use secu_scan.Validation.Networks.Overlap.{
  is_blocked-disjoint, is_private-contains, single-contains,
}
use secu_scan.Validation.Allowed.{Settings, Library, net_within_allowed_networks}
use secu_scan.Validation.Dns.{same_address, unseen}
use secu_scan.Validation.Target.{
  Validity, valid, invalid, validate_ips, validate_resolved_ips_safe_mode, validate_network,
}

-- An address that safe mode may reach.
abbrev pub IsSafe : Settings → Library → Address → Type 0
IsSafe c lib ip =
    (any (λ blocked. contains blocked ip) blocked_networks ≡ false)
    × (any (λ allowed. contains allowed ip) allowed_private ≡ true)
    × (is_loopback_address ip ≡ true → c.allow_loopback_scans ≡ true)
    × (net_within_allowed_networks c lib (single ip) ≡ true)

abbrev pub is_valid : Validity → Bool
is_valid valid = true
is_valid (invalid reason) = false

validate_ips-IsSafe :
    (c : Settings) (lib : Library) (ips : List Address)
    → validate_ips c lib ips ≡ valid
    → All (IsSafe c lib) ips
unfolding validate_ips
validate_ips-IsSafe c lib [] h = tt
validate_ips-IsSafe c lib (ip ∷ ips) h = (
  (
    is_blocked-disjoint (single ip) ip (ground arith) (single-contains ip),
    is_private-contains ip (ground arith),
    ground arith,
    ground arith,
  ),
  validate_ips-IsSafe c lib ips (ground arith),
)

same_version→eq : (u v : Version) → same_version u v ≡ true → u ≡ v
same_version→eq v4 v4 h = refl
same_version→eq v6 v6 h = refl
same_version→eq v4 v6 h = cc
same_version→eq v6 v4 h = cc

same_address→eq : (a b : Address) → same_address a b ≡ true → a ≡ b
unfolding same_address
same_address→eq a b h = ground (arith, same_version→eq a.version b.version)

All-any {κ} :
    (P : Address → Type κ) (ip : Address) (seen : List Address)
    → All P seen
    → any (same_address ip) seen ≡ true
    → P ip
All-any P ip [] h found = absurd (ground (arith, found))
All-any P ip (a ∷ seen) h found = elim (Bool-cases (same_address ip a)) [
  | inl same ↦ subst P (sym (same_address→eq ip a same)) h.0
  | inr other ↦ All-any P ip seen h.1 (ground (arith, found, other))
]

-- What holds of the addresses that are kept holds of those that are dropped.
pub unseen-All {κ} :
    (P : Address → Type κ) (seen ips : List Address)
    → All P seen
    → All P (unseen seen ips)
    → All P ips
unfolding unseen
unseen-All P seen [] old h = tt
unseen-All P seen (ip ∷ ips) old h = elim (Bool-cases (any (same_address ip) seen)) [
  | inl again ↦
      (All-any P ip seen old again, unseen-All P seen ips old (subst (All P) (dropped again) h))
  | inr first ↦
      let kept = subst (All P) (added first) h in
      (kept.0, unseen-All P (ip ∷ seen) ips (kept.0, old) kept.1)
]
  where
    dropped : any (same_address ip) seen ≡ true → unseen seen (ip ∷ ips) ≡ unseen seen ips
    dropped again = ground (arith, again)

    added :
        any (same_address ip) seen ≡ false → unseen seen (ip ∷ ips) ≡ ip ∷ unseen (ip ∷ seen) ips
    added first = ground (arith, first)

pub All-append_right {κ} :
    (P : Address → Type κ) (xs ys : List Address) → All P (xs ++ ys) → All P ys
All-append_right P [] ys h = h
All-append_right P (x ∷ xs) ys h = All-append_right P xs ys h.1

pub resolved-IsSafe :
    (c : Settings) (lib : Library) (ips : List Address)
    → validate_resolved_ips_safe_mode c lib ips ≡ valid
    → (ips ≢ []) × All (IsSafe c lib) ips
unfolding validate_resolved_ips_safe_mode
resolved-IsSafe c lib [] h = absurd (ground (arith, ap is_valid h))
resolved-IsSafe c lib (ip ∷ ips) h = (cc, validate_ips-IsSafe c lib (ip ∷ ips) h)

is_loopback-single : (ip : Address) → is_loopback (single ip) ≡ is_loopback_address ip
unfolding is_loopback single network_address broadcast_address
is_loopback-single ip = split ip.version ip.value
  where
    split :
        (v : Version) (n : ℕ)
        → is_loopback (single (record { version = v; value = n }))
          ≡ is_loopback_address (record { version = v; value = n })
    split v4 n = ground arith
    split v6 n = ground arith

-- A network that safe mode may reach.
abbrev pub IsSafeNetwork : Settings → Library → Network → Type 0
IsSafeNetwork c lib net =
    ((ip : Address)
      → contains net ip ≡ true
      → any (λ blocked. contains blocked ip) blocked_networks ≡ false)
    × ((ip : Address) → net ≡ single ip → IsSafe c lib ip)

network_accepted :
    (c : Settings) (lib : Library) (net : Network)
    → validate_network c lib net true ≡ valid
    → (is_blocked net ≡ false)
      × (is_private net ≡ true)
      × (is_loopback net ≡ true → c.allow_loopback_scans ≡ true)
      × (net_within_allowed_networks c lib net ≡ true)
unfolding validate_network
network_accepted c lib net h = (ground arith, ground arith, ground arith, ground arith)

single_accepted :
    (c : Settings) (lib : Library) (ip : Address)
    → validate_network c lib (single ip) true ≡ valid
    → IsSafe c lib ip
single_accepted c lib ip h =
    let (b, p, l, w) = network_accepted c lib (single ip) h in
    (
      is_blocked-disjoint (single ip) ip b (single-contains ip),
      is_private-contains ip p,
      λ back. l (is_loopback-single ip ∙ back),
      w,
    )

pub validate_network-IsSafe :
    (c : Settings) (lib : Library) (net : Network)
    → validate_network c lib net true ≡ valid
    → IsSafeNetwork c lib net
validate_network-IsSafe c lib net h = (
  λ ip inside. is_blocked-disjoint net ip (network_accepted c lib net h).0 inside,
  λ ip e. single_accepted c lib ip (subst (λ n. validate_network c lib n true ≡ valid) e h),
)
