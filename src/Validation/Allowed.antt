-- ===== src/Validation/Allowed.antt =====
-- `_net_within_allowed_networks`: the operator's list of networks that may be scanned.
use secu_scan.Prelude.{
  read_from, ℕ, ◌+◌, ◌-◌, ◌*◌, Bool, true, false, not, ◌&&◌, ◌||◌, Option, none, some, List, [],
  ◌∷◌, ltb, ◌==◌, if◌then◌else◌, length, filter, any, Text, codes, text_eq, strip,
}
use secu_scan.NetworkPolicy.Host.{v4, same_version, Network, Environment, is_digits}
use secu_scan.Ratelimit.Identity.{split_on}
use secu_scan.Validation.Networks.{network_address, is_single, overlaps, subnet_of}

-- What validation.py reads of `settings`
pub record Settings : Type 0 where
  pub allowed_networks : List Text
  pub allow_loopback_scans : Bool
  pub dns_cache_ttl_seconds : ℕ
  pub dns_rebind_check : Bool

-- The standard library: the readers of addresses and URLs, `str` of a network, and `fnmatch`.
pub record Library : Type 0 where
  pub environment : Environment
  pub str_network : Network → Text
  pub fnmatch : Text → Text → Bool

unfoldable pub prepend : ℕ → Option (List ℕ) → Option (List ℕ)
prepend value none = none
prepend value (some fixed) = some (value ∷ fixed)

-- The octets of a pattern: a `*` counts as 0, and only `*` follows a `*`.
unfoldable pub wildcard_octets : Bool → List Text → Option (List ℕ)
unfolding prepend
wildcard_octets started [] = some []
wildcard_octets started (part ∷ parts) =
    let wild = prepend 0 (wildcard_octets true parts) in
    let value = read_from 0 part in
    let plain = prepend value (wildcard_octets false parts) in
    if text_eq part (codes "*")
    then wild
    else if started || not (is_digits part) || ltb 255 value
    then none
    else plain

unfoldable pub octets_value : ℕ → List ℕ → ℕ
octets_value acc [] = acc
octets_value acc (n ∷ ns) = octets_value (acc * 256 + n) ns

-- `wildcard_to_net`
unfoldable pub wildcard_to_net : Text → Option Network
unfolding wildcard_octets octets_value
wildcard_to_net pattern =
    let parts = split_on b'.' pattern in
    let wild = length (filter (λ part. text_eq part (codes "*")) parts) in
    if length parts == 4
    then elim (wildcard_octets false parts) [
      | none ↦ none
      | some fixed ↦
          if wild == 0
          then none
          else some (record { family = v4; base = octets_value 0 fixed; prefix = (4 - wild) * 8 })
    ]
    else none

-- `[str(p).strip() for p in allowed_networks if str(p).strip()]`
unfoldable pub patterns_of : List Text → List Text
patterns_of [] = []
patterns_of (p ∷ ps) =
    let rest = patterns_of ps in elim (strip p) [ [] ↦ rest | c ∷ t ↦ (c ∷ t) ∷ rest ]

-- One round of the loop for a single address
unfoldable pub admits_single : Library → Network → Text → Bool
admits_single lib net pattern = elim (lib.environment.ip_network pattern) [
  | some allowed ↦
      same_version net.family allowed.family && (subnet_of net allowed || overlaps net allowed)
  | none ↦
      elim (wildcard_to_net pattern) [
        | some converted ↦ same_version net.family converted.family && subnet_of net converted
        | none ↦ false
      ]
      || lib.fnmatch (lib.environment.str_address (network_address net)) pattern
]

-- One round of the loop for a network of several addresses
unfoldable pub admits_network : Library → Network → Text → Bool
admits_network lib net pattern =
    let within =
      λ (allowed : Network). same_version net.family allowed.family && subnet_of net allowed in
    elim (lib.environment.ip_network pattern) [
      | some allowed ↦ within allowed
      | none ↦ elim (wildcard_to_net pattern) [ some allowed ↦ within allowed | none ↦ false ]
    ]

-- `_net_within_allowed_networks`
unfoldable pub net_within_allowed_networks : Settings → Library → Network → Bool
unfolding patterns_of
net_within_allowed_networks c lib net = elim (patterns_of c.allowed_networks) [
  | [] ↦ true
  | p ∷ ps ↦
      if is_single net
      then any (admits_single lib net) (p ∷ ps)
      else any (admits_network lib net) (p ∷ ps)
]
