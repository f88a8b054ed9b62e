-- ===== src/Validation/Networks.antt =====
-- The networks of `ipaddress`, and the constants that the guardrails compare a target with.
pub mod Overlap
use secu_scan.Prelude.{ℕ, ◌+◌, ◌-◌, ◌*◌, ◌^◌, Bool, ◌&&◌, ◌||◌, List, [], ◌∷◌, leb, ◌==◌, any}
use secu_scan.NetworkPolicy.Host.{Version, v4, v6, bits, same_version, Address, Network, contains}

-- `net.network_address` and `net.broadcast_address`
unfoldable pub network_address : Network → Address
network_address net = record { version = net.family; value = net.base }

unfoldable pub broadcast_address : Network → Address
broadcast_address net = record {
  version = net.family;
  value = net.base + (2 ^ (bits net.family - net.prefix) - 1);
}

-- `net.num_addresses == 1`
unfoldable pub is_single : Network → Bool
is_single net = net.prefix == bits net.family

-- `ipaddress.ip_network(ip, strict=False)` of an address
unfoldable pub single : Address → Network
single ip = record { family = ip.version; base = ip.value; prefix = bits ip.version }

-- `net.overlaps(other)`
unfoldable pub overlaps : Network → Network → Bool
unfolding network_address broadcast_address
overlaps net other =
    contains net (network_address other)
    || contains net (broadcast_address other)
    || contains other (network_address net)
    || contains other (broadcast_address net)

-- `net.subnet_of(other)`, of networks of one version
unfoldable pub subnet_of : Network → Network → Bool
unfolding network_address broadcast_address
subnet_of net other =
    leb (network_address other).value (network_address net).value
    && leb (broadcast_address net).value (broadcast_address other).value

abbrev pub ipv4 : ℕ → ℕ → ℕ → ℕ → ℕ → Network
ipv4 a b c d prefix = record {
  family = v4;
  base = ((a * 256 + b) * 256 + c) * 256 + d;
  prefix = prefix;
}

-- `BLOCKED_NETWORKS`
abbrev pub blocked_networks : List Network
blocked_networks = ipv4 0 0 0 0 8 ∷ ipv4 169 254 0 0 16 ∷ ipv4 224 0 0 0 4 ∷ []

-- `ALLOWED_PRIVATE`
abbrev pub allowed_private : List Network
allowed_private = ipv4 10 0 0 0 8 ∷ ipv4 172 16 0 0 12 ∷ ipv4 192 168 0 0 16 ∷ ipv4 127 0 0 0 8 ∷ []

-- `ip.is_loopback` of an address, and of a network by its first and its last address
unfoldable pub is_loopback_address : Address → Bool
is_loopback_address ip = elim ip.version [
  | v4 ↦ contains (ipv4 127 0 0 0 8) ip
  | v6 ↦ ip.value == 1
]

unfoldable pub is_loopback : Network → Bool
is_loopback net =
    is_loopback_address (network_address net) && is_loopback_address (broadcast_address net)

-- `any(net.overlaps(blocked) for blocked in BLOCKED_NETWORKS)`
unfoldable pub is_blocked : Network → Bool
is_blocked net = any (overlaps net) blocked_networks

-- The test of `is_private`, in safe mode
unfoldable pub is_private : Network → Bool
is_private net =
    any
      (λ allowed.
        same_version net.family allowed.family && (subnet_of net allowed || overlaps net allowed))
      allowed_private
