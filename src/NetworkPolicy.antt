-- ===== src/NetworkPolicy.antt =====
-- backend/secuscan/network_policy.py: `NetworkPolicyEngine`, the egress rules and their audit trail.
-- What parses addresses, networks and URLs and what asks the DNS is a parameter, `Environment`.
pub mod Host
pub mod Engine
pub mod Pin
pub mod Decision
pub mod Audit
pub mod Defaults
pub mod Pinning
pub mod Notation
mod Tests
