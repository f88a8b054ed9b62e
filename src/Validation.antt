-- ===== src/Validation.antt =====
-- backend/secuscan/validation.py: what a scan target, a port and a payload have to satisfy.
pub mod Networks
pub mod Allowed
pub mod Dns
pub mod Target
pub mod Egress
pub mod Ports
pub mod Sanitize
pub mod Webhook
pub mod Payload
pub mod Sample
mod Tests
