-- ===== src/Ratelimit.antt =====
-- backend/secuscan/ratelimit.py: the in-process rate limiters. Instants and durations are
-- microseconds since a fixed origin, as natural numbers. Each method runs under the object's lock
-- and without a wait, so a history is a sequence of whole calls.
pub mod Window
pub mod Hourly
pub mod Concurrent
pub mod Interval
pub mod Endpoint
pub mod Identity
mod Tests
