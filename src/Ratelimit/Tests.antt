-- ===== src/Ratelimit/Tests.antt =====
-- The theorems of the limiters at concrete inputs.
use secu_scan.Ratelimit.Endpoint.Outcomes.{Fits, call-Fits}
use secu_scan.Prelude.{
  ℕ, ◌+◌, ◌*◌, ◌≤◌, ◌<◌, ◌≡◌, refl, ◌↔◌, true, none, some, List, [], ◌∷◌, arith, length, Text,
  codes, text_eq, text_in, lookup, insert, keys,
}
use secu_scan.Ratelimit.Window.{recent, in_window_at}
use secu_scan.Ratelimit.Hourly.{RateLimiter, Call, hour}
use secu_scan.Ratelimit.Hourly.Quota.{hourly_quota, granted}
use secu_scan.Ratelimit.Concurrent.{acquire, release, get_available_slots}
use secu_scan.Ratelimit.Concurrent.Slots.{Reach-slots, here, next, acquires}
use secu_scan.Ratelimit.Endpoint.{
  cleanup_expired_identities, refuse, call, admit, entry, window, second, seconds_left,
}
use secu_scan.Ratelimit.Endpoint.Quota.{endpoint_quota, accepts, is_accepted}
use secu_scan.Ratelimit.Endpoint.Retry.{retry_of, retry_after_accepted}
use secu_scan.Ratelimit.Identity.{Request, absent, resolve_client_identity}
use secu_scan.Ratelimit.Identity.Trust.{identity_unforgeable, forwarded}
use secu_scan.Ratelimit.Hourly.Quota as HourlyQuota
use secu_scan.Ratelimit.Endpoint.Quota as EndpointQuota
use secu_scan.Ratelimit.Concurrent as Concurrent
use secu_scan.Ratelimit.Endpoint as Endpoint

abbrev nmap : Text
nmap = codes "nmap"

abbrev alice : Text
alice = codes "alice"

abbrev nmap_call : ℕ → Call
nmap_call now = record { now = now; plugin_id = nmap; max_per_hour = 1; client_id = alice }

abbrev alice_nmap : Text
alice_nmap = codes "alice:nmap"

hourly_quota_example :
    length (
      in_window_at hour 9
        (granted alice_nmap HourlyQuota.start [] (nmap_call 5 ∷ nmap_call 9 ∷ [])))
    ≤ 1
hourly_quota_example =
    hourly_quota alice_nmap 1 9 (nmap_call 5 ∷ nmap_call 9 ∷ []) (omega arith, (omega arith, tt))
      (λ e. omega arith, (λ e. omega arith, tt))

abbrev busy : RateLimiter
busy = record { task_history = (alice_nmap, 5 ∷ []) ∷ [] }

abbrev ping_call : Call
ping_call = record { now = 7; plugin_id = codes "ping"; max_per_hour = 1; client_id = alice }

abbrev one_slot : Concurrent.Limiter
one_slot = (acquire (Concurrent.init 2) nmap).2

Reach-slots_example :
    (length one_slot.running_tasks ≤ 2)
    × (get_available_slots one_slot + length one_slot.running_tasks ≡ 2)
    × (((acquire one_slot alice).0 ≡ true) ↔ (0 < get_available_slots one_slot))
Reach-slots_example = Reach-slots 2 one_slot alice (next here (acquires (Concurrent.init 2) nmap))

abbrev three_runs : List (ℕ × Text)
three_runs = (0, nmap) ∷ (3, nmap) ∷ (12, nmap) ∷ []

abbrev full : Endpoint.Limiter
full = record {
  limit = 1;
  window_seconds = 60;
  history = (alice, 1_500_000 ∷ []) ∷ [];
  last_cleanup = none;
}

endpoint_quota_example :
    length (
      in_window_at
        (60 * 1_000_000)
        9
        (accepts alice (EndpointQuota.start 1 60) [] ((5, alice) ∷ (9, alice) ∷ [])))
    ≤ 1
endpoint_quota_example =
    endpoint_quota alice 1 60 9 ((5, alice) ∷ (9, alice) ∷ []) (omega arith, (omega arith, tt))

-- The oldest request is at 1.5 s and the refusal at 2 s, so that 59.5 s are left and the
-- `Retry-After` is 59.
refused_first : retry_of (call full 2_000_000 alice).0 ≡ some 59
unfolding call admit refuse lookup text_eq cleanup_expired_identities seconds_left insert
    Endpoint.too_early Endpoint.sweep keys Endpoint.store
refused_first = refl

retry_after_accepted_example :
    is_accepted (call (call full 2_000_000 alice).1 62_000_000 alice).0 ≡ true
unfolding lookup text_eq
retry_after_accepted_example =
    retry_after_accepted full 2_000_000 62_000_000 59 alice (omega arith) (omega arith, tt)
      refused_first (omega arith)

abbrev direct : Request
direct = record { headers = []; user_id = none; user = absent; host = some (codes "10.0.0.9") }

identity_unforgeable_example :
    resolve_client_identity (codes "10.0.0.1" ∷ []) (forwarded (codes "1.2.3.4") direct)
    ≡ resolve_client_identity (codes "10.0.0.1" ∷ []) direct
unfolding text_in text_eq
identity_unforgeable_example =
    identity_unforgeable (codes "10.0.0.1" ∷ []) (codes "1.2.3.4") direct refl

call-Fits_example :
    Fits full
      (length (recent (window full) 2_000_000 (entry alice full.history)))
      (call full 2_000_000 alice).0
unfolding lookup text_eq
call-Fits_example = call-Fits full 2_000_000 alice (omega arith, tt)
