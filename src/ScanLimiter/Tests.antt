-- ===== src/ScanLimiter/Tests.antt =====
-- The theorems of the scan limiter at concrete inputs.
use secu_scan.Prelude.{
  ℕ, ◌+◌, ◌≤◌, true, false, none, some, List, [], ◌∷◌, arith, Text, codes, text_eq_refl,
  text_eq_iff, Dict, lookup, or_default, insert, lookup-insert,
}
use secu_scan.ScanLimiter.{Settings, Request, get_client_ip, window_of}
use secu_scan.ScanLimiter.Quota.{passes-le-rate_limit, passes}
use secu_scan.ScanLimiter.Redis.{Client, State, make_key}
use secu_scan.ScanLimiter.Redis.Breaker.{Lawful}

abbrev settings : Settings
settings = record { rate_limit = 1; rate_window = 60; burst_limit = 5; burst_window = 3600 }

abbrev home : Text
home = codes "10.0.0.9"

abbrev two_requests : List (ℕ × Text)
two_requests = (1_000_000, home) ∷ (2_000_000, home) ∷ []

passes-le-rate_limit_example : passes settings home 0 [] 0 two_requests ≤ 1
passes-le-rate_limit_example =
    passes-le-rate_limit settings home 0 two_requests (omega arith, omega arith)
      (omega arith, (omega arith, tt))

-- A Redis that counts, and is never down.
abbrev counted : Text → Dict ℕ → ℕ
counted k d = or_default 0 (lookup k d)

abbrev redis : Client
redis = record {
  Store = Dict ℕ;
  ping = λ d. (true, d);
  incr_expire = λ k ttl d. (some (counted k d + 1), insert k (counted k d + 1) d);
}

redis-Lawful : Lawful redis
redis-Lawful = record {
  count = λ d k. counted k d;
  answer = λ k ttl n r e. cc e;
  own = λ k ttl n r e. ground (arith, lookup-insert k k (counted k r + 1) r, text_eq_refl k);
  others = λ j k ttl r ne. ground (arith, lookup-insert j k (counted k r + 1) r, text_eq_iff j k);
}

abbrev from_home : Request
from_home = record { forwarded_for = none; host = some home }

abbrev up : State redis
up = record { settings = settings; redis = some []; redis_failed = false; fallback_history = [] }

abbrev minute : Text
minute = make_key (get_client_ip from_home) (codes "minute") (window_of 5_000_000 60)

abbrev hour : Text
hour = make_key (get_client_ip from_home) (codes "hour") (window_of 5_000_000 3600)

abbrev after_minute : Dict ℕ
after_minute = (redis.incr_expire minute 120 []).1

-- A Redis that is down.
abbrev down : Client
down = record { Store = Unit {0}; ping = λ d. (false, d); incr_expire = λ k ttl d. (none, d) }

abbrev healthy : State down
healthy = record {
  settings = settings;
  redis = some tt;
  redis_failed = false;
  fallback_history = [];
}
