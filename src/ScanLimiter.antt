-- ===== src/ScanLimiter.antt =====
-- backend/secuscan/rate_limiter.py: `ScanRateLimiter`, which counts requests in Redis, or in memory
-- where Redis is missing or down. `now` is `time.time()` in microseconds.
pub mod Keys
pub mod Fallback
pub mod Quota
pub mod Redis
mod Tests
use secu_scan.Prelude.{
  show, show-injective, show-no_colon, ℕ, zero, suc, ◌+◌, ◌-◌, ◌*◌, ◌/◌, ◌%◌, ◌^◌, ◌≤◌, ◌<◌, min,
  max, ◌≡◌, refl, sym, ap, ◌∙◌, subst, ◌≢◌, ◌↔◌, ◌⊎◌, inl, inr, Bool, true, false, not, ◌&&◌, ◌||◌,
  Option, none, some, List, [], ◌∷◌, ◌++◌, map, arith, ltb, leb, ◌==◌, if◌then◌else◌, ltb→lt,
  lt→ltb, leb→le, ==_iff, Bool-cases, Option-cases, length, length-append, filter, any, all, take,
  drop, All, length-filter-le, filter-append, filter_idem, length-drop, Text, codes, text_eq,
  text_eq_refl, text_eq_iff, is_space, lstrip, strip, lower, starts_with, ends_with, has_char,
  text_in, ends_with-append, split_last_unique, Dict, lookup, is_some, or_default, insert, erase,
  lookup-insert, lookup-erase, keys,
}
use secu_scan.Ratelimit.Identity.{split_on}
use secu_scan.Ratelimit.Endpoint.{second, entry, sweep}

pub record Settings : Type 0 where
  pub rate_limit : ℕ
  pub rate_window : ℕ
  pub burst_limit : ℕ
  pub burst_window : ℕ

-- `request.headers.get("X-Forwarded-For")` and `request.client.host`
pub record Request : Type 0 where
  pub forwarded_for : Option Text
  pub host : Option Text

first_of : List Text → Text
first_of [] = []
first_of (t ∷ ts) = strip t

-- `_get_client_ip`
pub get_client_ip : Request → Text
unfolding first_of
get_client_ip r = elim r.forwarded_for [
  | none ↦ or_default (codes "unknown") r.host
  | some xff ↦ elim xff [
    | [] ↦ or_default (codes "unknown") r.host
    | c ∷ t ↦ first_of (split_on b',' (c ∷ t))
  ]
]

-- How a check ends: the request passes, it is answered 429 with a `Retry-After` under one of two
-- error names, or a window of 0 divides by zero.
pub data Verdict : Type 0 where
  passed : Verdict
  rate_limit_exceeded burst_limit_exceeded : ℕ → Verdict
  zero_division : Verdict

-- `int(now // window)`, and `window - int(now) % window`
abbrev pub window_of : ℕ → ℕ → ℕ
window_of now w = now / second / w

abbrev pub retry_after : ℕ → ℕ → ℕ
retry_after now w = w - (now / second) % w

-- `f"{ip}:minute:{minute_window}"` and `f"{ip}:hour:{hour_window}"`
unfoldable pub bucket_min : Text → ℕ → Text
bucket_min ip n = (ip ++ codes ":minute") ++ b':' ∷ show n

unfoldable pub bucket_hr : Text → ℕ → Text
bucket_hr ip n = (ip ++ codes ":hour") ++ b':' ∷ show n

-- A read of the `defaultdict(list)` leaves an entry behind.
abbrev pub touch : Text → Dict (List ℕ) → Dict (List ℕ)
touch k d = insert k (entry k d) d

abbrev pub append_at : Text → ℕ → Dict (List ℕ) → Dict (List ℕ)
append_at k now d = insert k (entry k d ++ now ∷ []) d

-- The stale entries go.
pub clean_stale : Settings → ℕ → Dict (List ℕ) → Dict (List ℕ)
clean_stale c now d = sweep (max c.rate_window c.burst_window * second) now (keys d) d

-- The two counts, once the stale entries are gone.
pub count_fallback : Settings → ℕ → Text → Text → Dict (List ℕ) → Verdict × Dict (List ℕ)
count_fallback c now minute hour d =
    let d' = touch minute d in
    if ltb c.rate_limit (length (entry minute d') + 1)
    then (rate_limit_exceeded (retry_after now c.rate_window), d')
    else let d'' = touch hour d' in
      if ltb c.burst_limit (length (entry hour d'') + 1)
      then (burst_limit_exceeded (retry_after now c.burst_window), d'')
      else (passed, append_at hour now (append_at minute now d''))

-- `_check_fallback`
pub check_fallback : Settings → ℕ → Text → Dict (List ℕ) → Verdict × Dict (List ℕ)
check_fallback c now ip d =
    if c.rate_window == 0 || c.burst_window == 0
    then (zero_division, d)
    else count_fallback c now (bucket_min ip (window_of now c.rate_window))
        (bucket_hr ip (window_of now c.burst_window)) (clean_stale c now d)
