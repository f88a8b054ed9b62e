-- ===== src/ScanLimiter/Redis.antt =====
-- `ScanRateLimiter.check` over a Redis client, which is not part of the repository: `ping` and the
-- pipeline of INCR and EXPIRE are parameters, which answer or raise.
pub mod Breaker
use secu_scan.Prelude.{
  show, show-injective, show-no_colon, ℕ, zero, suc, ◌+◌, ◌-◌, ◌*◌, ◌/◌, ◌%◌, ◌^◌, ◌≤◌, ◌<◌, min,
  max, ◌≡◌, refl, sym, ap, ◌∙◌, subst, ◌≢◌, ◌↔◌, ◌⊎◌, inl, inr, Bool, true, false, not, ◌&&◌, ◌||◌,
  Option, none, some, List, [], ◌∷◌, ◌++◌, map, arith, ltb, leb, ◌==◌, if◌then◌else◌, ltb→lt,
  lt→ltb, leb→le, ==_iff, Bool-cases, Option-cases, length, length-append, filter, any, all, take,
  drop, All, length-filter-le, filter-append, filter_idem, length-drop, Text, codes, text_eq,
  text_eq_refl, text_eq_iff, is_space, lstrip, strip, lower, starts_with, ends_with, has_char,
  text_in, ends_with-append, split_last_unique, Dict, lookup, is_some, or_default, insert, erase,
  lookup-insert, lookup-erase, keys,
}
use secu_scan.Ratelimit.Endpoint.{second}
use secu_scan.ScanLimiter.{
  Settings, Request, get_client_ip, Verdict, passed, rate_limit_exceeded, burst_limit_exceeded,
  zero_division, window_of, retry_after, check_fallback,
}

pub record Client : Type 1 where
  pub Store : Type 0
  pub ping : Store → Bool × Store
  pub incr_expire : Text → ℕ → Store → Option ℕ × Store

-- `_make_key`
unfoldable pub make_key : Text → Text → ℕ → Text
make_key ip window_type window_value =
    ((codes "rate_limit:scan:" ++ ip) ++ b':' ∷ window_type) ++ b':' ∷ show window_value

module _ (client : Client) where
  open client use {Store, ping, incr_expire}

  -- `redis` is `None` where no client is configured.
  pub record State : Type 0 where
    pub settings : Settings
    pub redis : Option Store
    pub redis_failed : Bool
    pub fallback_history : Dict (List ℕ)

  pub use_fallback : State → ℕ → Text → Verdict × State
  use_fallback s now ip =
      let (v, d) = check_fallback s.settings now ip s.fallback_history in
      (v, record s { fallback_history = d })

  -- `except Exception`: the breaker opens, and the fallback answers.
  pub fail_over : State → ℕ → Text → Store → Verdict × State
  unfolding use_fallback
  fail_over s now ip r = use_fallback (record s { redis = some r; redis_failed = true }) now ip

  -- Tier 2
  pub check_hour : State → ℕ → Text → Store → Verdict × State
  check_hour s now ip r =
      if s.settings.burst_window == 0
      then fail_over s now ip r
      else let key = make_key ip (codes "hour") (window_of now s.settings.burst_window) in
        let (answer, r') = incr_expire key (s.settings.burst_window * 2) r in
        elim answer [
          | none ↦ fail_over s now ip r'
          | some count ↦ (
            (if ltb s.settings.burst_limit count
                then burst_limit_exceeded (retry_after now s.settings.burst_window)
                else passed),
            record s { redis = some r' },
          )
        ]

  -- Tier 1
  pub check_minute : State → ℕ → Text → Store → Verdict × State
  check_minute s now ip r =
      if s.settings.rate_window == 0
      then fail_over s now ip r
      else let key = make_key ip (codes "minute") (window_of now s.settings.rate_window) in
        let (answer, r') = incr_expire key (s.settings.rate_window * 2) r in
        elim answer [
          | none ↦ fail_over s now ip r'
          | some count ↦
              if ltb s.settings.rate_limit count
              then (
                rate_limit_exceeded (retry_after now s.settings.rate_window),
                record s { redis = some r' },
              )
              else check_hour s now ip r'
        ]

  -- The circuit breaker: a limiter that has failed pings before it counts in Redis again.
  pub check_redis : State → ℕ → Text → Store → Verdict × State
  check_redis s now ip r =
      if s.redis_failed
      then (let (alive, r') = ping r in
          if alive
          then check_minute (record s { redis = some r'; redis_failed = false }) now ip r'
          else use_fallback (record s { redis = some r' }) now ip)
      else check_minute s now ip r

  pub check : State → ℕ → Request → Verdict × State
  check s now request = if s.settings.rate_limit == 0 then (passed, s) else elim s.redis [
    | none ↦ use_fallback s now (get_client_ip request)
    | some r ↦ check_redis s now (get_client_ip request) r
  ]

  -- `reset()`
  pub reset : State → State
  reset s = record s { fallback_history = []; redis_failed = false }
