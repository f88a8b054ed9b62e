-- ===== src/ScanLimiter/Redis/Breaker.antt =====
-- What `check` answers with Redis up, and with Redis down.
use secu_scan.Prelude.{
  show, show-no_colon, ℕ, ◌+◌, ◌*◌, ◌<◌, ◌≡◌, refl, ◌≢◌, true, false, none, some, ◌∷◌, ◌++◌, arith,
  ltb, if◌then◌else◌, Text, codes, has_char, split_last_unique,
}
use secu_scan.ScanLimiter.{
  Request, get_client_ip, Verdict, passed, rate_limit_exceeded, burst_limit_exceeded, window_of,
  retry_after, check_fallback,
}
use secu_scan.ScanLimiter.Redis.{
  Client, make_key, State, use_fallback, fail_over, check_hour, check_minute, check_redis, check,
}

-- What INCR is documented to do: it adds 1 to the key's count, answers with it, and leaves the counts
-- of other keys alone.
pub record Lawful (client : Client) : Type 0 where
  pub count : client.Store → Text → ℕ
  pub answer :
      (k : Text) (ttl n : ℕ) (r : client.Store)
      → (client.incr_expire k ttl r).0 ≡ some n
      → n ≡ count r k + 1
  pub own :
      (k : Text) (ttl n : ℕ) (r : client.Store)
      → (client.incr_expire k ttl r).0 ≡ some n
      → count (client.incr_expire k ttl r).1 k ≡ count r k + 1
  pub others :
      (j k : Text) (ttl : ℕ) (r : client.Store)
      → j ≢ k
      → count (client.incr_expire k ttl r).1 j ≡ count r j

make_key-kinds :
    (ip : Text) (m n : ℕ) → make_key ip (codes "hour") n ≢ make_key ip (codes "minute") m
unfolding make_key has_char
make_key-kinds ip m n e =
    let head = codes "rate_limit:scan:" ++ ip in
    let (front, back) =
      split_last_unique b':' (head ++ b':' ∷ codes "hour") (head ++ b':' ∷ codes "minute") (show n)
        (show m) (show-no_colon n) (show-no_colon m) e in
    cc ((split_last_unique b':' head head (codes "hour") (codes "minute") refl refl front).1)

module _ (client : Client) where
  -- The verdict and the state of the fallback for the address of `request`.
  abbrev pub InMemory : State client → ℕ → Request → Verdict × State client → Type 0
  InMemory s now request (v, s') =
      let (w, d) = check_fallback s.settings now (get_client_ip request) s.fallback_history in
      (v ≡ w) × (s'.fallback_history ≡ d)

  -- A check with limiting on falls back to memory where no client is configured, where the breaker is
  -- open and the ping fails, and where the first pipeline raises; the breaker is then open, unless no
  -- client is configured.
  pub outage_limits :
      (s : State client) (now : ℕ) (request : Request) (r : client.Store)
      → 0 < s.settings.rate_limit
      → (s.redis ≡ none → InMemory s now request (check client s now request))
        × (s.redis ≡ some r
            → s.redis_failed ≡ true
            → (client.ping r).0 ≡ false
            → InMemory s now request (check client s now request)
              × ((check client s now request).1.redis_failed ≡ true))
        × (s.redis ≡ some r
            → s.redis_failed ≡ false
            → ((ip : Text) (ttl : ℕ) → (client.incr_expire ip ttl r).0 ≡ none)
            → InMemory s now request (check client s now request)
              × ((check client s now request).1.redis_failed ≡ true))
  unfolding check check_redis check_minute fail_over use_fallback
  outage_limits s now request r on = (
    λ e. ground arith,
    λ e f p. ground arith,
    λ e f p. ground (
      arith,
      p (make_key (get_client_ip request) (codes "minute") (window_of now s.settings.rate_window))
          (s.settings.rate_window * 2),
    ),
  )

  -- With Redis up, the breaker closed and both windows positive, a check counts the request in the
  -- minute's key and answers by the count there; only a request that the minute's limit lets through
  -- counts in the hour's key, and the answer is then by the count there. The breaker stays closed and
  -- the fallback is not touched.
  pub redis_counts :
      (law : Lawful client) (s : State client) (now m h : ℕ) (request : Request) (r : client.Store)
      → s.redis ≡ some r
      → s.redis_failed ≡ false
      → 0 < s.settings.rate_limit
      → 0 < s.settings.rate_window
      → 0 < s.settings.burst_window
      → let ip = get_client_ip request in
        let c = s.settings in
        let minute = make_key ip (codes "minute") (window_of now c.rate_window) in
        let hour = make_key ip (codes "hour") (window_of now c.burst_window) in
        let r' = (client.incr_expire minute (c.rate_window * 2) r).1 in
        let (v, s') = check client s now request in
        (client.incr_expire minute (c.rate_window * 2) r).0 ≡ some m
        → (client.incr_expire hour (c.burst_window * 2) r').0 ≡ some h
        → (v ≡ (
            if ltb c.rate_limit (law.count r minute + 1)
            then rate_limit_exceeded (retry_after now c.rate_window)
            else if ltb c.burst_limit (law.count r hour + 1)
            then burst_limit_exceeded (retry_after now c.burst_window)
            else passed))
          × (s'.redis
              ≡ some (
                  if ltb c.rate_limit (law.count r minute + 1)
                  then r'
                  else (client.incr_expire hour (c.burst_window * 2) r').1))
          × (s'.redis_failed ≡ false)
          × (s'.fallback_history ≡ s.fallback_history)
  unfolding check check_redis check_minute check_hour
  redis_counts law s now m h request r e f on rw' bw' em eh =
      let ip = get_client_ip request in
      let c = s.settings in
      let minute = make_key ip (codes "minute") (window_of now c.rate_window) in
      let hour = make_key ip (codes "hour") (window_of now c.burst_window) in
      let r' = (client.incr_expire minute (c.rate_window * 2) r).1 in
      ground (
        arith,
        law.answer minute (c.rate_window * 2) m r em,
        law.answer hour (c.burst_window * 2) h r' eh,
        law.others hour minute (c.rate_window * 2) r
            (make_key-kinds ip (window_of now c.rate_window) (window_of now c.burst_window)),
      )
