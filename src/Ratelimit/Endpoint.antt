-- ===== src/Ratelimit/Endpoint.antt =====
-- `class EndpointRateLimiter`: the sliding window of a route for each client identity.
pub mod Cleanup
pub mod Outcomes
pub mod Quota
pub mod Retry
use secu_scan.Prelude.{
  ℕ, zero, suc, ◌+◌, ◌-◌, ◌*◌, ◌/◌, ◌%◌, ◌^◌, ◌≤◌, ◌<◌, min, max, ◌≡◌, refl, sym, ap, ◌∙◌, subst,
  ◌≢◌, ◌↔◌, ◌⊎◌, inl, inr, Bool, true, false, not, ◌&&◌, ◌||◌, Option, none, some, List, [], ◌∷◌,
  ◌++◌, map, arith, ltb, leb, ◌==◌, if◌then◌else◌, ltb→lt, lt→ltb, leb→le, ==_iff, Bool-cases,
  Option-cases, length, length-append, filter, any, all, take, drop, All, length-filter-le,
  filter-append, filter_idem, length-drop, Text, codes, text_eq, text_eq_refl, text_eq_iff,
  is_space, lstrip, strip, lower, starts_with, ends_with, has_char, text_in, ends_with-append,
  split_last_unique, Dict, lookup, is_some, or_default, insert, erase, lookup-insert, lookup-erase,
  keys,
}
use secu_scan.Ratelimit.Window.{recent}

-- `timedelta(seconds=1)`
abbrev pub second : ℕ
second = 1_000_000

pub record Limiter : Type 0 where
  pub limit : ℕ
  pub window_seconds : ℕ
  pub history : Dict (List ℕ)
  pub last_cleanup : Option ℕ

-- `timedelta(seconds=window_seconds)`
abbrev pub window : Limiter → ℕ
window s = s.window_seconds * second

-- `history[identity]` of the `defaultdict(list)`
abbrev pub entry : Text → Dict (List ℕ) → List ℕ
entry k d = or_default [] (lookup k d)

-- An identity keeps its active timestamps, and goes where there are none.
unfoldable pub store : Text → List ℕ → Dict (List ℕ) → Dict (List ℕ)
store k [] d = erase k d
store k (t ∷ ts) d = insert k (t ∷ ts) d

-- The two loops of the cleanup, an identity at a time.
unfoldable pub sweep : ℕ → ℕ → List Text → Dict (List ℕ) → Dict (List ℕ)
sweep w now [] d = d
sweep w now (k ∷ ks) d = sweep w now ks (store k (recent w now (entry k d)) d)

-- `last_cleanup and now - last_cleanup < cleanup_interval`
unfoldable pub too_early : Option ℕ → ℕ → ℕ → Bool
too_early none interval now = false
too_early (some last) interval now = ltb now (last + interval)

-- `_cleanup_expired_identities`
unfoldable pub cleanup_expired_identities : Limiter → ℕ → Limiter
cleanup_expired_identities s now =
    if too_early s.last_cleanup (second * max 1 s.window_seconds) now then s else record s {
      history = sweep (window s) now (keys s.history) s.history;
      last_cleanup = some now;
    }

-- What the caller sees: the response headers, the error 429 with its headers, or the `IndexError`
-- of `history[identity][0]` on an empty list.
pub data Outcome : Type 0 where
  accepted : (limit remaining reset : ℕ) → Outcome
  too_many_requests : (retry_after limit : ℕ) → Outcome
  index_error : Outcome

-- `max(1, int((first + window - now).total_seconds()))`
unfoldable pub seconds_left : ℕ → ℕ → ℕ → ℕ
seconds_left w first now = max 1 ((first + w - now) / second)

unfoldable pub refuse : Limiter → ℕ → List ℕ → Outcome
refuse s now [] = index_error
refuse s now (oldest ∷ ts) = too_many_requests (seconds_left (window s) oldest now) s.limit

unfoldable pub grant : Limiter → ℕ → List ℕ → Outcome
grant s now [] = index_error
grant s now (first ∷ ts) =
    accepted s.limit (s.limit - length (first ∷ ts)) (seconds_left (window s) first now)

-- The body of `__call__` after the cleanup.
unfoldable pub admit : Limiter → ℕ → Text → Outcome × Limiter
unfolding refuse grant
admit s now identity =
    let kept = recent (window s) now (entry identity s.history) in
    let s' = λ (ts : List ℕ). record s { history = insert identity ts s.history } in
    if leb s.limit (length kept)
    then (refuse s now kept, s' kept)
    else (grant s now (kept ++ now ∷ []), s' (kept ++ now ∷ []))

-- `__call__`, for the identity that `resolve_client_identity` gives
unfoldable pub call : Limiter → ℕ → Text → Outcome × Limiter
call s now identity = admit (cleanup_expired_identities s now) now identity

-- `reset()`
pub reset : Limiter → Limiter
reset s = record s { history = []; last_cleanup = none }
