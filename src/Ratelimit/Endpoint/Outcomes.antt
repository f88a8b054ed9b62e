-- ===== src/Ratelimit/Endpoint/Outcomes.antt =====
-- What a call of the endpoint limiter answers, on every branch.
use secu_scan.Prelude.{
  ℕ, ◌+◌, ◌*◌, ◌≤◌, ◌<◌, max, ◌≡◌, refl, inl, inr, List, [], ◌∷◌, ◌++◌, arith, leb, leb→le,
  Bool-cases, length, length-append, All, Text,
}
use secu_scan.Ratelimit.Window.{recent}
use secu_scan.Ratelimit.Endpoint.{
  Limiter, Outcome, accepted, too_many_requests, index_error, window, second, entry, seconds_left,
  refuse, grant, admit, call,
}
use secu_scan.Ratelimit.Endpoint.Cleanup.{call-eq-admit}

-- An answer fits a limiter with `count` requests in its window.
abbrev pub Fits : Limiter → ℕ → Outcome → Type 0
Fits s count (accepted l remaining reset) =
    (l ≡ s.limit)
    × (count + 1 + remaining ≡ s.limit)
    × (1 ≤ reset)
    × (reset ≤ max 1 s.window_seconds)
Fits s count (too_many_requests wait l) =
    (l ≡ s.limit) × (s.limit ≤ count) × (1 ≤ count) × (1 ≤ wait) × (wait ≤ max 1 s.window_seconds)
Fits s count index_error = (s.limit ≡ 0) × (count ≡ 0)

seconds_left_bounds :
    (w first now : ℕ)
    → first ≤ now
    → (1 ≤ seconds_left (w * second) first now) × (seconds_left (w * second) first now ≤ max 1 w)
unfolding seconds_left
seconds_left_bounds w first now h = omega arith

recent-past :
    (w now : ℕ) (xs : List ℕ) → All (λ t. t ≤ now) xs → All (λ t. t ≤ now) (recent w now xs)
recent-past w now [] h = tt
recent-past w now (x ∷ xs) h = ground (arith, recent-past w now xs h.1)

refuse-Fits :
    (s : Limiter) (now : ℕ) (kept : List ℕ)
    → All (λ t. t ≤ now) kept
    → s.limit ≤ length kept
    → Fits s (length kept) (refuse s now kept)
unfolding refuse
refuse-Fits s now [] past full = omega arith
refuse-Fits s now (t ∷ ts) past full =
    let b = seconds_left_bounds s.window_seconds t now past.0 in (refl, full, omega arith, b.0, b.1)

grant-Fits :
    (s : Limiter) (now : ℕ) (kept : List ℕ)
    → All (λ t. t ≤ now) kept
    → length kept < s.limit
    → Fits s (length kept) (grant s now (kept ++ now ∷ []))
unfolding grant
grant-Fits s now [] past room =
    let b = seconds_left_bounds s.window_seconds now now (omega arith) in
    (refl, omega arith, b.0, b.1)
grant-Fits s now (t ∷ ts) past room =
    let b = seconds_left_bounds s.window_seconds t now past.0 in
    (refl, omega (arith, length-append ts (now ∷ [])), b.0, b.1)

-- Where no recorded request is later than `now`: a call with room answers with the limit, the number
-- of requests left after this one and a reset of 1 second to the window; a call with none left
-- answers 429 with a `Retry-After` in the same range; and it ends in the `IndexError` only under a
-- limit of 0 with nothing in the window.
pub call-Fits :
    (s : Limiter) (now : ℕ) (identity : Text)
    → All (λ t. t ≤ now) (entry identity s.history)
    → Fits s (length (recent (window s) now (entry identity s.history))) (call s now identity).0
unfolding admit
call-Fits s now identity past =
    let kept = recent (window s) now (entry identity s.history) in
    let past' = recent-past (window s) now (entry identity s.history) past in
    rw (call-eq-admit s now identity) (elim (Bool-cases (leb s.limit (length kept))) [
      | inl full ↦ rw full (refuse-Fits s now kept past' (leb→le _ _ full))
      | inr room ↦ rw room (grant-Fits s now kept past' (ground arith))
    ])
