-- ===== src/Ratelimit/Endpoint/Retry.antt =====
-- How far the `Retry-After` of a 429 can be relied on.
use secu_scan.Prelude.{
  ℕ, ◌+◌, ◌-◌, ◌*◌, ◌%◌, ◌≤◌, ◌<◌, ◌≡◌, refl, sym, ap, ◌∙◌, subst, ◌≢◌, inl, inr, true, false,
  Option, none, some, List, [], ◌∷◌, ◌++◌, arith, ltb, leb, Bool-cases, length, All,
  length-filter-le, Text, text_eq_refl, or_default,
}
use mathlib.Core.Option.{none-ne-some}
use secu_scan.Ratelimit.Window.{recent}
use secu_scan.Ratelimit.Endpoint.{
  cleanup_expired_identities, Limiter, window, second, entry, seconds_left, call, Outcome, accepted,
  too_many_requests, index_error, refuse, grant, admit,
}
use secu_scan.Ratelimit.Endpoint.Cleanup.{call-eq-admit, cleanup-recent, cleanup-settings}
use secu_scan.Ratelimit.Endpoint.Quota.{is_accepted, kept, admit_cases, admit-settings}

recent_expired :
    (w now : ℕ) (x : ℕ) (xs : List ℕ) → x + w ≤ now → length (recent w now (x ∷ xs)) ≤ length xs
recent_expired w now x xs h = ground (arith, length-filter-le (λ ts. ltb now (ts + w)) xs)

recent-All : (w now x : ℕ) (xs : List ℕ) → now < x + w → All (λ y. x ≤ y) xs → recent w now xs ≡ xs
recent-All w now x [] h r = refl
recent-All w now x (y ∷ ys) h r = ground (arith, recent-All w now x ys h r.1)

call-settings :
    (s : Limiter) (now : ℕ) (k : Text)
    → ((call s now k).1.limit ≡ s.limit) × ((call s now k).1.window_seconds ≡ s.window_seconds)
unfolding call
call-settings s now k =
    let c = cleanup_expired_identities s now in
    (
      (admit-settings c now k).0 ∙ (cleanup-settings s now).0,
      (admit-settings c now k).1 ∙ (cleanup-settings s now).1,
    )

cleanup-kept :
    (s : Limiter) (now : ℕ) (k : Text)
    → kept (cleanup_expired_identities s now) now k ≡ kept s now k
cleanup-kept s now k =
    ap (λ w. recent (w * 1_000_000) now (entry k (cleanup_expired_identities s now).history))
      (cleanup-settings s now).1
    ∙ cleanup-recent s now k

-- A call accepts exactly where there is room.
call_room :
    (s : Limiter) (now : ℕ) (k : Text)
    → (length (kept s now k) < s.limit → is_accepted (call s now k).0 ≡ true)
      × (s.limit ≤ length (kept s now k) → is_accepted (call s now k).0 ≡ false)
call_room s now k = rw (call-eq-admit s now k) (elim (admit_cases s now k k) [
  | inl (full, a, e) ↦ (λ room. absurd (omega arith), λ h. a)
  | inr (room, a, e) ↦ (λ h. a, λ full. absurd (omega arith))
])

-- A refused call leaves the pruned list.
call-entry_refused :
    (s : Limiter) (now : ℕ) (k : Text)
    → s.limit ≤ length (kept s now k)
    → entry k (call s now k).1.history ≡ kept s now k
unfolding call
call-entry_refused s now k full =
    let same = cleanup-kept s now k in
    elim (admit_cases (cleanup_expired_identities s now) now k k) [
      | inl (_, a, e) ↦ e ∙ rw (text_eq_refl k) same
      | inr (room, a, e) ↦ absurd (omega (arith, ap length same, (cleanup-settings s now).0))
    ]

-- A client that is refused at `now`, with exactly `limit` requests in the window, none of them in the
-- future, of which `oldest` is the first, and that makes no further call before `later`.
module _ (s : Limiter) (now later oldest : ℕ) (others : List ℕ) (identity : Text)
    (held : kept s now identity ≡ oldest ∷ others) (full : length others + 1 ≡ s.limit)
    (past : oldest ≤ now) where
  kept_later :
      kept (call s now identity).1 later identity ≡ recent (window s) later (oldest ∷ others)
  kept_later =
      rw (call-entry_refused s now identity (omega (arith, ap length held)), held)
        (ap (λ w. recent (w * 1_000_000) later (oldest ∷ others)) (call-settings s now identity).1)

  -- One second more than the `Retry-After` of the refusal is enough: the next call is accepted.
  retry_accepted :
      now + (seconds_left (window s) oldest now + 1) * second ≤ later
      → is_accepted (call (call s now identity).1 later identity).0 ≡ true
  unfolding seconds_left
  retry_accepted wait = (call_room (call s now identity).1 later identity).0 (
      omega (
        arith,
        ap length kept_later,
        recent_expired (window s) later oldest others (omega arith),
        (call-settings s now identity).0,
      ))

  -- The `Retry-After` itself is not, where the wait is over a second and no whole number of seconds:
  -- a call after exactly that time is refused again.
  pub retry_too_early :
      All (λ t. oldest ≤ t) others
      → second < oldest + window s - now
      → (oldest + window s - now) % second ≢ 0
      → later ≡ now + seconds_left (window s) oldest now * second
      → is_accepted (call (call s now identity).1 later identity).0 ≡ false
  unfolding seconds_left
  retry_too_early order long part at = (call_room (call s now identity).1 later identity).1 (
      omega (
        arith,
        ap length kept_later,
        ap length (
            recent-All (window s) later oldest (oldest ∷ others) (omega arith)
              (omega arith, order)),
        (call-settings s now identity).0,
      ))

-- What a call that is refused with `Retry-After` tells: the window of its client is full, and from its first
-- request the figure was counted.
abbrev pub retry_of : Outcome → Option ℕ
retry_of (accepted limit remaining reset) = none
retry_of (too_many_requests retry_after limit) = some retry_after
retry_of index_error = none

refused_with :
    (s : Limiter) (now retry : ℕ) (k : Text)
    → retry_of (call s now k).0 ≡ some retry
    → (s.limit ≤ length (kept s now k)) × (retry_of (refuse s now (kept s now k)) ≡ some retry)
unfolding admit
refused_with s now retry k h =
    let e = ap retry_of (call-eq-admit s now k) in
    elim (Bool-cases (leb s.limit (length (kept s now k)))) [
      | inl full ↦ (ground (arith, full), sym (rw full refl) ∙ sym e ∙ h)
      | inr room ↦ absurd (none-ne-some retry (sym (granted room) ∙ sym e ∙ h))
    ]
  where
    granted : leb s.limit (length (kept s now k)) ≡ false → retry_of (admit s now k).0 ≡ none
    granted room = rw (room, admit) (accepts (kept s now k))
      where
        accepts : (ts : List ℕ) → retry_of (grant s now (ts ++ now ∷ [])) ≡ none
        accepts [] = refl
        accepts (t ∷ ts) = refl

-- A client whose window holds no more than `limit` requests, none of them in the future, is refused with a
-- `Retry-After`: where no call of any client comes in between, its next call is accepted one second after that
-- figure or later.
pub retry_after_accepted :
    (s : Limiter) (now later retry : ℕ) (identity : Text)
    → length (kept s now identity) ≤ s.limit
    → All (λ t. t ≤ now) (kept s now identity)
    → retry_of (call s now identity).0 ≡ some retry
    → now + (retry + 1) * second ≤ later
    → is_accepted (call (call s now identity).1 later identity).0 ≡ true
unfolding refuse
retry_after_accepted s now later retry identity most past h wait =
    let (full, told) = refused_with s now retry identity h in
    split (kept s now identity) refl full told
  where
    split :
        (ts : List ℕ)
        → kept s now identity ≡ ts
        → s.limit ≤ length (kept s now identity)
        → retry_of (refuse s now (kept s now identity)) ≡ some retry
        → is_accepted (call (call s now identity).1 later identity).0 ≡ true
    split [] q full told =
        absurd (none-ne-some retry (sym (ap (λ ts. retry_of (refuse s now ts)) q) ∙ told))
    split (oldest ∷ others) q full told =
        let e : seconds_left (window s) oldest now ≡ retry =
          ap (or_default 0) (sym (ap (λ ts. retry_of (refuse s now ts)) q) ∙ told) in
        let past' : All (λ t. t ≤ now) (oldest ∷ others) = subst (All (λ t. t ≤ now)) q past in
        retry_accepted s now later oldest others identity q (omega (arith, most, full, ap length q))
          (past'.0) (subst (λ n. now + (n + 1) * second ≤ later) (sym e) wait)
