-- ===== src/Ratelimit/Hourly/Quota.antt =====
-- The hourly quota of a bucket over any sequence of calls.
use secu_scan.Prelude.{
  ℕ, ◌≤◌, ◌<◌, ◌≡◌, refl, sym, ap, ◌∙◌, ◌⊎◌, inl, inr, true, false, ◌&&◌, some, List, [], ◌∷◌, ◌++◌,
  arith, if◌then◌else◌, Bool-cases, length, All, Text, text_eq, text_eq_iff, lookup, insert,
  lookup-insert,
}
use secu_scan.Ratelimit.Window.{
  Tracks-grant, recent-recent, window_bound, Tracks-pruned, Bounded, in_window_at, Falling,
  Tracks-later, Tracks,
}
use secu_scan.Ratelimit.Hourly.{recent, RateLimiter, Call, hour, bucket, history, can_execute}

abbrev pub bucket_of : Call → Text
bucket_of c = bucket c.client_id c.plugin_id

-- A call, with the grants of bucket `b` so far, newest first.
pub observe : Text → RateLimiter → List ℕ → Call → RateLimiter × List ℕ
observe b s log c =
    let (answer, s') = can_execute s c in
    (s', (if answer.allowed && text_eq b (bucket_of c) then c.now ∷ log else log))

-- The grants of bucket `b` in a sequence of calls, newest first, on top of `log`.
pub granted : Text → RateLimiter → List ℕ → List Call → List ℕ
granted b s log [] = log
granted b s log (c ∷ calls) = let (s', log') = observe b s log c in granted b s' log' calls

-- The clock does not run backwards, from `clock` on.
abbrev pub InOrder : ℕ → List Call → Type 0
InOrder clock [] = Unit {0}
InOrder clock (c ∷ calls) = (clock ≤ c.now) × InOrder c.now calls

-- Calls on bucket `b` state a quota of at most `limit`.
abbrev pub LimitedTo : Text → ℕ → List Call → Type 0
LimitedTo b limit = All (λ c. b ≡ bucket_of c → c.max_per_hour ≤ limit)

abbrev Held : Text → ℕ → ℕ → RateLimiter → List ℕ → Type 0
Held b limit clock s log = Tracks hour limit clock (history s b) log

-- What a call leaves in its own bucket: the pruned list, or that list with the grant.
abbrev kept : RateLimiter → Call → List ℕ
kept s c = recent hour c.now (history s (bucket_of c))

module _ (b : Text) (s : RateLimiter) (log : List ℕ) (c : Call) where
  lookup-kept :
      lookup b (insert (bucket_of c) (kept s c) s.task_history)
      ≡ (if text_eq b (bucket_of c) then some (kept s c) else lookup b s.task_history)
  lookup-kept = lookup-insert b (bucket_of c) (kept s c) s.task_history

  lookup_grant :
      lookup b (insert (bucket_of c) (kept s c ++ c.now ∷ []) s.task_history)
      ≡ (if text_eq b (bucket_of c) then some (kept s c ++ c.now ∷ []) else lookup b s.task_history)
  lookup_grant = lookup-insert b (bucket_of c) (kept s c ++ c.now ∷ []) s.task_history

  -- A call on another bucket changes nothing for `b`.
  pub observe-other :
      text_eq b (bucket_of c) ≡ false
      → (history (observe b s log c).0 b ≡ history s b) × ((observe b s log c).1 ≡ log)
  unfolding observe can_execute history
  observe-other ne = ground (arith, lookup-kept, lookup_grant)

  observe-own :
      text_eq b (bucket_of c) ≡ true
      → ((history (observe b s log c).0 b ≡ kept s c)
          × ((observe b s log c).1 ≡ log)
          × (c.max_per_hour ≤ length (kept s c)))
        ⊎ ((history (observe b s log c).0 b ≡ kept s c ++ c.now ∷ [])
            × ((observe b s log c).1 ≡ c.now ∷ log)
            × (length (kept s c) < c.max_per_hour))
  unfolding observe can_execute history
  observe-own own = ground (arith, lookup-kept, lookup_grant)

own-kept :
    (b : Text) (s : RateLimiter) (c : Call)
    → text_eq b (bucket_of c) ≡ true
    → kept s c ≡ recent hour c.now (history s b)
own-kept b s c own =
    ap (λ x. recent hour c.now (history s x)) (sym ((text_eq_iff b (bucket_of c)).0 own))

module _ (b : Text) (limit : ℕ) where
  observe-Tracks :
      (clock : ℕ) (s : RateLimiter) (log : List ℕ) (c : Call)
      → clock ≤ c.now
      → (b ≡ bucket_of c → c.max_per_hour ≤ limit)
      → Tracks hour limit clock (history s b) log
      → Tracks hour limit c.now (history (observe b s log c).0 b) (observe b s log c).1
  observe-Tracks clock s log c le quota k =
      let on_time = Tracks-later k c.now le in
      elim (Bool-cases (text_eq b (bucket_of c))) [
        | inl own ↦
            let same = own-kept b s c own in
            elim (observe-own b s log c own) [
              | inl (h, l, full) ↦
                  rw (h ∙ same, l)
                    (Tracks-pruned on_time (recent hour c.now (history s b))
                      (recent-recent hour c.now c.now (history s b) (omega arith)))
              | inr (h, l, room) ↦
                  rw (h ∙ ap (λ xs. xs ++ c.now ∷ []) same, l)
                    (Tracks-grant on_time
                      (omega (arith, quota ((text_eq_iff _ _).0 own), ap length same)))
            ]
        | inr other ↦ let e = observe-other b s log c other in rw (e.0, e.1) on_time
      ]

  granted-Tracks :
      (calls : List Call) (clock : ℕ) (s : RateLimiter) (log : List ℕ)
      → InOrder clock calls
      → LimitedTo b limit calls
      → Tracks hour limit clock (history s b) log
      → (end : ℕ) × Falling end (granted b s log calls) × Bounded hour limit (granted b s log calls)
  unfolding granted
  granted-Tracks [] clock s log o q k = (clock, k.falling, k.bounded)
  granted-Tracks (c ∷ calls) clock s log o q k =
      granted-Tracks calls c.now (observe b s log c).0 (observe b s log c).1 o.1 q.1
        (observe-Tracks clock s log c o.0 q.0 k)

abbrev pub start : RateLimiter
start = record { task_history = [] }

-- From a new limiter, over any sequence of calls on any buckets in order of time, of which those on
-- `b` state a quota of at most `limit`: at most `limit` of the grants of `b` fall in the hour that
-- ends at `t`, for every `t`.
pub hourly_quota :
    (b : Text) (limit t : ℕ) (calls : List Call)
    → InOrder 0 calls
    → LimitedTo b limit calls
    → length (in_window_at hour t (granted b start [] calls)) ≤ limit
unfolding history lookup
hourly_quota b limit t calls o q =
    let (last, f, h) =
      granted-Tracks b limit calls 0 start [] o q
        (record { falling = tt; bounded = tt; same_count = λ u le. refl }) in
    window_bound hour limit last t _ f h
