-- ===== src/Ratelimit/Interval/Spacing.antt =====
-- The runs that `check_workflow_rate_limit` lets through, over any sequence of calls.
use secu_scan.Prelude.{
  ℕ, ◌+◌, ◌≤◌, ◌≡◌, refl, ◌&&◌, List, [], ◌∷◌, Option, none, some, Text, lookup, text_eq,
  text_eq_iff, lookup-insert, if◌then◌else◌, arith,
}
use secu_scan.Ratelimit.Interval.{Limiter, check_workflow_rate_limit}

-- A call, with the runs of `workflow` so far, newest first.
pub observe : Text → ℕ → Limiter → List ℕ → ℕ × Text → Limiter × List ℕ
observe workflow interval s log (now, id) =
    let (ok, message, s') = check_workflow_rate_limit s now id interval in
    (s', (if ok && text_eq workflow id then now ∷ log else log))

-- The runs of `workflow` that a sequence of calls lets through, newest first, on top of `log`.
pub granted : Text → ℕ → Limiter → List ℕ → List (ℕ × Text) → List ℕ
granted workflow interval s log [] = log
granted workflow interval s log (c ∷ calls) =
    let (s', log') = observe workflow interval s log c in granted workflow interval s' log' calls

abbrev head : List ℕ → Option ℕ
head [] = none
head (g ∷ gs) = some g

abbrev Gap : ℕ → Option ℕ → ℕ → Type 0
Gap interval none g = Unit {0}
Gap interval (some h) g = h + interval ≤ g

-- Each run starts at least `interval` after the one before it.
abbrev pub Spaced : ℕ → List ℕ → Type 0
Spaced interval [] = Unit {0}
Spaced interval (g ∷ gs) = Gap interval (head gs) g × Spaced interval gs

module _ (workflow : Text) (interval : ℕ) where
  observe-head :
      (s : Limiter) (log : List ℕ) (c : ℕ × Text)
      → lookup workflow s.last_run ≡ head log
      → lookup workflow (observe workflow interval s log c).0.last_run
        ≡ head (observe workflow interval s log c).1
  unfolding observe check_workflow_rate_limit
  observe-head s log (now, id) e =
      ground (arith, text_eq_iff workflow id, lookup-insert workflow id now s.last_run)

  observe-Spaced :
      (s : Limiter) (log : List ℕ) (c : ℕ × Text)
      → lookup workflow s.last_run ≡ head log
      → Spaced interval log
      → Spaced interval (observe workflow interval s log c).1
  unfolding observe check_workflow_rate_limit
  observe-Spaced s log (now, id) e h = ground (arith, text_eq_iff workflow id)

  granted-Spaced_from :
      (s : Limiter) (log : List ℕ) (calls : List (ℕ × Text))
      → lookup workflow s.last_run ≡ head log
      → Spaced interval log
      → Spaced interval (granted workflow interval s log calls)
  unfolding granted
  granted-Spaced_from s log [] e h = h
  granted-Spaced_from s log (c ∷ calls) e h =
      granted-Spaced_from (observe workflow interval s log c).0
        (observe workflow interval s log c).1 calls (observe-head s log c e)
        (observe-Spaced s log c e h)

abbrev pub start : Limiter
start = record { last_run = [] }

-- From a new limiter, whatever calls are made for whatever workflows, two runs of one workflow that
-- are let through one after the other are at least `interval` apart.
pub granted-Spaced :
    (workflow : Text) (interval : ℕ) (calls : List (ℕ × Text))
    → Spaced interval (granted workflow interval start [] calls)
unfolding lookup
granted-Spaced workflow interval calls =
    granted-Spaced_from workflow interval start [] calls refl tt
