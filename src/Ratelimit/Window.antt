-- ===== src/Ratelimit/Window.antt =====
-- The sliding window that RateLimiter and EndpointRateLimiter keep for a key: a list of timestamps,
-- pruned at each call, against a log of every grant.
use secu_scan.Prelude.{
  ℕ, ◌+◌, ◌≤◌, ◌<◌, ◌≡◌, refl, ap, ◌∙◌, Bool, ◌&&◌, List, [], ◌∷◌, ◌++◌, arith, ltb, leb, length,
  filter, length-append, filter-append, sym,
}

-- `ts > now - window`
abbrev pub in_window : ℕ → ℕ → ℕ → Bool
in_window window now ts = ltb now (ts + window)

-- `[ts for ts in timestamps if ts > now - window]`
abbrev pub recent : ℕ → ℕ → List ℕ → List ℕ
recent window now = filter (in_window window now)

-- The grants of a log that fall in the window which ends at `t`.
abbrev pub in_window_at : ℕ → ℕ → List ℕ → List ℕ
in_window_at window t = filter (λ ts. ltb t (ts + window) && leb ts t)

pub recent-recent :
    (window now later : ℕ) (xs : List ℕ)
    → now ≤ later
    → recent window later (recent window now xs) ≡ recent window later xs
recent-recent window now later [] h = refl
recent-recent window now later (x ∷ xs) h = ground (arith, recent-recent window now later xs h)

-- Newest first: none is later than `clock`, and none is later than one before it.
abbrev pub Falling : ℕ → List ℕ → Type 0
Falling clock [] = Unit {0}
Falling clock (g ∷ gs) = (g ≤ clock) × Falling g gs

-- At each grant, the grants in the window that ends there are at most `limit`.
abbrev pub Bounded : ℕ → ℕ → List ℕ → Type 0
Bounded window limit [] = Unit {0}
Bounded window limit (g ∷ gs) =
    (length (recent window g (g ∷ gs)) ≤ limit) × Bounded window limit gs

-- `history`, kept by the program, counts as `log`, the grants so far, newest first.
pub record Tracks (window limit clock : ℕ) (history log : List ℕ) : Type 0 where
  pub falling : Falling clock log
  pub bounded : Bounded window limit log
  pub same_count :
      (t : ℕ) → clock ≤ t → length (recent window t history) ≡ length (recent window t log)

Falling-later : (clock now : ℕ) (log : List ℕ) → clock ≤ now → Falling clock log → Falling now log
Falling-later clock now [] h f = tt
Falling-later clock now (g ∷ gs) h f = (omega arith, f.1)

module _ {window limit clock : ℕ} {history log : List ℕ}
    (k : Tracks window limit clock history log) where
  pub Tracks-later : (now : ℕ) → clock ≤ now → Tracks window limit now history log
  Tracks-later now h = record {
    falling = Falling-later clock now log h k.falling;
    bounded = k.bounded;
    same_count = λ t le. k.same_count t (omega arith);
  }

  -- Any list that prunes to what the history prunes to will do.
  pub Tracks-pruned :
      (other : List ℕ)
      → recent window clock other ≡ recent window clock history
      → Tracks window limit clock other log
  Tracks-pruned other e = record {
    falling = k.falling;
    bounded = k.bounded;
    same_count = λ t le.
        ap length (sym (recent-recent window clock t other le))
        ∙ ap (λ xs. length (recent window t xs)) e
        ∙ ap length (recent-recent window clock t history le)
        ∙ k.same_count t le;
  }

  pub Tracks-grant :
      length (recent window clock history) < limit
      → Tracks window limit clock (recent window clock history ++ clock ∷ []) (clock ∷ log)
  Tracks-grant room = record {
    falling = (omega arith, k.falling);
    bounded = (ground (arith, k.same_count clock (omega arith)), k.bounded);
    same_count = λ t le.
        let old = ap length (recent-recent window clock t history le) ∙ k.same_count t le in
        let split =
          ap length
            (filter-append (in_window window t) (recent window clock history) (clock ∷ [])) in
        let sum =
          length-append (recent window t (recent window clock history))
            (recent window t (clock ∷ [])) in
        ground (arith, old, split, sum);
  }

count-le-recent :
    (window t g : ℕ) (xs : List ℕ)
    → g ≤ t
    → length (in_window_at window t xs) ≤ length (recent window g xs)
count-le-recent window t g [] h = omega arith
count-le-recent window t g (x ∷ xs) h = ground (arith, count-le-recent window t g xs h)

-- Over a log in order of time the bound at each grant is a bound for every window.
pub window_bound :
    (window limit clock t : ℕ) (log : List ℕ)
    → Falling clock log
    → Bounded window limit log
    → length (in_window_at window t log) ≤ limit
window_bound window limit clock t [] f b = omega arith
window_bound window limit clock t (g ∷ gs) f b =
    ground (arith, count-le-recent window t g (g ∷ gs), window_bound window limit g t gs f.1 b.1)
