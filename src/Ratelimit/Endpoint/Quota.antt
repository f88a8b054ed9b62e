-- ===== src/Ratelimit/Endpoint/Quota.antt =====
-- The requests that the endpoint limiter accepts from one identity, over any sequence of calls.
use secu_scan.Prelude.{
  ℕ, ◌*◌, ◌≤◌, ◌<◌, ◌≡◌, refl, sym, ap, ◌∙◌, subst, ◌⊎◌, inl, inr, Bool, true, false, ◌&&◌, none,
  List, [], ◌∷◌, ◌++◌, arith, leb, if◌then◌else◌, leb→le, Bool-cases, length, Text, text_eq,
  text_eq_iff, Dict, lookup, insert, lookup-insert,
}
use secu_scan.Ratelimit.Window.{
  Tracks-grant, recent-recent, window_bound, Tracks-later, Bounded, in_window_at, Falling, recent,
  Tracks, Tracks-pruned,
}
use secu_scan.Ratelimit.Endpoint.{
  window, Limiter, Outcome, accepted, too_many_requests, index_error, entry, refuse, grant, admit,
  call, cleanup_expired_identities,
}
use secu_scan.Ratelimit.Endpoint.Cleanup.{cleanup-recent, cleanup-settings}

abbrev pub is_accepted : Outcome → Bool
is_accepted (accepted l r t) = true
is_accepted (too_many_requests w l) = false
is_accepted index_error = false

-- A call, with the accepted requests of identity `b` so far, newest first.
pub observe : Text → Limiter → List ℕ → ℕ × Text → Limiter × List ℕ
observe b s log (now, identity) =
    let (answer, s') = call s now identity in
    (s', (if is_accepted answer && text_eq b identity then now ∷ log else log))

pub accepts : Text → Limiter → List ℕ → List (ℕ × Text) → List ℕ
accepts b s log [] = log
accepts b s log (c ∷ calls) = let (s', log') = observe b s log c in accepts b s' log' calls

abbrev pub InOrder : ℕ → List (ℕ × Text) → Type 0
InOrder clock [] = Unit {0}
InOrder clock ((now, identity) ∷ calls) = (clock ≤ now) × InOrder now calls

-- The state and the answer after the cleanup, for identity `b`.
record Held (b : Text) (limit seconds clock : ℕ) (s : Limiter) (log : List ℕ) : Type 0 where
  settings : (s.limit ≡ limit) × (s.window_seconds ≡ seconds)
  tracks : Tracks (seconds * 1_000_000) limit clock (entry b s.history) log

is_accepted-refuse :
    (s : Limiter) (now : ℕ) (kept : List ℕ) → is_accepted (refuse s now kept) ≡ false
unfolding refuse
is_accepted-refuse s now [] = refl
is_accepted-refuse s now (t ∷ ts) = refl

is_accepted-grant :
    (s : Limiter) (now : ℕ) (kept : List ℕ) → is_accepted (grant s now (kept ++ now ∷ [])) ≡ true
unfolding grant
is_accepted-grant s now [] = refl
is_accepted-grant s now (t ∷ ts) = refl

pub admit-settings :
    (s : Limiter) (now : ℕ) (b : Text)
    → ((admit s now b).1.limit ≡ s.limit) × ((admit s now b).1.window_seconds ≡ s.window_seconds)
unfolding admit
admit-settings s now b = ground arith

entry-insert :
    (b k : Text) (xs : List ℕ) (d : Dict (List ℕ))
    → entry b (insert k xs d) ≡ (if text_eq b k then xs else entry b d)
entry-insert b k xs d = ground (arith, lookup-insert b k xs d)

abbrev pub kept : Limiter → ℕ → Text → List ℕ
kept s now k = recent (window s) now (entry k s.history)

-- What the body of a call leaves for `b`, where there is room and where there is none.
pub admit_cases :
    (s : Limiter) (now : ℕ) (k b : Text)
    → ((s.limit ≤ length (kept s now k))
        × (is_accepted (admit s now k).0 ≡ false)
        × (entry b (admit s now k).1.history
            ≡ (if text_eq b k then kept s now k else entry b s.history)))
      ⊎ ((length (kept s now k) < s.limit)
          × (is_accepted (admit s now k).0 ≡ true)
          × (entry b (admit s now k).1.history
              ≡ (if text_eq b k then kept s now k ++ now ∷ [] else entry b s.history)))
unfolding admit
admit_cases s now k b = elim (Bool-cases (leb s.limit (length (kept s now k)))) [
  | inl full ↦ inl (
      rw full (
        leb→le _ _ full,
        is_accepted-refuse s now (kept s now k),
        entry-insert b k (kept s now k) s.history,
      ))
  | inr room ↦ inr (
      rw room (
        ground arith,
        is_accepted-grant s now (kept s now k),
        entry-insert b k (kept s now k ++ now ∷ []) s.history,
      ))
]

module _ (b : Text) (limit seconds : ℕ) where
  cleanup-Held :
      (now : ℕ) (s : Limiter) (log : List ℕ)
      → Held b limit seconds now s log
      → Held b limit seconds now (cleanup_expired_identities s now) log
  cleanup-Held now s log k = record {
    settings =
        ((cleanup-settings s now).0 ∙ k.settings.0, (cleanup-settings s now).1 ∙ k.settings.1);
    tracks = Tracks-pruned k.tracks (entry b (cleanup_expired_identities s now).history) (
        subst
          (λ w.
            recent (w * 1_000_000) now (entry b (cleanup_expired_identities s now).history)
            ≡ recent (w * 1_000_000) now (entry b s.history))
          k.settings.1 (cleanup-recent s now b));
  }

  admit-Held :
      (now : ℕ) (s : Limiter) (log : List ℕ) (k : Text)
      → Held b limit seconds now s log
      → Held b limit seconds now
          (admit s now k).1
          (if is_accepted (admit s now k).0 && text_eq b k then now ∷ log else log)
  admit-Held now s log k h = record {
    settings =
        ((admit-settings s now k).0 ∙ h.settings.0, (admit-settings s now k).1 ∙ h.settings.1);
    tracks = elim (Bool-cases (text_eq b k)) [
      | inr other ↦ elim (admit_cases s now k b) [
        | inl (_, a, e) ↦ rw (e, a, other) h.tracks
        | inr (_, a, e) ↦ rw (e, a, other) h.tracks
      ]
      | inl own ↦ elim (admit_cases s now k b) [
        | inl (full, a, e) ↦ rw (e, a, own) (own_kept own)
        | inr (room, a, e) ↦ rw (e, a, own) (own_grant own room)
      ]
    ];
  }
    where
      same :
          text_eq b k ≡ true → kept s now k ≡ recent (seconds * 1_000_000) now (entry b s.history)
      same own = rw (h.settings.1) (
          ap (λ x. recent (seconds * 1_000_000) now (entry x s.history))
            (sym ((text_eq_iff b k).0 own)))

      own_kept : text_eq b k ≡ true → Tracks (seconds * 1_000_000) limit now (kept s now k) log
      own_kept own = rw (same own) (
          Tracks-pruned h.tracks (recent (seconds * 1_000_000) now (entry b s.history))
            (recent-recent (seconds * 1_000_000) now now (entry b s.history) (omega arith)))

      own_grant :
          text_eq b k ≡ true
          → length (kept s now k) < s.limit
          → Tracks (seconds * 1_000_000) limit now (kept s now k ++ now ∷ []) (now ∷ log)
      own_grant own room =
          rw (same own) (Tracks-grant h.tracks (omega (arith, ap length (same own), h.settings.0)))

  accepts_from :
      (calls : List (ℕ × Text)) (clock : ℕ) (s : Limiter) (log : List ℕ)
      → InOrder clock calls
      → Held b limit seconds clock s log
      → (end : ℕ) × Falling end (accepts b s log calls)
        × Bounded (seconds * 1_000_000) limit (accepts b s log calls)
  unfolding accepts observe call
  accepts_from [] clock s log o h = (clock, h.tracks.falling, h.tracks.bounded)
  accepts_from ((now, k) ∷ calls) clock s log o h =
      accepts_from calls now (observe b s log (now, k)).0 (observe b s log (now, k)).1 o.1 (
        admit-Held now (cleanup_expired_identities s now) log k (
          cleanup-Held now s log
            (record { settings = h.settings; tracks = Tracks-later h.tracks now o.0 })))

-- `EndpointRateLimiter(name, limit, seconds)`
abbrev pub start : ℕ → ℕ → Limiter
start limit seconds = record {
  limit = limit;
  window_seconds = seconds;
  history = [];
  last_cleanup = none;
}

-- From a new limiter, over any calls of any identities in order of time, with the cleanups that they
-- bring: at most `limit` of the requests that are accepted from identity `b` fall in the window that
-- ends at `t`, for every `t`.
pub endpoint_quota :
    (b : Text) (limit seconds t : ℕ) (calls : List (ℕ × Text))
    → InOrder 0 calls
    → length (in_window_at (seconds * 1_000_000) t (accepts b (start limit seconds) [] calls))
      ≤ limit
unfolding lookup
endpoint_quota b limit seconds t calls o =
    let (last, f, h) = accepts_from b limit seconds calls 0 (start limit seconds) [] o (record {
      settings = (refl, refl);
      tracks = record { falling = tt; bounded = tt; same_count = λ u le. refl };
    }) in
    window_bound (seconds * 1_000_000) limit last t _ f h
