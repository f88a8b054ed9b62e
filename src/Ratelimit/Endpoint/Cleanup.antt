-- ===== src/Ratelimit/Endpoint/Cleanup.antt =====
-- The sweep of expired identities, which shows in no answer.
use secu_scan.Prelude.{
  ℕ, ◌*◌, ◌≡◌, refl, ap, ◌∙◌, inl, inr, List, [], ◌∷◌, arith, if◌then◌else◌, Bool-cases, Text,
  text_eq, text_eq_iff, Dict, lookup-insert, lookup-erase, keys,
}
use secu_scan.Ratelimit.Window.{recent, recent-recent}
use secu_scan.Ratelimit.Endpoint.{
  Limiter, window, entry, store, sweep, cleanup_expired_identities, admit, call,
}

pub store-entry :
    (k b : Text) (xs : List ℕ) (d : Dict (List ℕ))
    → entry b (store k xs d) ≡ (if text_eq b k then xs else entry b d)
unfolding store
store-entry k b [] d = ground (arith, lookup-erase b k d)
store-entry k b (t ∷ ts) d = ground (arith, lookup-insert b k (t ∷ ts) d)

store-recent :
    (w now : ℕ) (k b : Text) (d : Dict (List ℕ))
    → recent w now (entry b (store k (recent w now (entry k d)) d)) ≡ recent w now (entry b d)
store-recent w now k b d = elim (Bool-cases (text_eq b k)) [
  | inl same ↦
      rw (store-entry k b (recent w now (entry k d)) d, same)
        (rw ((text_eq_iff b k).0 same) (recent-recent w now now (entry k d) (omega arith)))
  | inr other ↦ rw (store-entry k b (recent w now (entry k d)) d, other)
]

sweep-recent :
    (w now : ℕ) (ks : List Text) (b : Text) (d : Dict (List ℕ))
    → recent w now (entry b (sweep w now ks d)) ≡ recent w now (entry b d)
unfolding sweep
sweep-recent w now [] b d = refl
sweep-recent w now (k ∷ ks) b d =
    sweep-recent w now ks b (store k (recent w now (entry k d)) d) ∙ store-recent w now k b d

-- The cleanup leaves what counts of every identity.
pub cleanup-recent :
    (s : Limiter) (now : ℕ) (b : Text)
    → recent (window s) now (entry b (cleanup_expired_identities s now).history)
      ≡ recent (window s) now (entry b s.history)
unfolding cleanup_expired_identities
cleanup-recent s now b = ground (arith, sweep-recent (window s) now (keys s.history) b s.history)

pub cleanup-settings :
    (s : Limiter) (now : ℕ)
    → ((cleanup_expired_identities s now).limit ≡ s.limit)
      × ((cleanup_expired_identities s now).window_seconds ≡ s.window_seconds)
unfolding cleanup_expired_identities
cleanup-settings s now = ground arith

admit_of_recent :
    (s t : Limiter) (now : ℕ) (b : Text)
    → (s.limit ≡ t.limit) × (s.window_seconds ≡ t.window_seconds)
    → recent (window s) now (entry b s.history) ≡ recent (window t) now (entry b t.history)
    → (admit s now b).0 ≡ (admit t now b).0
unfolding admit
admit_of_recent s t now b h e = ground arith

-- The cleanup, whenever it runs, changes no answer: a call answers as its body alone does on the
-- state before the cleanup.
pub call-eq-admit : (s : Limiter) (now : ℕ) (b : Text) → (call s now b).0 ≡ (admit s now b).0
unfolding call
call-eq-admit s now b =
    admit_of_recent (cleanup_expired_identities s now) s now b (cleanup-settings s now) (
      ap (λ w. recent (w * 1_000_000) now (entry b (cleanup_expired_identities s now).history))
        (cleanup-settings s now).1
      ∙ cleanup-recent s now b)
