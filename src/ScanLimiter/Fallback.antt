-- ===== src/ScanLimiter/Fallback.antt =====
-- The requests of one address that the in-memory fallback passes in one window of the rate limit.
use secu_scan.Prelude.{
  ℕ, ◌+◌, ◌<◌, ◌≡◌, refl, sym, ap, ◌∙◌, inl, inr, Bool, true, false, ◌&&◌, List, [], ◌∷◌, ◌++◌,
  arith, ltb, if◌then◌else◌, Bool-cases, length, All, Text, text_eq, text_eq_iff, Dict, insert,
  lookup-insert,
}
use secu_scan.Ratelimit.Window.{recent}
use secu_scan.Ratelimit.Endpoint.{entry, sweep, store}
use secu_scan.Ratelimit.Endpoint.Cleanup.{store-entry}
use secu_scan.ScanLimiter.{
  Settings, Verdict, passed, rate_limit_exceeded, burst_limit_exceeded, zero_division, touch,
  append_at, count_fallback,
}

abbrev pub is_passed : Verdict → Bool
is_passed passed = true
is_passed (rate_limit_exceeded r) = false
is_passed (burst_limit_exceeded r) = false
is_passed zero_division = false

entry-insert :
    (b k : Text) (xs : List ℕ) (d : Dict (List ℕ))
    → entry b (insert k xs d) ≡ (if text_eq b k then xs else entry b d)
entry-insert b k xs d = ground (arith, lookup-insert b k xs d)

entry-touch : (b k : Text) (d : Dict (List ℕ)) → entry b (touch k d) ≡ entry b d
entry-touch b k d = elim (Bool-cases (text_eq b k)) [
  | inl same ↦
      entry-insert b k (entry k d) d
      ∙ rw same (ap (λ x. entry x d) (sym ((text_eq_iff b k).0 same)))
  | inr other ↦ entry-insert b k (entry k d) d ∙ rw other
]

abbrev pub Fresh : ℕ → ℕ → List ℕ → Type 0
Fresh w now = All (λ ts. now < ts + w)

recent-Fresh : (w now : ℕ) (xs : List ℕ) → Fresh w now xs → recent w now xs ≡ xs
recent-Fresh w now [] h = refl
recent-Fresh w now (x ∷ xs) h = ground (arith, recent-Fresh w now xs h.1)

-- The sweep keeps a bucket of which nothing is stale.
pub sweep-Fresh :
    (w now : ℕ) (ks : List Text) (b : Text) (d : Dict (List ℕ))
    → Fresh w now (entry b d)
    → entry b (sweep w now ks d) ≡ entry b d
unfolding sweep
sweep-Fresh w now [] b d h = refl
sweep-Fresh w now (k ∷ ks) b d h =
    sweep-Fresh w now ks b (store k (recent w now (entry k d)) d) (rw one h) ∙ one
  where
    one : entry b (store k (recent w now (entry k d)) d) ≡ entry b d
    one = elim (Bool-cases (text_eq b k)) [
      | inl same ↦
          store-entry k b (recent w now (entry k d)) d
          ∙ rw same (rw (← (text_eq_iff b k).0 same) (recent-Fresh w now (entry b d) h))
      | inr other ↦ store-entry k b (recent w now (entry k d)) d ∙ rw other
    ]

entry-append_at :
    (b k : Text) (now : ℕ) (d : Dict (List ℕ))
    → entry b (append_at k now d) ≡ (if text_eq b k then entry b d ++ now ∷ [] else entry b d)
entry-append_at b k now d = elim (Bool-cases (text_eq b k)) [
  | inl same ↦
      entry-insert b k (entry k d ++ now ∷ []) d
      ∙ rw same (ap (λ x. entry x d ++ now ∷ []) (sym ((text_eq_iff b k).0 same)))
  | inr other ↦ entry-insert b k (entry k d ++ now ∷ []) d ∙ rw other
]

module _ (c : Settings) (now : ℕ) (minute hour b : Text) (d : Dict (List ℕ))
    (ne : text_eq b hour ≡ false) where
  touched : Dict (List ℕ)
  touched = touch hour (touch minute d)

  entry-touched : entry b touched ≡ entry b d
  unfolding touched
  entry-touched = entry-touch b hour (touch minute d) ∙ entry-touch b minute d

  entry_recorded :
      entry b (append_at hour now (append_at minute now touched))
      ≡ (if text_eq b minute then entry b d ++ now ∷ [] else entry b d)
  entry_recorded =
      entry-append_at b hour now (append_at minute now touched)
      ∙ rw ne (entry-append_at b minute now touched ∙ rw entry-touched)

  -- What the counting does to a bucket `b` other than the hour's.
  pub count_fallback-entry :
      let (v, d') = count_fallback c now minute hour d in
      (entry b d' ≡ (if is_passed v && text_eq b minute then entry b d ++ now ∷ [] else entry b d))
      × (is_passed v ≡ true → length (entry minute d) < c.rate_limit)
  unfolding count_fallback touched
  count_fallback-entry =
      elim (Bool-cases (ltb c.rate_limit (length (entry minute (touch minute d)) + 1))) [
        | inl over ↦ rw over (entry-touch b minute d, λ e. cc)
        | inr under ↦ elim (Bool-cases (ltb c.burst_limit (length (entry hour touched) + 1))) [
          | inl over ↦ rw (under, over) (entry-touched, λ e. cc)
          | inr room ↦
              rw (under, room)
                (entry_recorded, λ e. ground (arith, ap length (entry-touch minute minute d)))
        ]
      ]
