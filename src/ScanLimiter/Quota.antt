-- ===== src/ScanLimiter/Quota.antt =====
-- The quota of the fallback: passed requests per address and window of the rate limit.
use secu_scan.Prelude.{
  ℕ, zero, suc, ◌+◌, ◌*◌, ◌/◌, ◌≤◌, ◌<◌, max, ◌≡◌, refl, sym, ap, ◌∙◌, inl, inr, Bool, true, false,
  ◌&&◌, List, [], ◌∷◌, ◌++◌, arith, ◌==◌, if◌then◌else◌, Bool-cases, length, length-append, All,
  Text, text_eq, text_eq_iff, Dict, lookup, keys,
}
use native.Mathlib.Decide.{dec_le}
use native.Mathlib.Nat.{
  mul-le-mul_right, div-zero, le-div_iff_mul-le, div-mul-le_self, lt-div-mul-add,
}
use secu_scan.Ratelimit.Endpoint.{second, entry}
use secu_scan.ScanLimiter.{
  count_fallback, clean_stale, bucket_hr, Verdict, Settings, window_of, bucket_min, check_fallback,
}
use secu_scan.ScanLimiter.Keys.{bucket_min-injective, bucket_min-ne-hr}
use secu_scan.ScanLimiter.Fallback.{count_fallback-entry, sweep-Fresh, is_passed, Fresh}

-- Both windows are of some length.
abbrev pub HasWindows : Settings → Type 0
HasWindows c = (0 < c.rate_window) × (0 < c.burst_window)

-- A call of `_check_fallback` for `(now, address)`, with the number of requests of `ip` passed so far
-- in window `n` of the rate limit.
pub observe : Settings → Text → ℕ → Dict (List ℕ) → ℕ → ℕ × Text → Dict (List ℕ) × ℕ
observe c ip n d count (now, address) =
    let (v, d') = check_fallback c now address d in
    (
      d',
      (if is_passed v && (text_eq ip address && window_of now c.rate_window == n)
          then suc count
          else count),
    )

pub passes : Settings → Text → ℕ → Dict (List ℕ) → ℕ → List (ℕ × Text) → ℕ
passes c ip n d count [] = count
passes c ip n d count (r ∷ rs) =
    let (d', count') = observe c ip n d count r in passes c ip n d' count' rs

abbrev pub InOrder : ℕ → List (ℕ × Text) → Type 0
InOrder clock [] = Unit {0}
InOrder clock ((now, address) ∷ rs) = (clock ≤ now) × InOrder now rs

-- Until the clock leaves window `n`, the bucket holds one timestamp of that window for each passed
-- request.
record Counts (c : Settings) (ip : Text) (n clock : ℕ) (d : Dict (List ℕ)) (count : ℕ)
    : Type 0 where
  bounded : count ≤ c.rate_limit
  exact :
      window_of clock c.rate_window ≤ n
      → (length (entry (bucket_min ip n) d) ≡ count)
        × All (λ ts. window_of ts c.rate_window ≡ n) (entry (bucket_min ip n) d)

mul_mono : (w a b : ℕ) → a ≤ b → a * w ≤ b * w
mul_mono w a b h = mul-le-mul_right w h

div_mono : (w a b : ℕ) → a ≤ b → a / w ≤ b / w
div_mono zero a b h = omega (arith, div-zero a, div-zero b)
div_mono (suc w) a b h =
    (le-div_iff_mul-le {k = suc w} (omega arith)).1 (omega (arith, div-mul-le_self a (suc w)))

window_of_mono : (w a b : ℕ) → a ≤ b → window_of a w ≤ window_of b w
window_of_mono w a b h = div_mono w (a / second) (b / second) (omega arith)

All-snoc : (P : ℕ → Type 0) (xs : List ℕ) (x : ℕ) → All P xs → P x → All P (xs ++ x ∷ [])
All-snoc P [] x h p = (p, tt)
All-snoc P (y ∷ ys) x h p = (h.0, All-snoc P ys x h.1 p)

-- What is in the present window or a later one is not stale.
window-Fresh :
    (w v now n : ℕ) (xs : List ℕ)
    → 0 < w
    → window_of now w ≤ n
    → All (λ ts. window_of ts w ≡ n) xs
    → Fresh (max w v * second) now xs
window-Fresh w v now n [] pos le h = tt
window-Fresh w v now n (x ∷ xs) pos le h = (one, window-Fresh w v now n xs pos le h.1)
  where
    one : now < x + max w v * second
    one = omega (
      arith,
      mul_mono w (window_of now w) n le,
      lt-div-mul-add {a = now / second} pos,
      div-mul-le_self (x / second) w,
      ap (λ k. k * w) h.0,
      mul_mono second w (max w v) (omega arith),
    )

module _ (c : Settings) (set : HasWindows c) (ip : Text) (n : ℕ) where
  clean-entry :
      (now : ℕ) (d : Dict (List ℕ))
      → window_of now c.rate_window ≤ n
      → All (λ ts. window_of ts c.rate_window ≡ n) (entry (bucket_min ip n) d)
      → entry (bucket_min ip n) (clean_stale c now d) ≡ entry (bucket_min ip n) d
  unfolding clean_stale
  clean-entry now d le own =
      sweep-Fresh (max c.rate_window c.burst_window * second) now (keys d) (bucket_min ip n) d
        (window-Fresh c.rate_window c.burst_window now n (entry (bucket_min ip n) d) set.0 le own)

  -- The bucket of `(ip, n)` is the request's own exactly for `ip` in window `n`.
  own_bucket :
      (now : ℕ) (address : Text)
      → text_eq (bucket_min ip n) (bucket_min address (window_of now c.rate_window))
        ≡ (text_eq ip address && window_of now c.rate_window == n)
  own_bucket now address = ground (
    arith,
    text_eq_iff (bucket_min ip n) (bucket_min address (window_of now c.rate_window)),
    text_eq_iff ip address,
    bucket_min-injective ip address n (window_of now c.rate_window),
  )

  not_hour :
      (now : ℕ) (address : Text)
      → text_eq (bucket_min ip n) (bucket_hr address (window_of now c.burst_window)) ≡ false
  not_hour now address = ground (
    arith,
    text_eq_iff (bucket_min ip n) (bucket_hr address (window_of now c.burst_window)),
    bucket_min-ne-hr ip address n (window_of now c.burst_window),
  )

  -- The body of the check, as one function of the buckets.
  counted : ℕ → Text → Dict (List ℕ) → Verdict × Dict (List ℕ)
  counted now address d =
      count_fallback c now (bucket_min address (window_of now c.rate_window))
        (bucket_hr address (window_of now c.burst_window)) (clean_stale c now d)

  check_fallback-counted :
      (now : ℕ) (address : Text) (d : Dict (List ℕ))
      → check_fallback c now address d ≡ counted now address d
  unfolding check_fallback counted
  check_fallback-counted now address d = ground (arith, set.0, set.1)

  -- A request in the present window or before it.
  counted_live :
      (now count : ℕ) (address : Text) (d : Dict (List ℕ))
      → window_of now c.rate_window ≤ n
      → count ≤ c.rate_limit
      → length (entry (bucket_min ip n) d) ≡ count
      → All (λ ts. window_of ts c.rate_window ≡ n) (entry (bucket_min ip n) d)
      → (own : Bool) → own ≡ (text_eq ip address && window_of now c.rate_window == n)
      → Counts c ip n now
          (counted now address d).1
          (if is_passed (counted now address d).0 && own then suc count else count)
  unfolding counted
  counted_live now count address d le few exact own_all own is_own =
      elim (Bool-cases (is_passed verdict && own)) [
        | inl hit ↦ rw hit (record {
          bounded = omega (arith, step.1 (ground arith), ap length (minute_entry hit), exact);
          exact = λ _. rw (entry_hit hit) (
            omega (arith, length-append (entry b d) (now ∷ []), exact),
            All-snoc (λ ts. window_of ts c.rate_window ≡ n) (entry b d) now own_all (ground arith),
          );
        })
        | inr miss ↦
            rw miss (record { bounded = few; exact = λ _. rw (entry_miss miss) (exact, own_all) })
      ]
    where
      b : Text
      b = bucket_min ip n

      minute : Text
      minute = bucket_min address (window_of now c.rate_window)

      hour : Text
      hour = bucket_hr address (window_of now c.burst_window)

      verdict : Verdict
      verdict = (count_fallback c now minute hour (clean_stale c now d)).0

      kept : entry b (clean_stale c now d) ≡ entry b d
      kept = clean-entry now d le own_all

      same : text_eq b minute ≡ own
      same = own_bucket now address ∙ sym is_own

      step :
          let (v, d') = count_fallback c now minute hour (clean_stale c now d) in
          (entry b d' ≡ (
            if is_passed v && text_eq b minute
            then entry b (clean_stale c now d) ++ now ∷ []
            else entry b (clean_stale c now d)))
          × (is_passed v ≡ true → length (entry minute (clean_stale c now d)) < c.rate_limit)
      step = count_fallback-entry c now minute hour b (clean_stale c now d) (not_hour now address)

      minute_entry :
          is_passed verdict && own ≡ true → entry minute (clean_stale c now d) ≡ entry b d
      minute_entry hit =
          ap (λ x. entry x (clean_stale c now d))
            (sym ((text_eq_iff b minute).0 (ground (arith, same))))
          ∙ kept

      changed : Dict (List ℕ)
      changed = (count_fallback c now minute hour (clean_stale c now d)).1

      entry_hit : is_passed verdict && own ≡ true → entry b changed ≡ entry b d ++ now ∷ []
      entry_hit hit = step.0 ∙ ground (arith, hit, same, ap (λ xs. xs ++ now ∷ []) kept)

      entry_miss : is_passed verdict && own ≡ false → entry b changed ≡ entry b d
      entry_miss miss = step.0 ∙ ground (arith, miss, same, kept)

  observe-Counts :
      (clock count : ℕ) (d : Dict (List ℕ)) (now : ℕ) (address : Text)
      → clock ≤ now
      → Counts c ip n clock d count
      → Counts c ip n now
          (observe c ip n d count (now, address)).0
          (observe c ip n d count (now, address)).1
  unfolding observe
  observe-Counts clock count d now address le k =
      rw (check_fallback-counted now address d) (elim (dec_le (window_of now c.rate_window) n) [
        | yes live ↦
            let e = k.exact (omega (arith, window_of_mono c.rate_window clock now le)) in
            counted_live now count address d live k.bounded e.0 e.1 _ refl
        | no over ↦
            rw (other_window over)
              (record { bounded = k.bounded; exact = λ live. absurd (over live) })
      ])
    where
      other_window :
          ¬ (window_of now c.rate_window ≤ n)
          → (is_passed (counted now address d).0
              && (text_eq ip address && window_of now c.rate_window == n))
            ≡ false
      other_window over = ground arith

  passes-le_from :
      (requests : List (ℕ × Text)) (clock count : ℕ) (d : Dict (List ℕ))
      → InOrder clock requests
      → Counts c ip n clock d count
      → passes c ip n d count requests ≤ c.rate_limit
  unfolding passes
  passes-le_from [] clock count d o k = k.bounded
  passes-le_from ((now, address) ∷ requests) clock count d o k =
      passes-le_from requests now (observe c ip n d count (now, address)).1
        (observe c ip n d count (now, address)).0 o.1
        (observe-Counts clock count d now address o.0 k)

-- With both windows positive, over any requests of any addresses in order of time from the empty
-- history, the fallback passes at most `rate_limit` requests of `ip` in window `n` of the rate limit,
-- the stretch from `n * rate_window` seconds up to `(n + 1) * rate_window`.
pub passes-le-rate_limit :
    (c : Settings) (ip : Text) (n : ℕ) (requests : List (ℕ × Text))
    → HasWindows c
    → InOrder 0 requests
    → passes c ip n [] 0 requests ≤ c.rate_limit
unfolding lookup
passes-le-rate_limit c ip n requests set o =
    passes-le_from c set ip n requests 0 0 [] o
      (record { bounded = omega arith; exact = λ _. (refl, tt) })
