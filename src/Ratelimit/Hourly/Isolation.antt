-- ===== src/Ratelimit/Hourly/Isolation.antt =====
-- What one bucket's calls and `reset` do to other buckets.
use secu_scan.Prelude.{
  ℕ, ◌≡◌, sym, ◌∙◌, ◌≢◌, false, some, List, [], ◌∷◌, ◌++◌, arith, if◌then◌else◌, Text, text_eq_iff,
  ends_with, has_char, ends_with-append, split_last_unique, Dict, lookup, or_default, lookup-insert,
}
use secu_scan.Ratelimit.Window.{recent}
use secu_scan.Ratelimit.Hourly.{
  RateLimiter, Call, hour, bucket, history, can_execute, clear_matching, reset,
}

-- A plugin id as the plugins have it.
abbrev pub NoColon : Text → Type 0
NoColon p = has_char b':' p ≡ false

bucket-injective :
    (client client' plugin plugin' : Text)
    → NoColon plugin
    → NoColon plugin'
    → bucket client plugin ≡ bucket client' plugin'
    → (client ≡ client') × (plugin ≡ plugin')
unfolding bucket
bucket-injective client client' plugin plugin' h h' e =
    split_last_unique b':' client client' plugin plugin' h h' e

abbrev SamePair : Call → Call → Type 0
SamePair c d = (c.client_id ≡ d.client_id) × (c.plugin_id ≡ d.plugin_id)

can_execute-history :
    (s : RateLimiter) (c : Call) (b : Text)
    → b ≢ bucket c.client_id c.plugin_id
    → history (can_execute s c).1 b ≡ history s b
unfolding can_execute history
can_execute-history s c b ne =
    let k = bucket c.client_id c.plugin_id in
    let kept = recent hour c.now (history s k) in
    ground (
      arith,
      text_eq_iff b k,
      lookup-insert b k kept s.task_history,
      lookup-insert b k (kept ++ c.now ∷ []) s.task_history,
    )

answer_of_history :
    (s t : RateLimiter) (c : Call)
    → history s (bucket c.client_id c.plugin_id) ≡ history t (bucket c.client_id c.plugin_id)
    → (can_execute s c).0 ≡ (can_execute t c).0
unfolding can_execute
answer_of_history s t c e = ground arith

-- Where plugin ids hold no colon, a call of one client on one plugin does not change the answer to
-- a call with another client or another plugin.
pub can_execute-independent :
    (s : RateLimiter) (c d : Call)
    → NoColon c.plugin_id
    → NoColon d.plugin_id
    → ¬ SamePair c d
    → (can_execute (can_execute s c).1 d).0 ≡ (can_execute s d).0
can_execute-independent s c d hc hd ne = answer_of_history (can_execute s c).1 s d (
    can_execute-history s c (bucket d.client_id d.plugin_id)
      (λ e. ne (bucket-injective c.client_id d.client_id c.plugin_id d.plugin_id hc hd (sym e))))

lookup-clear_matching :
    (suffix b : Text) (d : Dict (List ℕ))
    → or_default [] (lookup b (clear_matching suffix d))
      ≡ (if ends_with b suffix then [] else or_default [] (lookup b d))
unfolding lookup clear_matching
lookup-clear_matching suffix b [] = ground arith
lookup-clear_matching suffix b ((k, v) ∷ d) =
    ground (arith, text_eq_iff b k, lookup-clear_matching suffix b d)

-- `reset` of a plugin empties the bucket of every client with that plugin, and leaves a bucket that
-- does not end in the plugin's suffix as it was.
pub reset_plugin :
    (s : RateLimiter) (x : ℕ) (p client b : Text)
    → (history (reset s (some (x ∷ p))) (bucket client (x ∷ p)) ≡ [])
      × (ends_with b (b':' ∷ x ∷ p) ≡ false → history (reset s (some (x ∷ p))) b ≡ history s b)
unfolding reset history bucket
reset_plugin s x p client b = (
  lookup-clear_matching (b':' ∷ x ∷ p) (client ++ b':' ∷ x ∷ p) s.task_history
      ∙ rw (ends_with-append client (b':' ∷ x ∷ p)),
  λ h. lookup-clear_matching (b':' ∷ x ∷ p) b s.task_history ∙ rw h,
)
