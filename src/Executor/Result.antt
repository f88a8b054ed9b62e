-- ===== src/Executor/Result.antt =====
-- `_resolve_execution_timeout` and `_classify_command_result`.
use secu_scan.Prelude.{
  ℕ, ◌≤◌, ◌<◌, min, Bool, false, ◌&&◌, ◌||◌, Option, none, some, List, [], ◌∷◌, arith, ltb, ◌==◌,
  if◌then◌else◌, any, Text, codes, lower, starts_with, or_default,
}

-- What `int` makes of an input: it raises, or gives a number.
pub data Number : Type 0 where
  unreadable negative : Number
  natural : ℕ → Number

-- `_resolve_execution_timeout` over the inputs `max_scan_time` and `timeout`
unfoldable pub first_timeout : ℕ → List Number → ℕ
first_timeout cap [] = cap
first_timeout cap (unreadable ∷ rest) = first_timeout cap rest
first_timeout cap (negative ∷ rest) = first_timeout cap rest
first_timeout cap (natural t ∷ rest) =
    let later = first_timeout cap rest in if ltb 0 t then min t cap else later

unfoldable pub resolve_execution_timeout : ℕ → Number → Number → ℕ
resolve_execution_timeout cap max_scan_time timeout =
    first_timeout cap (max_scan_time ∷ timeout ∷ [])

first_timeout-bounds :
    (cap : ℕ) (raw : List Number)
    → (first_timeout cap raw ≤ cap) × (0 < cap → 0 < first_timeout cap raw)
unfolding first_timeout
first_timeout-bounds cap [] = ground arith
first_timeout-bounds cap (unreadable ∷ rest) = first_timeout-bounds cap rest
first_timeout-bounds cap (negative ∷ rest) = first_timeout-bounds cap rest
first_timeout-bounds cap (natural t ∷ rest) = ground (arith, first_timeout-bounds cap rest)

-- Whatever the inputs are, the timeout is at most the operator's cap, and positive if the cap is.
pub timeout-bounds :
    (cap : ℕ) (max_scan_time timeout : Number)
    → (resolve_execution_timeout cap max_scan_time timeout ≤ cap)
      × (0 < cap → 0 < resolve_execution_timeout cap max_scan_time timeout)
unfolding resolve_execution_timeout
timeout-bounds cap max_scan_time timeout = first_timeout-bounds cap (max_scan_time ∷ timeout ∷ [])

-- An exit code: a number, or minus the number of a signal.
pub data Code : Type 0 where
  exit signal : ℕ → Code

abbrev pub same_code : Code → Code → Bool
same_code (exit m) (exit n) = m == n
same_code (signal m) (signal n) = m == n
same_code (exit m) (signal n) = false
same_code (signal m) (exit n) = false

-- `p in s`
unfoldable pub occurs : Text → Text → Bool
occurs p [] = starts_with [] p
occurs p (c ∷ s) = starts_with (c ∷ s) p || occurs p s

-- `plugin.output`: the tolerated codes, `none` where one of them is no number, and the patterns, `none`
-- where one is no text
pub record OutputConfig : Type 0 where
  pub nonfatal_exit_codes : Option (List Code)
  pub success_output_patterns : List (Option Text)

-- The status, and for a failure whether its message is the output (`rejected_options`) or the code.
pub data Classified : Type 0 where
  completed rejected_options nonzero_exit : Classified

unfoldable pub matches_pattern : Text → List (Option Text) → Bool
matches_pattern output [] = false
matches_pattern output (none ∷ rest) = matches_pattern output rest
matches_pattern output (some p ∷ rest) = occurs (lower p) output || matches_pattern output rest

unfoldable pub classify_command_result : OutputConfig → Text → Code → Classified
classify_command_result config output exit_code =
    let normalized = lower output in
    if occurs (codes "unknown option:") normalized
      || occurs (codes "flag provided but not defined:") normalized
    then rejected_options
    else if same_code exit_code (exit 0)
    then completed
    else if any (same_code exit_code) (or_default [] config.nonfatal_exit_codes)
        && matches_pattern normalized config.success_output_patterns
    then completed
    else nonzero_exit
