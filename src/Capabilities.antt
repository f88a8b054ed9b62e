-- ===== src/Capabilities.antt =====
-- backend/secuscan/capabilities.py: what a plugin needs, against what the operator denies. Sets of
-- tokens are lists of which only membership is read.
pub mod Policy
pub mod Exact
pub mod Building
mod Tests
use secu_scan.Prelude.{
  Option, none, some, List, [], ◌∷◌, if◌then◌else◌, filter, Text, codes, text_eq, strip, lower,
  text_in,
}

-- `ALL_CAPABILITIES`
abbrev pub all_capabilities : List Text
all_capabilities =
    codes "network"
    ∷ codes "filesystem"
    ∷ codes "docker"
    ∷ codes "credentials"
    ∷ codes "intrusive"
    ∷ codes "exploit"
    ∷ []

-- `_SAFETY_LEVEL_IMPLIED.get(safety_level, ["network"])`
unfoldable pub implied : Text → List Text
implied level =
    if text_eq level (codes "safe")
    then codes "network" ∷ []
    else if text_eq level (codes "intrusive")
    then codes "network" ∷ codes "intrusive" ∷ []
    else if text_eq level (codes "exploit")
    then codes "network" ∷ codes "intrusive" ∷ codes "exploit" ∷ []
    else codes "network" ∷ []

-- The `ValueError`s carry the unknown tokens.
pub data Checked : Type 0 where
  unknown : List Text → Checked
  known : List Text → Checked

abbrev pub normal : Text → Text
normal raw = lower (strip raw)

unfoldable pub cons_known : Text → Checked → Checked
cons_known t (unknown ts) = unknown ts
cons_known t (known ts) = known (t ∷ ts)

-- `validate_capability_list`: the first unknown entry is raised as it was written.
unfoldable pub validate_capability_list : List Text → Checked
validate_capability_list [] = known []
validate_capability_list (raw ∷ rest) =
    let valid = validate_capability_list rest in
    if text_in (normal raw) all_capabilities
    then cons_known (normal raw) valid
    else unknown (raw ∷ [])

-- `effective_capabilities`
unfoldable pub effective_capabilities : Option (List Text) → Text → Checked
effective_capabilities none level = known (implied level)
effective_capabilities (some []) level = known (implied level)
effective_capabilities (some (t ∷ ts)) level = validate_capability_list (t ∷ ts)

-- The loop of `CapabilityEnforcer.__init__`, over the tokens found known and unknown so far.
unfoldable pub sort_tokens : List Text → List Text × List Text
sort_tokens [] = ([], [])
sort_tokens (tok ∷ rest) =
    let (normalised, unrecognised) = sort_tokens rest in
    if text_eq (normal tok) []
    then (normalised, unrecognised)
    else if text_in (normal tok) all_capabilities
    then (normal tok ∷ normalised, unrecognised)
    else (normalised, strip tok ∷ unrecognised)

unfoldable pub denied_or_unknown : List Text × List Text → Checked
denied_or_unknown (normalised, []) = known normalised
denied_or_unknown (normalised, u ∷ us) = unknown (u ∷ us)

-- `CapabilityEnforcer(denied_capabilities)`: the denied set, or the `ValueError`.
pub build : Option (List Text) → Checked
build none = known []
build (some raw) = denied_or_unknown (sort_tokens raw)

-- How `check` ends: it returns, or raises one of two errors.
pub data Verdict : Type 0 where
  passed : Verdict
  value_error : List Text → Verdict
  capability_denied : List Text → Verdict

-- `required & self._denied`
unfoldable pub blocked : List Text → List Text → List Text
blocked required denied = filter (λ c. text_in c denied) required

verdict_of_blocked : List Text → Verdict
verdict_of_blocked [] = passed
verdict_of_blocked (c ∷ cs) = capability_denied (c ∷ cs)

check_required : List Text → Checked → Verdict
unfolding verdict_of_blocked blocked
check_required denied (unknown ts) = value_error ts
check_required denied (known required) = verdict_of_blocked (blocked required denied)

-- `CapabilityEnforcer.check`
pub check : List Text → Option (List Text) → Text → Verdict
unfolding check_required
check [] declared level = passed
check (d ∷ ds) declared level = check_required (d ∷ ds) (effective_capabilities declared level)
