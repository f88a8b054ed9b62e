-- ===== src/Findings/Diff.antt =====
-- `build_scan_diff`.
pub mod Compared
use secu_scan.Prelude.{
  ℕ, Bool, true, false, not, ◌||◌, Option, none, some, List, [], ◌∷◌, ◌==◌, if◌then◌else◌, length,
  Text, text_eq, Dict, lookup, is_some, insert,
}
use secu_scan.Findings.Groups.{Finding, Group, build_finding_groups}

-- The last finding of each key: the findings by their keys, as a dictionary
unfoldable pub by_key : List Finding → Dict Finding → Dict Finding
by_key [] d = d
by_key (f ∷ fs) d = by_key fs (insert f.diff_key f d)

-- What is read of a key that both scans have
pub record Changed : Type 0 where
  pub before : Finding
  pub after : Finding
  pub changed_id : Text

abbrev pub same_severity_text : Option Text → Option Text → Bool
same_severity_text none none = true
same_severity_text none (some t) = false
same_severity_text (some s) none = false
same_severity_text (some s) (some t) = text_eq s t

abbrev pub same_flag : Bool → Bool → Bool
same_flag true b = b
same_flag false b = not b

-- The test for a change
unfoldable pub is_changed : Finding → Finding → Bool
is_changed before after =
    not (same_severity_text before.severity after.severity)
    || not (same_flag before.validated after.validated)
    || not (before.confidence == after.confidence)

-- The values of the first dictionary whose keys the second does not have; Python's set of keys has no
-- order, and the order of the dictionary is taken.
unfoldable pub missing_from : Dict Finding → Dict Finding → List Finding
missing_from other [] = []
missing_from other ((key, f) ∷ d) =
    let rest = missing_from other d in if is_some (lookup key other) then rest else f ∷ rest

unfoldable pub changed_in : Dict Finding → Dict Finding → List Changed
changed_in previous [] = []
changed_in previous ((key, after) ∷ d) =
    let rest = changed_in previous d in
    elim (lookup key previous) [
      | none ↦ rest
      | some before ↦
          if is_changed before after
          then record { before = before; after = after; changed_id = key } ∷ rest
          else rest
    ]

pub record ScanDiff : Type 0 where
  pub new : List Group
  pub resolved : List Group
  pub changed : List Changed
  pub new_count : ℕ
  pub resolved_count : ℕ
  pub changed_count : ℕ

unfoldable pub build_scan_diff : List Finding → List Finding → ScanDiff
unfolding by_key missing_from changed_in
build_scan_diff current_findings previous_findings =
    let current = by_key current_findings [] in
    let previous = by_key previous_findings [] in
    let new_groups = missing_from previous current in
    let resolved_groups = missing_from current previous in
    let changed_groups = changed_in previous current in
    record {
      new = build_finding_groups new_groups;
      resolved = build_finding_groups resolved_groups;
      changed = changed_groups;
      new_count = length new_groups;
      resolved_count = length resolved_groups;
      changed_count = length changed_groups;
    }
