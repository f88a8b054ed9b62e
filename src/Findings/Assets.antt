-- ===== src/Findings/Assets.antt =====
-- `build_asset_summary`.
pub mod Counts
use secu_scan.Prelude.{
  ℕ, ◌+◌, Bool, ◌&&◌, ◌||◌, Option, List, [], ◌∷◌, ◌++◌, ltb, ◌==◌, if◌then◌else◌, Text, Dict,
  lookup, or_default, insert,
}
use secu_scan.Findings.Severity.{Severity, info, normalize_severity, severity_rank, text_leb, sort}

-- What is read of a service and of a finding: the key of its asset (`str(…)` of the asset's id, or a stable
-- id), a label, and a finding's severity and validation.
pub record Service : Type 0 where
  pub service_asset : Text
  pub service_label : Text

pub record AssetFinding : Type 0 where
  pub finding_asset : Text
  pub finding_target : Text
  pub finding_severity : Option Text
  pub is_validated : Bool

pub record Asset : Type 0 where
  pub label : Text
  pub services : List Service
  pub finding_count : ℕ
  pub validated_count : ℕ
  pub highest_severity : Severity

-- The entry that `setdefault` makes
abbrev pub new_asset : Text → Asset
new_asset label = record {
  label = label;
  services = [];
  finding_count = 0;
  validated_count = 0;
  highest_severity = info;
}

unfoldable pub add_service : Dict Asset → Service → Dict Asset
add_service assets s =
    let entry = or_default (new_asset s.service_label) (lookup s.service_asset assets) in
    insert s.service_asset (record entry { services = entry.services ++ s ∷ [] }) assets

-- The update of an entry by a finding
unfoldable pub count_finding : Asset → AssetFinding → Asset
count_finding entry f = record entry {
  finding_count = entry.finding_count + 1;
  validated_count = if f.is_validated then entry.validated_count + 1 else entry.validated_count;
  highest_severity =
      if ltb (severity_rank entry.highest_severity)
        (severity_rank (normalize_severity f.finding_severity))
      then normalize_severity f.finding_severity
      else entry.highest_severity;
}

unfoldable pub add_asset_finding : Dict Asset → AssetFinding → Dict Asset
add_asset_finding assets f =
    let entry = or_default (new_asset f.finding_target) (lookup f.finding_asset assets) in
    insert f.finding_asset (count_finding entry f) assets

unfoldable pub add_services : List Service → Dict Asset → Dict Asset
add_services [] assets = assets
add_services (s ∷ ss) assets = add_services ss (add_service assets s)

unfoldable pub add_asset_findings : List AssetFinding → Dict Asset → Dict Asset
add_asset_findings [] assets = assets
add_asset_findings (f ∷ fs) assets = add_asset_findings fs (add_asset_finding assets f)

unfoldable pub asset_values : Dict Asset → List Asset
asset_values [] = []
asset_values ((key, a) ∷ d) = a ∷ asset_values d

-- The order of the assets: by severity and number of findings, highest first, and by label
unfoldable pub ranks_before : Asset → Asset → Bool
ranks_before a b =
    ltb (severity_rank b.highest_severity) (severity_rank a.highest_severity)
    || (severity_rank a.highest_severity == severity_rank b.highest_severity
        && (ltb b.finding_count a.finding_count
            || (a.finding_count == b.finding_count && text_leb a.label b.label)))

unfoldable pub build_asset_summary : List AssetFinding → List Service → List Asset
unfolding asset_values
build_asset_summary findings services =
    sort ranks_before (asset_values (add_asset_findings findings (add_services services [])))
