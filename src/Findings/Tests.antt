-- ===== src/Findings/Tests.antt =====
-- The theorems of finding_intelligence.py at concrete inputs.
use secu_scan.Prelude.{
  ◌≡◌, refl, true, false, none, some, List, [], ◌∷◌, length, any, Text, codes, text_eq, lower,
  lookup,
}
use secu_scan.Findings.Severity.{high, normalize_severity, severity_rank}
use secu_scan.Findings.Groups.{Finding, Group, collect}
use secu_scan.Findings.Groups.Grouping.{findings_of, group_facts, highest}
use secu_scan.Findings.Assets.{AssetFinding, build_asset_summary}
use secu_scan.Findings.Assets.Counts.{sum_of, count_validated, summary-counts}

abbrev finding : Text → Text → Text → Finding
finding key title severity = record {
  group_key = key;
  diff_key = key;
  id = title;
  title = title;
  severity = some severity;
  validated = false;
  confidence = 50;
  first_seen_at = [];
  last_seen_at = [];
  discovered_at = codes "2026";
  occurrence_count = 1;
  evidence_count = 0;
  evidence = [];
  corroborating_sources = [];
}

abbrev scan : List Finding
scan =
    finding (codes "g1") (codes "a") (codes "low")
    ∷ finding (codes "g2") (codes "b") (codes "medium")
    ∷ finding (codes "g1") (codes "c") (codes "HIGH")
    ∷ []

group_facts_example :
    (g : Group) × (lookup (codes "g1") (collect scan []) ≡ some g)
    × (g.findings ≡ findings_of (codes "g1") scan)
    × (severity_rank g.group_severity
        ≡ highest
            (severity_rank (normalize_severity (some (codes "low"))))
            (finding (codes "g1") (codes "c") (codes "HIGH") ∷ []))
    × (g.group_validated ≡ any (λ f. f.validated) (findings_of (codes "g1") scan))
unfolding text_eq
group_facts_example =
    group_facts (codes "g1") (finding (codes "g1") (codes "a") (codes "low")) scan
      (finding (codes "g1") (codes "c") (codes "HIGH") ∷ []) refl

high_normal : normalize_severity (some (codes "HIGH")) ≡ high
unfolding normalize_severity text_eq lower
high_normal = refl

abbrev asset_findings : List AssetFinding
asset_findings =
    record {
      finding_asset = codes "x";
      finding_target = codes "host";
      finding_severity = none;
      is_validated = true;
    }
    ∷ []

summary-counts_example :
    (sum_of (λ a. a.finding_count) (build_asset_summary asset_findings []) ≡ length asset_findings)
    × (sum_of (λ a. a.validated_count) (build_asset_summary asset_findings [])
        ≡ count_validated asset_findings)
summary-counts_example = summary-counts asset_findings []
