-- ===== src/Findings/Groups.antt =====
-- `build_finding_groups`.
pub mod Grouping
use secu_scan.Prelude.{
  ℕ, max, Bool, ◌&&◌, ◌||◌, Option, none, some, List, [], ◌∷◌, ◌++◌, ltb, ◌==◌, if◌then◌else◌,
  length, Text, text_eq, strip, lower, Dict, lookup, insert,
}
use secu_scan.Findings.Severity.{Severity, normalize_severity, severity_rank, text_leb, sort}

-- What is read of a finding: its group's key (`str(…)` of the group's id, else the finding's, else a stable
-- id), its severity, and so on; a confidence is in hundredths, and moments are texts. A number, a moment or
-- a text that is missing is 0 or empty.
pub record Finding : Type 0 where
  pub group_key : Text
  pub diff_key : Text
  pub id : Text
  pub title : Text
  pub severity : Option Text
  pub validated : Bool
  pub confidence : ℕ
  pub first_seen_at : Text
  pub last_seen_at : Text
  pub discovered_at : Text
  pub occurrence_count : ℕ
  pub evidence_count : ℕ
  pub evidence : List Text
  pub corroborating_sources : List Text

-- What a group holds besides what it copies from its first finding.
pub record Group : Type 0 where
  pub group_id : Text
  pub group_title : Text
  pub group_severity : Severity
  pub group_validated : Bool
  pub group_confidence : ℕ
  pub group_first_seen_at : Text
  pub group_last_seen_at : Text
  pub group_occurrences : ℕ
  pub group_evidence : ℕ
  pub sources : List Text
  pub latest_finding_id : Text
  pub findings : List Finding

-- `a or b` on numbers and on texts
abbrev pub or_number : ℕ → ℕ → ℕ
or_number a b = if a == 0 then b else a

abbrev pub or_text : Text → Text → Text
or_text [] t = t
or_text (c ∷ s) t = c ∷ s

abbrev pub max_text : Text → Text → Text
max_text s t = if text_leb t s then s else t

abbrev pub min_text : Text → Text → Text
min_text s t = if text_leb s t then s else t

-- `_sort_sources`: the stripped sources that are not empty, once each, in order
unfoldable pub add_source : Text → List Text → List Text
add_source s [] = s ∷ []
add_source s (t ∷ ts) =
    if text_eq s t then t ∷ ts else if text_leb s t then s ∷ t ∷ ts else t ∷ add_source s ts

unfoldable pub sort_sources : List Text → List Text
unfolding add_source
sort_sources [] = []
sort_sources (s ∷ ss) =
    let rest = sort_sources ss in elim (strip s) [ [] ↦ rest | c ∷ t ↦ add_source (c ∷ t) rest ]

-- The group of its first finding
unfoldable pub new_group : Text → Finding → Group
new_group key f = record {
  group_id = key;
  group_title = f.title;
  group_severity = normalize_severity f.severity;
  group_validated = f.validated;
  group_confidence = f.confidence;
  group_first_seen_at = or_text f.first_seen_at f.discovered_at;
  group_last_seen_at = or_text f.last_seen_at f.discovered_at;
  group_occurrences = or_number f.occurrence_count 1;
  group_evidence = or_number f.evidence_count (length f.evidence);
  sources = f.corroborating_sources;
  latest_finding_id = f.id;
  findings = f ∷ [];
}

-- The update of a group by a later finding
unfoldable pub merge : Group → Finding → Group
merge g f = record g {
  group_validated = g.group_validated || f.validated;
  group_severity =
      if ltb (severity_rank g.group_severity) (severity_rank (normalize_severity f.severity))
      then normalize_severity f.severity
      else g.group_severity;
  group_last_seen_at = max_text g.group_last_seen_at (or_text f.last_seen_at f.discovered_at);
  group_first_seen_at = min_text g.group_first_seen_at (or_text f.first_seen_at f.discovered_at);
  group_occurrences = max (or_number g.group_occurrences 1) (or_number f.occurrence_count 1);
  group_evidence = max g.group_evidence (or_number f.evidence_count (length f.evidence));
  sources = sort_sources (g.sources ++ f.corroborating_sources);
  group_confidence = max g.group_confidence f.confidence;
  findings = g.findings ++ f ∷ [];
}

-- The body of the loop
unfoldable pub add_finding : Dict Group → Finding → Dict Group
add_finding groups f = elim (lookup f.group_key groups) [
  | none ↦ insert f.group_key (new_group f.group_key f) groups
  | some current ↦ insert f.group_key (merge current f) groups
]

unfoldable pub collect : List Finding → Dict Group → Dict Group
collect [] groups = groups
collect (f ∷ fs) groups = collect fs (add_finding groups f)

unfoldable pub group_values : Dict Group → List Group
group_values [] = []
group_values ((key, g) ∷ d) = g ∷ group_values d

-- The order of the groups: by severity and confidence, highest first, and by title
unfoldable pub goes_before : Group → Group → Bool
goes_before a b =
    ltb (severity_rank b.group_severity) (severity_rank a.group_severity)
    || (severity_rank a.group_severity == severity_rank b.group_severity
        && (ltb b.group_confidence a.group_confidence
            || (a.group_confidence == b.group_confidence
                && text_leb (lower a.group_title) (lower b.group_title))))

unfoldable pub build_finding_groups : List Finding → List Group
unfolding collect group_values
build_finding_groups findings = sort goes_before (group_values (collect findings []))
