-- ===== src/Findings/Assets/Counts.antt =====
-- The counts of an asset summary.
use secu_scan.Prelude.{
  ℕ, ◌+◌, ◌≡◌, refl, ap, ◌∙◌, Option, none, some, List, [], ◌∷◌, ◌++◌, arith, if◌then◌else◌, length,
  Text, Dict, lookup, or_default, insert,
}
use secu_scan.Findings.Severity.{sort, insert_ordered}
use secu_scan.Findings.Assets.{
  Service, AssetFinding, Asset, new_asset, add_service, count_finding, add_asset_finding,
  add_services, add_asset_findings, asset_values, ranks_before, build_asset_summary,
}

-- A number of a finding, summed over findings
abbrev pub weights : (AssetFinding → ℕ) → List AssetFinding → ℕ
weights weight [] = 0
weights weight (f ∷ fs) = weight f + weights weight fs

weights-one : (fs : List AssetFinding) → weights (λ f. 1) fs ≡ length fs
weights-one [] = refl
weights-one (f ∷ fs) = omega (arith, weights-one fs)

abbrev pub count_validated : List AssetFinding → ℕ
count_validated fs = weights (λ f. if f.is_validated then 1 else 0) fs

-- A number of an asset, summed over assets
abbrev pub sum_of : (Asset → ℕ) → List Asset → ℕ
sum_of measure [] = 0
sum_of measure (a ∷ as') = measure a + sum_of measure as'

module _ (measure : Asset → ℕ) where
  abbrev total : Dict Asset → ℕ
  total d = sum_of measure (asset_values d)

  abbrev held : Option Asset → ℕ
  held none = 0
  held (some a) = measure a

  -- An update changes the sum by what it changes in its entry.
  total-insert :
      (key : Text) (new : Asset) (d : Dict Asset)
      → total (insert key new d) + held (lookup key d) ≡ total d + measure new
  unfolding insert lookup asset_values
  total-insert key new [] = omega arith
  total-insert key new ((j, a) ∷ d) = ground (arith, total-insert key new d)

  held-or_default :
      (label : Text) (o : Option Asset)
      → measure (new_asset label) ≡ 0
      → measure (or_default (new_asset label) o) ≡ held o
  held-or_default label none h = h
  held-or_default label (some a) h = refl

  sum_of-insert_ordered :
      (a : Asset) (as' : List Asset)
      → sum_of measure (insert_ordered ranks_before a as') ≡ measure a + sum_of measure as'
  unfolding insert_ordered
  sum_of-insert_ordered a [] = refl
  sum_of-insert_ordered a (b ∷ as') = ground (arith, sum_of-insert_ordered a as')

  sum_of-sort : (as' : List Asset) → sum_of measure (sort ranks_before as') ≡ sum_of measure as'
  unfolding sort
  sum_of-sort [] = refl
  sum_of-sort (a ∷ as') =
      sum_of-insert_ordered a (sort ranks_before as') ∙ ap (λ n. measure a + n) (sum_of-sort as')

  -- A number that a new asset does not have and that services do not change is summed over the findings.
  module _ (weight : AssetFinding → ℕ) (fresh : (label : Text) → measure (new_asset label) ≡ 0)
      (kept : (a : Asset) (ss : List Service) → measure (record a { services = ss }) ≡ measure a)
      (counted : (a : Asset) (f : AssetFinding)
        → measure (count_finding a f) ≡ measure a + weight f) where
    total-add_service : (d : Dict Asset) (s : Service) → total (add_service d s) ≡ total d
    unfolding add_service
    total-add_service d s =
        let entry = or_default (new_asset s.service_label) (lookup s.service_asset d) in
        omega (
          arith,
          total-insert s.service_asset (record entry { services = entry.services ++ s ∷ [] }) d,
          kept entry (entry.services ++ s ∷ []),
          held-or_default s.service_label (lookup s.service_asset d) (fresh s.service_label),
        )

    total-add_services : (ss : List Service) (d : Dict Asset) → total (add_services ss d) ≡ total d
    unfolding add_services
    total-add_services [] d = refl
    total-add_services (s ∷ ss) d = total-add_services ss (add_service d s) ∙ total-add_service d s

    total-add_asset_finding :
        (d : Dict Asset) (f : AssetFinding) → total (add_asset_finding d f) ≡ total d + weight f
    unfolding add_asset_finding
    total-add_asset_finding d f =
        let entry = or_default (new_asset f.finding_target) (lookup f.finding_asset d) in
        omega (
          arith,
          total-insert f.finding_asset (count_finding entry f) d,
          counted entry f,
          held-or_default f.finding_target (lookup f.finding_asset d) (fresh f.finding_target),
        )

    total-add_asset_findings :
        (fs : List AssetFinding) (d : Dict Asset)
        → total (add_asset_findings fs d) ≡ total d + weights weight fs
    unfolding add_asset_findings
    total-add_asset_findings [] d = omega arith
    total-add_asset_findings (f ∷ fs) d =
        omega
          (arith, total-add_asset_findings fs (add_asset_finding d f), total-add_asset_finding d f)

    summary-weights :
        (fs : List AssetFinding) (ss : List Service)
        → sum_of measure (build_asset_summary fs ss) ≡ weights weight fs
    unfolding build_asset_summary asset_values
    summary-weights fs ss =
        sum_of-sort (asset_values (add_asset_findings fs (add_services ss [])))
        ∙ total-add_asset_findings fs (add_services ss [])
        ∙ ap (λ n. n + weights weight fs) (total-add_services ss [])
        ∙ omega arith

count_finding-count :
    (a : Asset) (f : AssetFinding) → (count_finding a f).finding_count ≡ a.finding_count + 1
unfolding count_finding
count_finding-count a f = refl

count_finding-validated :
    (a : Asset) (f : AssetFinding)
    → (count_finding a f).validated_count ≡ a.validated_count + (if f.is_validated then 1 else 0)
unfolding count_finding
count_finding-validated a f = ground arith

-- The counts of the summary add up: every finding is counted in one asset, and every validated finding is
-- counted as validated in one asset.
pub summary-counts :
    (fs : List AssetFinding) (ss : List Service)
    → (sum_of (λ a. a.finding_count) (build_asset_summary fs ss) ≡ length fs)
      × (sum_of (λ a. a.validated_count) (build_asset_summary fs ss) ≡ count_validated fs)
summary-counts fs ss = (
  summary-weights (λ a. a.finding_count) (λ f. 1) (λ label. refl) (λ a ss. refl) count_finding-count
        fs ss
      ∙ weights-one fs,
  summary-weights (λ a. a.validated_count) (λ f. if f.is_validated then 1 else 0) (λ label. refl)
      (λ a ss. refl) count_finding-validated fs ss,
)
