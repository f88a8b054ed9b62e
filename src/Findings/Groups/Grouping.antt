-- ===== src/Findings/Groups/Grouping.antt =====
-- The groups against their definition: the findings of one key, merged in order.
use secu_scan.Prelude.{
  ℕ, max, ◌≡◌, refl, sym, ap, ◌∙◌, inl, inr, Bool, true, false, ◌||◌, Option, none, some, List, [],
  ◌∷◌, ◌++◌, arith, ltb, if◌then◌else◌, Bool-cases, filter, any, Text, text_eq, text_eq_iff, lower,
  Dict, lookup, insert, lookup-insert,
}
use mathlib.Core.List.{Perm, append-nil, append_assoc}
use secu_scan.Findings.Severity.{
  Severity, normalize_severity, severity_rank, text_leb_total, IsOrdered, sort-IsOrdered, sort-Perm,
}
use secu_scan.Findings.Groups.{
  Finding, Group, new_group, merge, add_finding, collect, group_values, goes_before,
  build_finding_groups,
}

-- The findings of a key
abbrev pub findings_of : Text → List Finding → List Finding
findings_of key fs = filter (λ f. text_eq key f.group_key) fs

abbrev pub merge_all : Group → List Finding → Group
merge_all g [] = g
merge_all g (f ∷ fs) = merge_all (merge g f) fs

-- The reference: the first of the findings begins the group, and the others are merged into it.
abbrev pub group_of : Text → List Finding → Option Group
group_of key [] = none
group_of key (f ∷ fs) = some (merge_all (new_group key f) fs)

abbrev continued : Text → Option Group → List Finding → Option Group
continued key none fs = group_of key fs
continued key (some g) fs = some (merge_all g fs)

continued-one :
    (key : Text) (o : Option Group) (f : Finding) (fs : List Finding)
    → continued key (continued key o (f ∷ [])) fs ≡ continued key o (f ∷ fs)
continued-one key none f fs = refl
continued-one key (some g) f fs = refl

module _ (key : Text) (f : Finding) (groups : Dict Group) where
  -- The group of `key` after a finding, by what its own group was
  abbrev after_finding : Option Group → Group
  after_finding none = new_group f.group_key f
  after_finding (some g) = merge g f

  add_finding-insert :
      (o : Option Group)
      → lookup f.group_key groups ≡ o
      → add_finding groups f ≡ insert f.group_key (after_finding o) groups
  unfolding add_finding
  add_finding-insert none q = rw (q, add_finding) refl
  add_finding-insert (some g) q = rw (q, add_finding) refl

  own_group :
      (o : Option Group)
      → lookup key groups ≡ o
      → key ≡ f.group_key
      → some (after_finding o) ≡ continued key (lookup key groups) (f ∷ [])
  own_group none q e = rw q (ap (λ k. some (new_group k f)) (sym e))
  own_group (some g) q e = rw q refl

  lookup-add_finding : lookup key (add_finding groups f) ≡ (
      if text_eq key f.group_key
      then continued key (lookup key groups) (f ∷ [])
      else lookup key groups)
  lookup-add_finding =
      ap (lookup key) (add_finding-insert (lookup f.group_key groups) refl)
      ∙ lookup-insert key f.group_key (after_finding (lookup f.group_key groups)) groups
      ∙ elim (Bool-cases (text_eq key f.group_key)) [
        | inl same ↦
            let e : key ≡ f.group_key = (text_eq_iff key f.group_key).0 same in
            rw same (own_group (lookup f.group_key groups) (ap (λ k. lookup k groups) e) e)
        | inr other ↦ rw other refl
      ]

collect-continued :
    (key : Text) (fs : List Finding) (groups : Dict Group)
    → lookup key (collect fs groups) ≡ continued key (lookup key groups) (findings_of key fs)
unfolding collect
collect-continued key [] groups = split (lookup key groups)
  where
    split : (o : Option Group) → o ≡ continued key o []
    split none = refl
    split (some g) = refl
collect-continued key (f ∷ fs) groups =
    collect-continued key fs (add_finding groups f)
    ∙ ap (λ o. continued key o (findings_of key fs)) (lookup-add_finding key f groups)
    ∙ elim (Bool-cases (text_eq key f.group_key)) [
      | inl same ↦ rw same (continued-one key (lookup key groups) f (findings_of key fs))
      | inr other ↦ rw other refl
    ]

pub collect-group :
    (key : Text) (fs : List Finding)
    → lookup key (collect fs []) ≡ group_of key (findings_of key fs)
unfolding lookup
collect-group key fs = collect-continued key fs []

-- The highest rank of a severity
pub highest : ℕ → List Finding → ℕ
highest n [] = n
highest n (f ∷ fs) = highest (max n (severity_rank (normalize_severity f.severity))) fs

worse :
    (s t : Severity)
    → severity_rank (if ltb (severity_rank s) (severity_rank t) then t else s)
      ≡ max (severity_rank s) (severity_rank t)
worse s t = elim (Bool-cases (ltb (severity_rank s) (severity_rank t))) [
  | inl less ↦ rw less (ground (arith, less))
  | inr more ↦ rw more (ground (arith, more))
]

either : (a b c : Bool) → ((a || b) || c) ≡ (a || (b || c))
either a b c = ground arith

merge_all-facts :
    (g : Group) (fs : List Finding)
    → (severity_rank (merge_all g fs).group_severity ≡ highest (severity_rank g.group_severity) fs)
      × ((merge_all g fs).findings ≡ g.findings ++ fs)
      × ((merge_all g fs).group_validated ≡ (g.group_validated || any (λ f. f.validated) fs))
unfolding highest merge
merge_all-facts g [] = (refl, sym (append-nil g.findings), ground arith)
merge_all-facts g (f ∷ fs) =
    let (s, e, v) = merge_all-facts (merge g f) fs in
    (
      s ∙ ap (λ n. highest n fs) (worse (g.group_severity) (normalize_severity f.severity)),
      e ∙ append_assoc g.findings (f ∷ []) fs,
      v ∙ either g.group_validated f.validated (any (λ f. f.validated) fs),
    )

-- The group of a key that some finding has holds exactly the findings of the key, in their order, and has the
-- highest of their severities; it is validated if one of them is.
pub group_facts :
    (key : Text) (f : Finding) (fs rest : List Finding)
    → findings_of key fs ≡ f ∷ rest
    → (g : Group) × (lookup key (collect fs []) ≡ some g)
      × (g.findings ≡ findings_of key fs)
      × (severity_rank g.group_severity
          ≡ highest (severity_rank (normalize_severity f.severity)) rest)
      × (g.group_validated ≡ any (λ f. f.validated) (findings_of key fs))
unfolding new_group
group_facts key f fs rest h =
    let (s, e, v) = merge_all-facts (new_group key f) rest in
    (
      merge_all (new_group key f) rest,
      collect-group key fs ∙ ap (group_of key) h,
      e ∙ sym h,
      s,
      v ∙ ap (any (λ (f : Finding). f.validated)) (sym h),
    )

goes_before_total : (a b : Group) → goes_before a b ≡ false → goes_before b a ≡ true
unfolding goes_before
goes_before_total a b h =
    ground (arith, h, text_leb_total (lower a.group_title) (lower b.group_title))

-- The groups are built in order, by severity and confidence, highest first, and by title, and the order neither
-- loses nor repeats one.
pub build_finding_groups-sorted :
    (fs : List Finding)
    → IsOrdered goes_before (build_finding_groups fs)
      × Perm (build_finding_groups fs) (group_values (collect fs []))
unfolding build_finding_groups
build_finding_groups-sorted fs = (
  sort-IsOrdered goes_before goes_before_total (group_values (collect fs [])),
  sort-Perm goes_before (group_values (collect fs [])),
)
