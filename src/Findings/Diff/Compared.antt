-- ===== src/Findings/Diff/Compared.antt =====
-- What the difference of two scans says.
use secu_scan.Prelude.{
  ℕ, ◌+◌, ◌≤◌, ◌≡◌, refl, sym, ◌∙◌, subst, ◌⊎◌, inl, inr, Bool, true, false, Option, none, some,
  List, [], ◌∷◌, arith, if◌then◌else◌, Bool-cases, length, Text, text_eq, text_eq_refl, text_eq_iff,
  Dict, lookup, is_some, insert, lookup-insert,
}
use mathlib.Core.Option.{none-ne-some}
use secu_scan.Findings.Groups.{Finding, build_finding_groups, collect, group_values}
use secu_scan.Findings.Severity.{sort}
use secu_scan.Findings.Diff.{
  same_severity_text, same_flag, by_key, is_changed, missing_from, changed_in, build_scan_diff,
}

-- The keys of one dictionary that the other has
abbrev pub shared_keys : Dict Finding → Dict Finding → ℕ
shared_keys other [] = 0
shared_keys other ((key, f) ∷ d) =
    (if is_some (lookup key other) then 1 else 0) + shared_keys other d

-- Every key of a scan is either new or shared.
length-missing_from :
    (other d : Dict Finding) → length (missing_from other d) + shared_keys other d ≡ length d
unfolding missing_from
length-missing_from other [] = omega arith
length-missing_from other ((key, f) ∷ d) = ground (arith, length-missing_from other d)

changed_in-le :
    (previous d : Dict Finding) → length (changed_in previous d) ≤ shared_keys previous d
unfolding changed_in
changed_in-le previous [] = omega arith
changed_in-le previous ((key, f) ∷ d) = split (lookup key previous) refl (changed_in-le previous d)
  where
    split :
        (o : Option Finding)
        → lookup key previous ≡ o
        → length (changed_in previous d) ≤ shared_keys previous d
        → length (changed_in previous ((key, f) ∷ d)) ≤ shared_keys previous ((key, f) ∷ d)
    split none q ih = ground (arith, q, ih)
    split (some before) q ih = ground (arith, q, ih)

same_severity_text_refl : (s : Option Text) → same_severity_text s s ≡ true
same_severity_text_refl none = refl
same_severity_text_refl (some t) = text_eq_refl t

same_flag_refl : (b : Bool) → same_flag b b ≡ true
same_flag_refl true = refl
same_flag_refl false = refl

is_changed-same : (f : Finding) → is_changed f f ≡ false
unfolding is_changed
is_changed-same f = ground (arith, same_severity_text_refl f.severity, same_flag_refl f.validated)

-- No key stands twice.
abbrev Distinct : Dict Finding → Type 0
Distinct [] = Unit
Distinct ((key, f) ∷ d) = (lookup key d ≡ none) × Distinct d

text_eq_sym : (s t : Text) → text_eq s t ≡ false → text_eq t s ≡ false
text_eq_sym s t h = ground (arith, h, text_eq_iff s t, text_eq_iff t s, text_eq_refl s)

insert-Distinct :
    (key : Text) (f : Finding) (d : Dict Finding) → Distinct d → Distinct (insert key f d)
unfolding insert lookup
insert-Distinct key f [] h = (refl, tt)
insert-Distinct key f ((j, g) ∷ d) h = elim (Bool-cases (text_eq key j)) [
  | inl same ↦ rw same h
  | inr other ↦
      rw other
        (lookup-insert j key f d ∙ rw (text_eq_sym key j other) (h.0), insert-Distinct key f d h.1)
]

by_key-Distinct : (fs : List Finding) (d : Dict Finding) → Distinct d → Distinct (by_key fs d)
unfolding by_key
by_key-Distinct [] d h = h
by_key-Distinct (f ∷ fs) d h =
    by_key-Distinct fs (insert f.diff_key f d) (insert-Distinct f.diff_key f d h)

-- Every entry of the one is found in the other.
abbrev Agrees : Dict Finding → Dict Finding → Type 0
Agrees other [] = Unit
Agrees other ((key, f) ∷ d) = (lookup key other ≡ some f) × Agrees other d

Agrees-cons :
    (j : Text) (g : Finding) (other d : Dict Finding)
    → lookup j other ≡ none
    → Agrees other d
    → Agrees ((j, g) ∷ other) d
unfolding lookup
Agrees-cons j g other [] h a = tt
Agrees-cons j g other ((key, f) ∷ d) h a =
    (found (Bool-cases (text_eq key j)), Agrees-cons j g other d h a.1)
  where
    found : (text_eq key j ≡ true) ⊎ (text_eq key j ≡ false) → lookup key ((j, g) ∷ other) ≡ some f
    found (inl same) = absurd (
        none-ne-some f
          (sym (subst (λ k. lookup k other ≡ none) (sym ((text_eq_iff key j).0 same)) h) ∙ a.0))
    found (inr other_key) = rw other_key a.0

Agrees-self : (d : Dict Finding) → Distinct d → Agrees d d
unfolding lookup
Agrees-self [] h = tt
Agrees-self ((key, f) ∷ d) h =
    (rw (text_eq_refl key) refl, Agrees-cons key f d d h.0 (Agrees-self d h.1))

missing_from-Agrees : (other d : Dict Finding) → Agrees other d → missing_from other d ≡ []
unfolding missing_from
missing_from-Agrees other [] a = refl
missing_from-Agrees other ((key, f) ∷ d) a = ground (arith, a.0, missing_from-Agrees other d a.1)

changed_in-Agrees : (other d : Dict Finding) → Agrees other d → changed_in other d ≡ []
unfolding changed_in
changed_in-Agrees other [] a = refl
changed_in-Agrees other ((key, f) ∷ d) a =
    rw (a.0, changed_in, is_changed-same f) (changed_in-Agrees other d a.1)

-- A scan does not differ from itself: nothing is new, resolved or changed.
pub diff_self :
    (fs : List Finding)
    → build_scan_diff fs fs ≡ record {
      new = [];
      resolved = [];
      changed = [];
      new_count = 0;
      resolved_count = 0;
      changed_count = 0;
    }
unfolding build_scan_diff build_finding_groups collect group_values sort
diff_self fs =
    let d = by_key fs [] in
    let a = Agrees-self d (by_key-Distinct fs [] tt) in
    rw (missing_from-Agrees d d a, changed_in-Agrees d d a) refl

-- The counts of a difference: the new findings and those that both scans have are the findings of the current
-- scan, by their keys; the resolved ones and those that both have are those of the previous scan; and no more
-- have changed than both scans have.
pub diff_counts :
    (current previous : List Finding)
    → let r = build_scan_diff current previous in
      (r.new_count + shared_keys (by_key previous []) (by_key current [])
        ≡ length (by_key current []))
      × (r.resolved_count + shared_keys (by_key current []) (by_key previous [])
          ≡ length (by_key previous []))
      × (r.changed_count ≤ shared_keys (by_key previous []) (by_key current []))
unfolding build_scan_diff
diff_counts current previous = (
  length-missing_from (by_key previous []) (by_key current []),
  length-missing_from (by_key current []) (by_key previous []),
  changed_in-le (by_key previous []) (by_key current []),
)
