-- ===== src/Capabilities/Exact.antt =====
-- When `check` returns, by the tokens as they are declared.
use secu_scan.Prelude.{
  ◌≡◌, refl, sym, ◌∙◌, ◌↔◌, inl, inr, Bool, true, false, not, ◌&&◌, Option, none, some, List, [],
  ◌∷◌, arith, Bool-cases, all, Text, text_in,
}
use secu_scan.Capabilities.{
  all_capabilities, implied, normal, Checked, unknown, known, cons_known, validate_capability_list,
  effective_capabilities, Verdict, passed, value_error, capability_denied, blocked, check,
  check_required, verdict_of_blocked,
}

abbrev is_known : Text → Bool
is_known raw = text_in (normal raw) all_capabilities

abbrev is_allowed : List Text → Text → Bool
is_allowed denied c = not (text_in c denied)

-- What the plugin declares, if it declares something, has to be known and not denied, each token stripped and in
-- lower case; else what its safety level stands for has to be not denied.
abbrev pub is_permitted : List Text → Option (List Text) → Text → Bool
is_permitted denied none level = all (is_allowed denied) (implied level)
is_permitted denied (some []) level = all (is_allowed denied) (implied level)
is_permitted denied (some (t ∷ ts)) level =
    all is_known (t ∷ ts) && all (λ raw. is_allowed denied (normal raw)) (t ∷ ts)

abbrev passes : List Text → Checked → Bool
passes denied (unknown ts) = false
passes denied (known required) = all (is_allowed denied) required

abbrev is_passed : Verdict → Bool
is_passed passed = true
is_passed (value_error ts) = false
is_passed (capability_denied ts) = false

blocked-passes :
    (denied required : List Text)
    → is_passed (verdict_of_blocked (blocked required denied)) ≡ all (is_allowed denied) required
unfolding blocked verdict_of_blocked
blocked-passes denied [] = refl
blocked-passes denied (c ∷ cs) = elim (Bool-cases (text_in c denied)) [
  | inl there ↦ rw there refl
  | inr gone ↦ rw gone (blocked-passes denied cs)
]

check_required-passes :
    (denied : List Text) (c : Checked) → is_passed (check_required denied c) ≡ passes denied c
unfolding check_required
check_required-passes denied (unknown ts) = refl
check_required-passes denied (known required) = blocked-passes denied required

cons_known-passes :
    (denied : List Text) (t : Text) (c : Checked)
    → passes denied (cons_known t c) ≡ (is_allowed denied t && passes denied c)
unfolding cons_known
cons_known-passes denied t (unknown ts) = ground arith
cons_known-passes denied t (known ts) = refl

validate-passes :
    (denied ts : List Text)
    → passes denied (validate_capability_list ts)
      ≡ (all is_known ts && all (λ raw. is_allowed denied (normal raw)) ts)
unfolding validate_capability_list
validate-passes denied [] = refl
validate-passes denied (raw ∷ rest) = elim (Bool-cases (is_known raw)) [
  | inl there ↦ rw there (
      cons_known-passes denied (normal raw) (validate_capability_list rest)
      ∙ ground (arith, validate-passes denied rest))
  | inr gone ↦ rw gone refl
]

effective-passes :
    (denied : List Text) (declared : Option (List Text)) (level : Text)
    → passes denied (effective_capabilities declared level) ≡ is_permitted denied declared level
unfolding effective_capabilities
effective-passes denied none level = refl
effective-passes denied (some []) level = refl
effective-passes denied (some (t ∷ ts)) level = validate-passes denied (t ∷ ts)

is_passed_iff : (v : Verdict) → (v ≡ passed) ↔ (is_passed v ≡ true)
is_passed_iff passed = (λ h. refl, λ h. refl)
is_passed_iff (value_error ts) = ground arith
is_passed_iff (capability_denied ts) = ground arith

-- Where nothing is denied, `check` returns. Otherwise it returns exactly when the declared capabilities are all known
-- and, stripped and in lower case, none of them is denied, or, where none are declared, none of those that the
-- safety level stands for is denied.
pub check_passes :
    (denied : List Text) (declared : Option (List Text)) (level : Text)
    → (check [] declared level ≡ passed)
      × ((d : Text)
          → (check (d ∷ denied) declared level ≡ passed)
            ↔ (is_permitted (d ∷ denied) declared level ≡ true))
unfolding check
check_passes denied declared level = (refl, λ d. exactly d)
  where
    exactly :
        (d : Text)
        → (check_required (d ∷ denied) (effective_capabilities declared level) ≡ passed)
          ↔ (is_permitted (d ∷ denied) declared level ≡ true)
    exactly d =
        let v = check_required (d ∷ denied) (effective_capabilities declared level) in
        let same =
          check_required-passes (d ∷ denied) (effective_capabilities declared level)
          ∙ effective-passes (d ∷ denied) declared level in
        ((λ h. sym same ∙ (is_passed_iff v).0 h), (λ h. (is_passed_iff v).1 (same ∙ h)))
