-- ===== src/Capabilities/Policy.antt =====
-- What the enforcer lets through.
use secu_scan.Prelude.{
  ◌≡◌, refl, subst, ◌≢◌, ◌↔◌, ◌⊎◌, inl, inr, Bool, true, false, Option, none, List, [], ◌∷◌, arith,
  All, Text, codes, text_eq, text_eq_refl, text_eq_iff, text_in,
}
use secu_scan.Capabilities.{
  implied, Checked, unknown, known, effective_capabilities, passed, capability_denied, blocked,
  check, check_required, verdict_of_blocked,
}

-- No token is both required and denied.
abbrev pub Disjoint : List Text → List Text → Type 0
Disjoint required denied = All (λ c. text_in c denied ≡ false) required

blocked-nil :
    (required denied : List Text) → blocked required denied ≡ [] → Disjoint required denied
unfolding blocked
blocked-nil [] denied e = tt
blocked-nil (c ∷ cs) denied e = ground (arith, blocked-nil cs denied)

Disjoint-blocked :
    (required denied : List Text) → Disjoint required denied → blocked required denied ≡ []
unfolding blocked
Disjoint-blocked [] denied h = refl
Disjoint-blocked (c ∷ cs) denied h = ground (arith, Disjoint-blocked cs denied h.1)

-- Every blocked token is denied.
blocked_denied :
    (required denied : List Text) → All (λ c. text_in c denied ≡ true) (blocked required denied)
unfolding blocked
blocked_denied [] denied = tt
blocked_denied (c ∷ cs) denied = ground (arith, blocked_denied cs denied)

Disjoint-nil : (required : List Text) → Disjoint required []
unfolding text_in
Disjoint-nil [] = tt
Disjoint-nil (c ∷ cs) = (refl, Disjoint-nil cs)

verdict_of_blocked-passed : (cs : List Text) → (verdict_of_blocked cs ≡ passed) ↔ (cs ≡ [])
unfolding verdict_of_blocked
verdict_of_blocked-passed [] = ground arith
verdict_of_blocked-passed (c ∷ cs) = ground arith

Checked-cases :
    (c : Checked) → ((ts : List Text) × (c ≡ unknown ts)) ⊎ ((ts : List Text) × (c ≡ known ts))
Checked-cases (unknown ts) = inl (ts, refl)
Checked-cases (known ts) = inr (ts, refl)

-- For a plugin whose capabilities are known, `check` returns exactly when none of those that it needs
-- is denied; otherwise it raises `CapabilityDeniedError`.
pub check_exact :
    (denied required : List Text) (declared : Option (List Text)) (level : Text)
    → effective_capabilities declared level ≡ known required
    → (check denied declared level ≡ passed) ↔ Disjoint required denied
unfolding check check_required
check_exact [] required declared level e = (λ h. Disjoint-nil required, λ h. refl)
check_exact (d ∷ ds) required declared level e = ground (
  arith,
  verdict_of_blocked-passed (blocked required (d ∷ ds)),
  blocked-nil required (d ∷ ds),
  Disjoint-blocked required (d ∷ ds),
)

verdict_of_blocked-denied :
    (bs cs : List Text) → verdict_of_blocked bs ≡ capability_denied cs → (bs ≡ cs) × (cs ≢ [])
unfolding verdict_of_blocked
verdict_of_blocked-denied [] cs e = cc
verdict_of_blocked-denied (b ∷ bs) cs e = ground arith

-- `CapabilityDeniedError` names one token at least, and only denied ones.
pub capability_denied_names :
    (denied cs : List Text) (declared : Option (List Text)) (level : Text)
    → check denied declared level ≡ capability_denied cs
    → (cs ≢ []) × All (λ c. text_in c denied ≡ true) cs
unfolding check check_required
capability_denied_names [] cs declared level e = cc
capability_denied_names (d ∷ ds) cs declared level e =
    elim (Checked-cases (effective_capabilities declared level)) [
      | inl (ts, k) ↦ absurd (failed ts k)
      | inr (required, k) ↦
          let (same, some_token) =
            verdict_of_blocked-denied (blocked required (d ∷ ds)) cs (rw k at e) in
          (
            some_token,
            subst (All (λ c. text_in c (d ∷ ds) ≡ true)) same (blocked_denied required (d ∷ ds)),
          )
    ]
  where
    failed : (ts : List Text) → effective_capabilities declared level ≡ unknown ts → ⊥
    failed ts k = ground arith

passed_nil : (declared : Option (List Text)) (level : Text) → check [] declared level ≡ passed
unfolding check
passed_nil declared level = refl

abbrev is_empty : List Text → Bool
is_empty [] = true
is_empty (c ∷ cs) = false

failed :
    (denied ts : List Text) (declared : Option (List Text)) (level : Text)
    → effective_capabilities declared level ≡ unknown ts
    → is_empty denied ≡ false
    → check denied declared level ≢ passed
unfolding check check_required
failed [] ts declared level k h e = cc
failed (d ∷ ds) ts declared level k h e = ground arith

Disjoint-sub :
    (required narrow wide : List Text)
    → ((c : Text) → text_in c narrow ≡ true → text_in c wide ≡ true)
    → Disjoint required wide
    → Disjoint required narrow
Disjoint-sub [] narrow wide sub h = tt
Disjoint-sub (c ∷ cs) narrow wide sub h =
    (ground (arith, sub c), Disjoint-sub cs narrow wide sub h.1)

implied-network :
    (level : Text) (denied : List Text)
    → Disjoint (implied level) denied
    → text_in (codes "network") denied ≡ false
unfolding implied
implied-network level denied h = ground arith

implied-exploit :
    (level : Text) → Disjoint (implied level) (codes "exploit" ∷ []) ↔ (level ≢ codes "exploit")
unfolding implied text_in text_eq
implied-exploit level = ground (
  arith,
  text_eq_iff level (codes "exploit"),
  text_eq_iff level (codes "safe"),
  text_eq_iff level (codes "intrusive"),
)

-- An operator that denies more lets no more through: what passes under `wide` passes under every
-- `narrow` whose tokens `wide` denies too.
pub check_monotone :
    (narrow wide : List Text) (declared : Option (List Text)) (level : Text)
    → ((c : Text) → text_in c narrow ≡ true → text_in c wide ≡ true)
    → check wide declared level ≡ passed
    → check narrow declared level ≡ passed
unfolding text_in
check_monotone [] wide declared level sub e = passed_nil declared level
check_monotone (n ∷ ns) [] declared level sub e = cc (sub n (ground (arith, text_eq_refl n)))
check_monotone (n ∷ ns) (w ∷ ws) declared level sub e =
    elim (Checked-cases (effective_capabilities declared level)) [
      | inl (ts, k) ↦ absurd (failed (w ∷ ws) ts declared level k refl e)
      | inr (required, k) ↦ (check_exact (n ∷ ns) required declared level k).1 (
          Disjoint-sub required (n ∷ ns) (w ∷ ws) sub
            ((check_exact (w ∷ ws) required declared level k).0 e))
    ]

-- A plugin that declares nothing is blocked by a denied `network` at every safety level, and by a
-- denied `exploit` alone exactly at the level `exploit`.
pub legacy_plugins :
    (denied : List Text) (level : Text)
    → (text_in (codes "network") denied ≡ true → check denied none level ≢ passed)
      × ((check (codes "exploit" ∷ []) none level ≡ passed) ↔ (level ≢ codes "exploit"))
unfolding effective_capabilities
legacy_plugins denied level = (
  λ on e.
      cc (
        on,
        implied-network level denied ((check_exact denied (implied level) none level refl).0 e),
      ),
  let exact = check_exact (codes "exploit" ∷ []) (implied level) none level refl in
      (λ e. (implied-exploit level).0 (exact.0 e), λ h. exact.1 ((implied-exploit level).1 h)),
)
