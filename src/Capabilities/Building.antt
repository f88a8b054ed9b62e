-- ===== src/Capabilities/Building.antt =====
-- What the enforcer denies once it is built, and the deny-lists that it refuses.
use secu_scan.Prelude.{
  ◌≡◌, refl, ap, ◌∙◌, ◌⊎◌, true, some, List, [], ◌∷◌, arith, if◌then◌else◌, All, Text, text_eq,
  text_eq_iff, text_in,
}
use secu_scan.Capabilities.{all_capabilities, known, normal, sort_tokens, denied_or_unknown, build}

-- A token that is blank, or a known capability but for case and outer white space.
abbrev pub IsRecognised : Text → Type 0
IsRecognised tok = (normal tok ≡ []) ⊎ (text_in (normal tok) all_capabilities ≡ true)

-- What the operator wrote and meant: the tokens that are not blank, normalised.
abbrev pub meant : List Text → List Text
meant [] = []
meant (tok ∷ rest) =
    let more = meant rest in if text_eq (normal tok) [] then more else normal tok ∷ more

sort_tokens-recognised :
    (raw : List Text) → All IsRecognised raw → sort_tokens raw ≡ (meant raw, [])
unfolding sort_tokens
sort_tokens-recognised [] h = refl
sort_tokens-recognised (tok ∷ rest) h =
    ground (arith, text_eq_iff (normal tok) [], sort_tokens-recognised rest h.1)

sort_tokens-unrecognised : (raw : List Text) → (sort_tokens raw).1 ≡ [] → All IsRecognised raw
unfolding sort_tokens
sort_tokens-unrecognised [] e = tt
sort_tokens-unrecognised (tok ∷ rest) e =
    ground (arith, text_eq_iff (normal tok) [], sort_tokens-unrecognised rest)

denied_or_unknown-known :
    (p : List Text × List Text) (ts : List Text)
    → denied_or_unknown p ≡ known ts
    → (p.1 ≡ []) × (ts ≡ p.0)
unfolding denied_or_unknown
denied_or_unknown-known (normalised, []) ts e = (refl, cc)
denied_or_unknown-known (normalised, u ∷ us) ts e = cc

-- A deny-list builds an enforcer exactly when each of its tokens is blank or a known capability, and
-- the enforcer then denies what the list means, token for token; any other list is a `ValueError`.
pub build_exact :
    (raw ts : List Text)
    → (All IsRecognised raw → build (some raw) ≡ known (meant raw))
      × (build (some raw) ≡ known ts → All IsRecognised raw × (ts ≡ meant raw))
unfolding build denied_or_unknown
build_exact raw ts = (
  λ h. rw (sort_tokens-recognised raw h),
  λ e.
      let (none_left, same) = denied_or_unknown-known (sort_tokens raw) ts e in
      let h = sort_tokens-unrecognised raw none_left in
      (h, same ∙ ap (λ p. p.0) (sort_tokens-recognised raw h)),
)
