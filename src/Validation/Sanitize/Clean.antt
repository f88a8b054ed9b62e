-- ===== src/Validation/Sanitize/Clean.antt =====
-- What a sanitized input holds no more.
use secu_scan.Prelude.{
  all-reverse, ℕ, ◌≡◌, refl, sym, ◌∙◌, subst, inl, inr, Bool, true, not, List, [], ◌∷◌, map, arith,
  ◌==◌, Bool-cases, any, all, Text, lstrip, strip,
}
use mathlib.Core.List.{reverse}
use secu_scan.Validation.Sanitize.{
  slash, dangerous_chars, remove_char, remove_all, lstrip_dashes, sanitize_input,
}

-- The text holds no such character.
abbrev pub lacks : ℕ → Text → Bool
lacks c t = all (λ d. not (d == c)) t

remove_char-lacks : (c : ℕ) (t : Text) → lacks c (remove_char c t) ≡ true
unfolding remove_char
remove_char-lacks c [] = refl
remove_char-lacks c (d ∷ t) = ground (arith, remove_char-lacks c t)

remove_char-keeps :
    (p : ℕ → Bool) (c : ℕ) (t : Text) → all p t ≡ true → all p (remove_char c t) ≡ true
unfolding remove_char
remove_char-keeps p c [] h = refl
remove_char-keeps p c (d ∷ t) h = ground (arith, remove_char-keeps p c t, h)

remove_all-keeps :
    (p : ℕ → Bool) (cs : List ℕ) (t : Text) → all p t ≡ true → all p (remove_all cs t) ≡ true
unfolding remove_all
remove_all-keeps p [] t h = h
remove_all-keeps p (c ∷ cs) t h =
    remove_all-keeps p cs (remove_char c t) (remove_char-keeps p c t h)

remove_all-lacks :
    (c : ℕ) (cs : List ℕ) (t : Text)
    → any (λ d. d == c) cs ≡ true
    → lacks c (remove_all cs t) ≡ true
unfolding remove_all
remove_all-lacks c [] t h = cc
remove_all-lacks c (d ∷ cs) t h = elim (Bool-cases (d == c)) [
  | inl same ↦
      let e : d ≡ c = ground arith in
      subst (λ d. lacks c (remove_all cs (remove_char d t)) ≡ true) (sym e)
        (remove_all-keeps (λ x. not (x == c)) cs (remove_char c t) (remove_char-lacks c t))
  | inr other ↦ remove_all-lacks c cs (remove_char d t) (ground (arith, h, other))
]

lstrip_dashes-keeps : (p : ℕ → Bool) (t : Text) → all p t ≡ true → all p (lstrip_dashes t) ≡ true
unfolding lstrip_dashes
lstrip_dashes-keeps p [] h = refl
lstrip_dashes-keeps p (c ∷ t) h = ground (arith, lstrip_dashes-keeps p t, h)

lstrip-keeps : (p : ℕ → Bool) (t : Text) → all p t ≡ true → all p (lstrip t) ≡ true
unfolding lstrip
lstrip-keeps p [] h = refl
lstrip-keeps p (c ∷ t) h = ground (arith, lstrip-keeps p t, h)

strip-keeps : (p : ℕ → Bool) (t : Text) → all p t ≡ true → all p (strip t) ≡ true
unfolding strip
strip-keeps p t h =
    all-reverse p (lstrip (reverse (lstrip t)))
    ∙ lstrip-keeps p (reverse (lstrip t)) (all-reverse p (lstrip t) ∙ lstrip-keeps p t h)

-- A sanitized input holds none of the dangerous characters.
pub sanitize_input-lacks :
    (value : Text) (c : ℕ)
    → any (λ d. d == c) dangerous_chars ≡ true
    → lacks c (sanitize_input value) ≡ true
unfolding sanitize_input
sanitize_input-lacks value c h =
    let clean = remove_all dangerous_chars (map slash value) in
    strip-keeps (λ d. not (d == c)) (lstrip_dashes clean)
      (lstrip_dashes-keeps (λ d. not (d == c)) clean
        (remove_all-lacks c dangerous_chars (map slash value) h))
