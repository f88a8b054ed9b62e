-- ===== src/Plugins/Template/Kept.antt =====
-- A property of characters that sanitized values have passes from the template to the arguments.
use secu_scan.Prelude.{
  all-append, ℕ, zero, suc, ◌+◌, ◌-◌, ◌≡◌, refl, ◌∙◌, Bool, true, Option, none, some, List, [], ◌∷◌,
  ◌++◌, map, arith, ◌==◌, if◌then◌else◌, all, take, drop, Text, codes, Dict,
}
use secu_scan.Ratelimit.Identity.{split_on, cons_head}
use secu_scan.Validation.Sanitize.{sanitize_input}
use secu_scan.Plugins.{InputValue, printed}
use secu_scan.Plugins.Template.{
  Piece, char, variable, Search, outside, in_name, in_default, pending, end_name, read_char,
  pieces_from, value_of, replace, interpolate, render_parts, active_parts, conditional, holds,
  evaluate_conditional_token, render_token, render_command_tokens, index_of,
}

-- The characters that stay have the property.
abbrev holds_of : (ℕ → Bool) → Piece → Bool
holds_of p (char c) = p c
holds_of p (variable name default_value) = true

all_chars : (p : ℕ → Bool) (t : Text) → all (holds_of p) (map char t) ≡ all p t
all_chars p [] = refl
all_chars p (c ∷ t) = ground (arith, all_chars p t)

-- What the search has read has the property, and so has the next character: then the pieces that are
-- given out have it, and what is still read.
read_char-keeps :
    (p is_word : ℕ → Bool) (s : Search) (c : ℕ)
    → all p (pending s) ≡ true
    → p c ≡ true
    → (all (holds_of p) (read_char is_word s c).0 ≡ true)
      × (all p (pending (read_char is_word s c).1) ≡ true)
unfolding read_char end_name pending
read_char-keeps p is_word outside c h k = ground (arith, h, k)
read_char-keeps p is_word (in_name name) c h k = ground (
  arith,
  h,
  k,
  all-append p name (c ∷ []),
  all_chars p (b'{' ∷ name),
  all_chars p (b'{' ∷ name ++ c ∷ []),
)
read_char-keeps p is_word (in_default name t) c h k = ground (
  arith,
  h,
  k,
  all-append p name (b':' ∷ t),
  all-append p name (b':' ∷ t ++ c ∷ []),
  all-append p t (c ∷ []),
  all-append p (name ++ b':' ∷ t) (c ∷ []),
  all_chars p (b'{' ∷ (name ++ b':' ∷ t) ++ c ∷ []),
)

pieces-keeps :
    (p is_word : ℕ → Bool) (s : Search) (t : Text)
    → all p (pending s) ≡ true
    → all p t ≡ true
    → all (holds_of p) (pieces_from is_word s t) ≡ true
unfolding pieces_from
pieces-keeps p is_word s [] h k = all_chars p (pending s) ∙ h
pieces-keeps p is_word s (c ∷ t) h k =
    let (given, kept) = read_char-keeps p is_word s c h (ground (arith, k)) in
    let rest = pieces-keeps p is_word (read_char is_word s c).1 t kept (ground (arith, k)) in
    all-append (holds_of p) (read_char is_word s c).0
      (pieces_from is_word (read_char is_word s c).1 t)
    ∙ ground (arith, given, rest)

drop-keeps :
    {A : Type 0} → (q : A → Bool) (n : ℕ) (xs : List A) → all q xs ≡ true → all q (drop n xs) ≡ true
drop-keeps q zero xs h = h
drop-keeps q (suc n) [] h = refl
drop-keeps q (suc n) (x ∷ xs) h = drop-keeps q n xs (ground (arith, h))

take-keeps :
    {A : Type 0} → (q : A → Bool) (n : ℕ) (xs : List A) → all q xs ≡ true → all q (take n xs) ≡ true
take-keeps q zero xs h = refl
take-keeps q (suc n) [] h = refl
take-keeps q (suc n) (x ∷ xs) h = ground (arith, h, take-keeps q n xs (ground (arith, h)))

active_parts-keeps :
    (q : Text → Bool) (condition : Bool) (parts : List Text)
    → all q parts ≡ true
    → all q (active_parts condition parts) ≡ true
unfolding active_parts
active_parts-keeps q condition parts h = split (index_of (codes "else") parts) refl
  where
    split :
        (r : Option ℕ)
        → index_of (codes "else") parts ≡ r
        → all q (active_parts condition parts) ≡ true
    split none e = rw (e, active_parts) (ground (arith, drop-keeps q 3 parts h))
    split (some i) e =
        rw (e, active_parts)
          (ground (
            arith,
            take-keeps q (i - 3) (drop 3 parts) (drop-keeps q 3 parts h),
            drop-keeps q (i + 1) parts h,
          ))

-- Whatever the values of the inputs are, once sanitized they have the property.
module _ (p : ℕ → Bool) (clean : (value : Text) → all p (sanitize_input value) ≡ true) where
  replace-keeps :
      (inputs : Dict InputValue) (ps : List Piece)
      → all (holds_of p) ps ≡ true
      → all p (replace inputs ps) ≡ true
  unfolding replace
  replace-keeps inputs [] h = refl
  replace-keeps inputs (char c ∷ ps) h =
      ground (arith, h, replace-keeps inputs ps (ground (arith, h)))
  replace-keeps inputs (variable name default_value ∷ ps) h =
      all-append p (sanitize_input (printed (value_of inputs name default_value)))
        (replace inputs ps)
      ∙ ground (
        arith,
        clean (printed (value_of inputs name default_value)),
        replace-keeps inputs ps (ground (arith, h)),
      )

  interpolate-keeps :
      (is_word : ℕ → Bool) (token t : Text) (inputs : Dict InputValue)
      → all p token ≡ true
      → interpolate is_word token inputs ≡ some t
      → all p t ≡ true
  unfolding interpolate pending
  interpolate-keeps is_word token t inputs h e = ground (
    arith,
    h,
    e,
    replace-keeps inputs (pieces_from is_word outside token)
        (pieces-keeps p is_word outside token refl h),
  )

  render_parts-keeps :
      (is_word : ℕ → Bool) (inputs : Dict InputValue) (parts : List Text)
      → all (all p) parts ≡ true
      → all (all p) (render_parts is_word inputs parts) ≡ true
  unfolding render_parts
  render_parts-keeps is_word inputs [] h = refl
  render_parts-keeps is_word inputs (part ∷ parts) h =
      split (render_parts-keeps is_word inputs parts (ground (arith, h)))
        (interpolate is_word part inputs) refl
    where
      split :
          all (all p) (render_parts is_word inputs parts) ≡ true
          → (r : Option Text) → interpolate is_word part inputs ≡ r
          → all (all p) (render_parts is_word inputs (part ∷ parts)) ≡ true
      split rest none q = rw (q, render_parts) rest
      split rest (some t) q =
          rw (q, render_parts)
            (ground (arith, rest, interpolate-keeps is_word part t inputs (ground (arith, h)) q))

  split_on-keeps : (c : ℕ) (t : Text) → all p t ≡ true → all (all p) (split_on c t) ≡ true
  unfolding split_on cons_head
  split_on-keeps c [] h = refl
  split_on-keeps c (d ∷ t) h = split (split_on c t) (split_on-keeps c t (ground (arith, h)))
    where
      split :
          (parts : List Text)
          → all (all p) parts ≡ true
          → all (all p) (if d == c then [] ∷ parts else cons_head d parts) ≡ true
      split [] k = ground (arith, h, k)
      split (part ∷ parts) k = ground (arith, h, k)

  evaluate-keeps :
      (is_word : ℕ → Bool) (token : Text) (inputs : Dict InputValue)
      → all p token ≡ true
      → all (all p) (evaluate_conditional_token is_word token inputs) ≡ true
  unfolding evaluate_conditional_token
  evaluate-keeps is_word token inputs h = split (conditional parts) refl
    where
      parts : List Text
      parts = split_on b':' token

      split :
          (r : Option Text)
          → conditional parts ≡ r
          → all (all p) (evaluate_conditional_token is_word token inputs) ≡ true
      split none q = rw (q, evaluate_conditional_token) refl
      split (some name) q =
          rw (q, evaluate_conditional_token)
            (render_parts-keeps is_word inputs (active_parts (holds inputs name) parts)
              (active_parts-keeps (all p) (holds inputs name) parts (split_on-keeps b':' token h)))

  pub render_command-keeps :
      (is_word : ℕ → Bool) (tokens : List Text) (inputs : Dict InputValue)
      → all (all p) tokens ≡ true
      → all (all p) (render_command_tokens is_word tokens inputs) ≡ true
  unfolding render_command_tokens render_token
  render_command-keeps is_word [] inputs h = refl
  render_command-keeps is_word (token ∷ tokens) inputs h =
      all-append (all p) (render_token is_word inputs token)
        (render_command_tokens is_word tokens inputs)
      ∙ ground (
        arith,
        h,
        render_command-keeps is_word tokens inputs (ground (arith, h)),
        evaluate-keeps is_word token inputs (ground (arith, h)),
        render_parts-keeps is_word inputs (token ∷ []) (ground (arith, h)),
      )
