-- ===== src/Redaction/Secrecy.antt =====
-- What redaction hides, and what it keeps.
use secu_scan.Prelude.{
  Json, scalar, string, array, object, Items, nil, cons, Fields, end, field, ℕ, ◌≡◌, refl, sym, ap,
  ◌∙◌, inl, inr, true, false, some, List, [], ◌∷◌, arith, if◌then◌else◌, Bool-cases, Text,
}
use secu_scan.Redaction.{
  redacted, Segment, between, matched, Pattern, substitute, apply_pattern, redact_value,
  redact_items, redact_fields, is_sensitive, redact_inputs,
}

-- The shape of a value: its keys and scalars, and where it has texts, but not the texts.
abbrev mutual
  pub shape : Json → Json
  shape (scalar t) = scalar t
  shape (string t) = string []
  shape (array xs) = array (shape_items xs)
  shape (object fs) = object (shape_fields fs)

  shape_items : Items → Items
  shape_items nil = nil
  shape_items (cons x xs) = cons (shape x) (shape_items xs)

  shape_fields : Fields → Fields
  shape_fields end = end
  shape_fields (field key value fs) = field key (shape value) (shape_fields fs)

module _ (ps : List Pattern) where
  mutual
    unfolding redact_value

    value_shape : (v : Json) → shape (redact_value ps v) ≡ shape v
    value_shape (scalar t) = refl
    value_shape (string t) = refl
    value_shape (array xs) = ap array (items_shape xs)
    value_shape (object fs) = ap object (fields_shape fs)

    items_shape : (xs : Items) → shape_items (redact_items ps xs) ≡ shape_items xs
    items_shape nil = refl
    items_shape (cons x xs) = cc (value_shape x, items_shape xs)

    fields_shape : (fs : Fields) → shape_fields (redact_fields ps fs) ≡ shape_fields fs
    fields_shape end = refl
    fields_shape (field key value fs) = cc (value_shape value, fields_shape fs)

-- Redaction keeps the shape of a value at every depth: the same keys, lists of the same lengths, texts where
-- there were texts, and every other value as it was.
pub redact_value-shape : (ps : List Pattern) (v : Json) → shape (redact_value ps v) ≡ shape v
redact_value-shape ps v = value_shape ps v

-- The fields agree but for the values of sensitive keys.
abbrev pub SameButSecrets : Fields → Fields → Type 0
SameButSecrets end end = Unit
SameButSecrets end (field k v gs) = ⊥
SameButSecrets (field k v fs) end = ⊥
SameButSecrets (field j v fs) (field k w gs) =
    (j ≡ k) × (is_sensitive j ≡ false → v ≡ w) × SameButSecrets fs gs

-- Two inputs that agree but for the values of sensitive keys are redacted to the same, so that the result
-- tells nothing of those values.
pub redact_inputs-secret :
    (ps : List Pattern) (fs gs : Fields)
    → SameButSecrets fs gs
    → redact_inputs ps fs ≡ redact_inputs ps gs
unfolding redact_inputs
redact_inputs-secret ps end end h = refl
redact_inputs-secret ps end (field k w gs) h = absurd h
redact_inputs-secret ps (field j v fs) end h = absurd h
redact_inputs-secret ps (field j v fs) (field k w gs) h = elim (Bool-cases (is_sensitive j)) [
  | inl hidden ↦ hides hidden (redact_inputs-secret ps fs gs h.2) ∙ renamed
  | inr plain ↦ keeps plain (h.1 plain) (redact_inputs-secret ps fs gs h.2) ∙ renamed
]
  where
    with_key : Text → Fields
    with_key key =
        field key (if is_sensitive key then string redacted else redact_value ps w)
          (redact_inputs ps gs)

    renamed : with_key j ≡ with_key k
    renamed = ap with_key (h.0)

    hides :
        is_sensitive j ≡ true
        → redact_inputs ps fs ≡ redact_inputs ps gs
        → redact_inputs ps (field j v fs) ≡ with_key j
    hides hidden rest = ground (arith, hidden, rest)

    keeps :
        is_sensitive j ≡ false
        → v ≡ w
        → redact_inputs ps fs ≡ redact_inputs ps gs
        → redact_inputs ps (field j v fs) ≡ with_key j
    keeps plain same rest = ground (arith, plain, same, rest)

-- The matches agree but for the secret, the second group.
abbrev pub SameButGroup2 : List Segment → List Segment → Type 0
SameButGroup2 [] [] = Unit
SameButGroup2 [] (y ∷ ys) = ⊥
SameButGroup2 (x ∷ xs) [] = ⊥
SameButGroup2 (between s ∷ xs) (between t ∷ ys) = (s ≡ t) × SameButGroup2 xs ys
SameButGroup2 (between s ∷ xs) (matched a b c ∷ ys) = ⊥
SameButGroup2 (matched a b c ∷ xs) (between t ∷ ys) = ⊥
SameButGroup2 (matched a b c ∷ xs) (matched a' b' c' ∷ ys) =
    (a ≡ a') × (c ≡ c') × SameButGroup2 xs ys

substitute-secret :
    (groups : ℕ) (xs ys : List Segment)
    → SameButGroup2 xs ys
    → substitute groups xs ≡ substitute groups ys
unfolding substitute
substitute-secret groups [] [] h = refl
substitute-secret groups [] (y ∷ ys) h = absurd h
substitute-secret groups (x ∷ xs) [] h = absurd h
substitute-secret groups (between s ∷ xs) (between t ∷ ys) h =
    cc (h.0, substitute-secret groups xs ys h.1)
substitute-secret groups (between s ∷ xs) (matched a b c ∷ ys) h = absurd h
substitute-secret groups (matched a b c ∷ xs) (between t ∷ ys) h = absurd h
substitute-secret groups (matched a b c ∷ xs) (matched a' b' c' ∷ ys) h =
    cc (h.0, h.1, substitute-secret groups xs ys h.2)

-- Of two texts that a pattern takes apart in the same way but for the secret, the second group of each match,
-- what is left after the pattern is the same.
pub apply_pattern-secret :
    (p : Pattern) (s t : Text) (xs ys : List Segment)
    → p.segments s ≡ some xs
    → p.segments t ≡ some ys
    → SameButGroup2 xs ys
    → apply_pattern p s ≡ apply_pattern p t
unfolding apply_pattern
apply_pattern-secret p s t xs ys hs ht same =
    applied s xs hs ∙ substitute-secret p.groups xs ys same ∙ sym (applied t ys ht)
  where
    applied :
        (s : Text) (xs : List Segment)
        → p.segments s ≡ some xs
        → apply_pattern p s ≡ substitute p.groups xs
    applied s xs h = rw (h, apply_pattern) refl
