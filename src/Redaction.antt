-- ===== src/Redaction.antt =====
-- backend/secuscan/redaction.py: secrets in texts, findings and task inputs.
pub mod Secrecy
mod Tests
use secu_scan.Prelude.{
  Json, scalar, string, array, object, Items, nil, cons, Fields, end, field, ℕ, Bool, Option, none,
  some, List, [], ◌∷◌, ◌++◌, ◌==◌, if◌then◌else◌, Text, codes, lower, text_in,
}

-- `REDACTED`
abbrev pub redacted : Text
redacted = codes "[REDACTED]"

-- What a regular expression finds in a text, in order: what lies between the matches, and the matches
-- with their groups.
pub data Segment : Type 0 where
  between : Text → Segment
  matched : (group1 group2 group3 : Text) → Segment

-- A compiled pattern: its number of groups, and how it takes a text apart; `none` where it raises.
pub record Pattern : Type 0 where
  pub groups : ℕ
  pub segments : Text → Option (List Segment)

-- The replacement of a match
unfoldable pub replacement : ℕ → Text → Text → Text
replacement groups group1 group3 =
    if groups == 2
    then group1 ++ redacted
    else if groups == 3
    then group1 ++ redacted ++ group3
    else redacted

-- `pattern.sub(…)`
unfoldable pub substitute : ℕ → List Segment → Text
unfolding replacement
substitute groups [] = []
substitute groups (between t ∷ segments) = t ++ substitute groups segments
substitute groups (matched group1 group2 group3 ∷ segments) =
    replacement groups group1 group3 ++ substitute groups segments

-- `_apply_pattern`, and the handler that skips a pattern that raises
unfoldable pub apply_pattern : Pattern → Text → Text
unfolding substitute
apply_pattern p text = elim (p.segments text) [
  | none ↦ text
  | some segments ↦ substitute p.groups segments
]

-- The loop over `_PATTERNS`
unfoldable pub apply_all : List Pattern → Text → Text
apply_all [] text = text
apply_all (p ∷ ps) text = apply_all ps (apply_pattern p text)

-- `redact`
unfoldable pub redact : List Pattern → Text → Text
redact ps [] = []
redact ps (c ∷ t) = apply_all ps (c ∷ t)

unfoldable mutual
  -- `_redact_value`
  pub redact_value : List Pattern → Json → Json
  redact_value ps (scalar t) = scalar t
  redact_value ps (string t) = string (redact ps t)
  redact_value ps (array xs) = array (redact_items ps xs)
  redact_value ps (object fs) = object (redact_fields ps fs)

  pub redact_items : List Pattern → Items → Items
  redact_items ps nil = nil
  redact_items ps (cons x xs) = cons (redact_value ps x) (redact_items ps xs)

  -- `redact_dict`
  pub redact_fields : List Pattern → Fields → Fields
  redact_fields ps end = end
  redact_fields ps (field key value fs) = field key (redact_value ps value) (redact_fields ps fs)

-- `_SENSITIVE_INPUT_KEYS`
abbrev pub sensitive_input_keys : List Text
sensitive_input_keys =
    codes "api_key"
    ∷ codes "apikey"
    ∷ codes "api_secret"
    ∷ codes "secret"
    ∷ codes "secret_key"
    ∷ codes "password"
    ∷ codes "passwd"
    ∷ codes "pass"
    ∷ codes "pwd"
    ∷ codes "token"
    ∷ codes "access_token"
    ∷ codes "refresh_token"
    ∷ codes "auth"
    ∷ codes "auth_token"
    ∷ codes "authorization"
    ∷ codes "credentials"
    ∷ codes "private_key"
    ∷ codes "client_secret"
    ∷ codes "webhook_secret"
    ∷ codes "signing_key"
    ∷ codes "encryption_key"
    ∷ []

unfoldable pub is_sensitive : Text → Bool
is_sensitive key = text_in (lower key) sensitive_input_keys

-- `redact_inputs`
unfoldable pub redact_inputs : List Pattern → Fields → Fields
redact_inputs ps end = end
redact_inputs ps (field key value fs) =
    field key (if is_sensitive key then string redacted else redact_value ps value)
      (redact_inputs ps fs)
