-- ===== src/Plugins/Schema.antt =====
-- The validation and the defaults of inputs: `_validate_inputs_against_schema` and `_normalize_inputs`.
use secu_scan.Prelude.{
  string, ℕ, Bool, true, false, not, ◌&&◌, ◌||◌, Option, none, some, List, [], ◌∷◌, map, ◌==◌,
  if◌then◌else◌, any, Text, codes, text_eq, lstrip, strip, lower, starts_with, text_in, Dict,
  lookup, insert,
}
use secu_scan.Ratelimit.Identity.{split_on, truthy}
use secu_scan.Validation.Sanitize.{slash}
use secu_scan.Plugins.{
  InputValue, nothing, str, truth, other, printed, is_blank, string, text, integer, boolean, select,
  multiselect, file, keyvalue, PluginField, Outside,
}

-- `_INTERNAL_CONTROL_FIELDS`
abbrev pub internal_control_fields : List Text
internal_control_fields =
    codes "safe_mode" ∷ codes "consent_granted" ∷ codes "dry_run" ∷ codes "debug_mode" ∷ []

-- The keys of `_VALIDATION_PRESETS`
abbrev pub preset_names : List Text
preset_names =
    codes "url"
    ∷ codes "hostname"
    ∷ codes "domain"
    ∷ codes "ipv4"
    ∷ codes "port"
    ∷ codes "cidr"
    ∷ []

-- How a validation ends: the exceptions are `ValueError`, and `re.error` for a pattern that is none.
pub data Check : Type 0 where
  accepted value_error pattern_error : Check

-- Where the match of `_PORT_SPEC_PATTERN` is; `$` also matches before a line feed at the end.
pub data PortSpec : Type 0 where
  at_first in_first at_second in_second past_end mismatch : PortSpec

unfoldable pub port_step : (ℕ → Bool) → PortSpec → ℕ → PortSpec
port_step is_digit at_first c = if is_digit c then in_first else mismatch
port_step is_digit in_first c =
    if is_digit c
    then in_first
    else if c == b'-'
    then at_second
    else if c == b','
    then at_first
    else if c == 10
    then past_end
    else mismatch
port_step is_digit at_second c = if is_digit c then in_second else mismatch
port_step is_digit in_second c =
    if is_digit c
    then in_second
    else if c == b','
    then at_first
    else if c == 10
    then past_end
    else mismatch
port_step is_digit past_end c = mismatch
port_step is_digit mismatch c = mismatch

unfoldable pub is_match : PortSpec → Bool
is_match at_first = false
is_match in_first = true
is_match at_second = false
is_match in_second = true
is_match past_end = true
is_match mismatch = false

unfoldable pub port_spec_from : (ℕ → Bool) → PortSpec → Text → Bool
unfolding port_step is_match
port_spec_from is_digit s [] = is_match s
port_spec_from is_digit s (c ∷ t) = port_spec_from is_digit (port_step is_digit s c) t

-- The test of `_reject_path_traversal`
unfoldable pub has_traversal : Text → Bool
has_traversal value = text_in (codes "..") (split_on b'/' (map slash value))

-- Whether `_reject_injected_args` lets the value pass
unfoldable pub is_no_flag : Outside → Text → Text → Bool
unfolding port_spec_from
is_no_flag o field_id value =
    if text_in field_id (codes "ports" ∷ codes "port" ∷ [])
    then text_eq value [] || port_spec_from o.is_digit at_first value
    else not (starts_with (lstrip value) (codes "-"))

-- The validation preset of a field, if it names one
unfoldable pub preset_of : PluginField → Option Text
preset_of f = elim (truthy f.validation_type) [
  | none ↦ none
  | some name ↦ if text_in name preset_names then some name else none
]

unfoldable pub match_pattern : Outside → PluginField → Text → Check
unfolding preset_of
match_pattern o f value = elim (preset_of f) [
  | some name ↦ if o.matches_preset name value then accepted else value_error
  | none ↦ elim (truthy f.pattern) [
    | none ↦ accepted
    | some p ↦ elim (o.matches p value) [
      | none ↦ pattern_error
      | some is_matched ↦ if is_matched then accepted else value_error
    ]
  ]
]

-- `_validate_string_field`
unfoldable pub validate_string_field : Outside → PluginField → Text → Text → Check
unfolding match_pattern has_traversal is_no_flag
validate_string_field o f field_id value = elim (match_pattern o f value) [
  | accepted ↦
      if is_no_flag o field_id value && not (has_traversal value) then accepted else value_error
  | value_error ↦ value_error
  | pattern_error ↦ pattern_error
]

-- `_validate_integer_field`, where `int` does not raise
unfoldable pub is_integer : Outside → InputValue → Bool
is_integer o nothing = false
is_integer o (str t) = o.reads_int t
is_integer o (truth b) = true
is_integer o (other t counts is_int) = is_int

-- `_validate_boolean_field`
unfoldable pub is_boolean : InputValue → Bool
is_boolean nothing = false
is_boolean (str t) = text_in (lower t) (codes "true" ∷ codes "false" ∷ codes "1" ∷ codes "0" ∷ [])
is_boolean (truth b) = true
is_boolean (other t counts is_int) = false

-- `value in allowed`
unfoldable pub is_option : List (Option Text) → InputValue → Bool
is_option options nothing = false
is_option options (str t) = any (λ o. elim o [ none ↦ false | some s ↦ text_eq t s ]) options
is_option options (truth b) = false
is_option options (other t counts is_int) = false

abbrev pub check_that : Bool → Check
check_that b = if b then accepted else value_error

-- The tests by the type of the field
unfoldable pub validate_field : Outside → PluginField → Text → InputValue → Check
unfolding is_integer is_boolean is_option validate_string_field printed
validate_field o f field_id value = elim f.field_type [
  | integer ↦ check_that (is_integer o value)
  | boolean ↦ check_that (is_boolean value)
  | select ↦ check_that (is_option f.options value)
  | string ↦ validate_string_field o f field_id (printed value)
  | text ↦ validate_string_field o f field_id (printed value)
  | multiselect ↦ accepted
  | file ↦ accepted
  | keyvalue ↦ accepted
]

-- `field_map.get(field_id)`: the last field of the id
unfoldable pub find_field : Text → List PluginField → Option PluginField
find_field field_id [] = none
find_field field_id (f ∷ fs) =
    let rest = find_field field_id fs in
    elim rest [ some g ↦ some g | none ↦ if text_eq field_id f.id then some f else none ]

unfoldable pub is_control : Text → Bool
is_control field_id = text_in field_id internal_control_fields || starts_with field_id (codes "__")

-- The body of the loop
unfoldable pub validate_input : Outside → List PluginField → Text → InputValue → Check
unfolding find_field is_control is_blank validate_field
validate_input o fields field_id value =
    if is_control field_id then accepted else elim (find_field field_id fields) [
      | none ↦ value_error
      | some f ↦ if is_blank value then accepted else validate_field o f field_id value
    ]

-- `_validate_inputs_against_schema`
unfoldable pub validate_inputs_against_schema : Outside → List PluginField → Dict InputValue → Check
unfolding validate_input
validate_inputs_against_schema o fields [] = accepted
validate_inputs_against_schema o fields ((field_id, value) ∷ inputs) =
    elim (validate_input o fields field_id value) [
      | accepted ↦ validate_inputs_against_schema o fields inputs
      | value_error ↦ value_error
      | pattern_error ↦ pattern_error
    ]

abbrev is_missing : Text → Dict InputValue → Bool
is_missing field_id inputs = elim (lookup field_id inputs) [
  | none ↦ true
  | some value ↦ is_blank value
]

-- `_with_field_defaults`
unfoldable pub with_field_defaults : List PluginField → Dict InputValue → Dict InputValue
unfolding is_blank
with_field_defaults [] normalized = normalized
with_field_defaults (f ∷ fs) normalized = with_field_defaults fs (
    if is_missing f.id normalized && not (is_blank f.default_value)
    then insert f.id f.default_value normalized
    else normalized)

unfoldable pub resolve_wordlist : Outside → Dict InputValue → Text → Option (Dict InputValue)
resolve_wordlist o normalized [] = some normalized
resolve_wordlist o normalized (c ∷ t) = elim (o.resolve_wordlist_path (c ∷ t)) [
  | none ↦ none
  | some path ↦ some (insert (codes "wordlist") (str path) normalized)
]

-- `_normalize_inputs`, `none` where the resolution of the wordlist raises `ValueError`
unfoldable pub normalize_inputs :
    Outside → List PluginField → Dict InputValue → Option (Dict InputValue)
unfolding with_field_defaults resolve_wordlist
normalize_inputs o fields inputs =
    let normalized = with_field_defaults fields inputs in
    elim (lookup (codes "wordlist") normalized) [
      | none ↦ some normalized
      | some value ↦ elim value [
        | str t ↦ resolve_wordlist o normalized (strip t)
        | nothing ↦ some normalized
        | truth b ↦ some normalized
        | other t counts is_int ↦ some normalized
      ]
    ]
