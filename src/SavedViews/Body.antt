-- ===== src/SavedViews/Body.antt =====
-- The bodies of the requests: `FilterPreset`, `SavedViewCreate` and `SavedViewUpdate`.
use secu_scan.Prelude.{
  Json, scalar, string, array, object, Fields, end, field, Bool, true, false, ◌&&◌, Option, none,
  some, List, [], ◌∷◌, leb, if◌then◌else◌, length, Text, codes, text_eq, strip, text_in,
}

-- `_VALID_SORT_MODES` and `_VALID_SEVERITIES`
abbrev pub valid_sort_modes : List Text
valid_sort_modes = codes "severity" ∷ codes "newest" ∷ codes "oldest" ∷ codes "target" ∷ []

abbrev pub valid_severities : List Text
valid_severities =
    codes "all" ∷ codes "critical" ∷ codes "high" ∷ codes "medium" ∷ codes "low" ∷ codes "info" ∷ []

-- `data.get(key)`: of a key that comes twice `json.loads` keeps the last value.
unfoldable pub get_value : Text → Fields → Option Json
get_value key end = none
get_value key (field k value fs) =
    let rest = get_value key fs in
    elim rest [ some x ↦ some x | none ↦ if text_eq key k then some value else none ]

-- Whether the field is missing or a text that passes its test
unfoldable pub is_text : (Text → Bool) → Option Json → Bool
is_text test none = true
is_text test (some value) = elim value [
  | string t ↦ test t
  | scalar t ↦ false
  | array items ↦ false
  | object fields ↦ false
]

-- `FilterPreset(**data)`
unfoldable pub is_filter_preset : Fields → Bool
unfolding get_value is_text
is_filter_preset fs =
    is_text (λ t. text_in t valid_severities) (get_value (codes "severity") fs)
    && is_text (λ t. true) (get_value (codes "target") fs)
    && is_text (λ t. true) (get_value (codes "scanner") fs)
    && is_text (λ t. text_in t valid_sort_modes) (get_value (codes "sortMode") fs)
    && is_text (λ t. true) (get_value (codes "dateFrom") fs)
    && is_text (λ t. true) (get_value (codes "dateTo") fs)
    && is_text (λ t. true) (get_value (codes "searchQuery") fs)

-- How the validation of a body ends. A JSON value that is no object leaves `**data` with a `TypeError`.
pub data Body : Type 0 where
  valid_body invalid_body type_error : Body

-- `validate_filter_json`, with `json.loads`, `none` where it raises `JSONDecodeError`
unfoldable pub validate_filter_json : (Text → Option Json) → Text → Body
unfolding is_filter_preset
validate_filter_json loads v = elim (loads v) [
  | none ↦ invalid_body
  | some parsed ↦ elim parsed [
    | object fs ↦ if is_filter_preset fs then valid_body else invalid_body
    | array items ↦ type_error
    | string t ↦ type_error
    | scalar t ↦ type_error
  ]
]

-- The limits of `name` and `strip_name`
unfoldable pub strip_name : Text → Option Text
strip_name v =
    if leb 1 (length v) && leb (length v) 60
    then elim (strip v) [ [] ↦ none | c ∷ t ↦ some (c ∷ t) ]
    else none

-- The validation of a filter that may be missing
abbrev pub filter_body : (Text → Option Json) → Option Text → Body
filter_body loads none = valid_body
filter_body loads (some f) = validate_filter_json loads f
