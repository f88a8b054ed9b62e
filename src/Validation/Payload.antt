-- ===== src/Validation/Payload.antt =====
-- `validate_task_start_payload`: the limits on the body and on the fields of a request.
pub mod Limits
use secu_scan.Prelude.{
  Json, scalar, string, array, object, Items, nil, cons, Fields, end, field, size, show, ℕ, ◌+◌,
  Bool, false, Option, none, some, [], ◌∷◌, ◌++◌, ltb, if◌then◌else◌, length, Text, codes,
}

-- `settings.task_start_max_…`
pub record PayloadLimits : Type 0 where
  pub max_body_bytes : ℕ
  pub max_field_length : ℕ
  pub max_array_length : ℕ

-- The messages, with the key and the index that they name
pub data PayloadError : Type 0 where
  body_too_large inputs_not_object context_not_object : PayloadError
  field_too_long too_many_items : Text → PayloadError
  item_too_long : ℕ → Text → PayloadError

pub data PayloadCheck : Type 0 where
  payload_ok : PayloadCheck
  payload_refused : ℕ → PayloadError → PayloadCheck

-- `isinstance(item, str) and len(item) > max_field_length`
abbrev pub is_long_string : PayloadLimits → Json → Bool
is_long_string c (string t) = ltb c.max_field_length (length t)
is_long_string c (scalar t) = false
is_long_string c (array xs) = false
is_long_string c (object fs) = false

-- The check goes on, or ends with an error.
abbrev pub and_then : PayloadCheck → PayloadCheck → PayloadCheck
and_then payload_ok rest = rest
and_then (payload_refused status error) rest = payload_refused status error

abbrev pub item_key : Text → ℕ → Text
item_key key idx = key ++ b'[' ∷ show idx ++ b']' ∷ []

unfoldable mutual
  -- `_check_field`
  pub check_field : PayloadLimits → Text → Json → PayloadCheck
  check_field c key (scalar t) = payload_ok
  check_field c key (string t) =
      if ltb c.max_field_length (length t)
      then payload_refused 400 (field_too_long key)
      else payload_ok
  check_field c key (array xs) =
      let items = check_items c key 0 xs in
      if ltb c.max_array_length (size xs) then payload_refused 400 (too_many_items key) else items
  check_field c key (object fs) = check_fields c (key ++ b'.' ∷ []) fs

  -- Its loop over a list
  pub check_items : PayloadLimits → Text → ℕ → Items → PayloadCheck
  check_items c key idx nil = payload_ok
  check_items c key idx (cons x xs) =
      let rest = and_then (check_field c (item_key key idx) x) (check_items c key (idx + 1) xs) in
      if is_long_string c x then payload_refused 400 (item_too_long idx key) else rest

  -- The loops over a dictionary, each with what it puts before a key
  pub check_fields : PayloadLimits → Text → Fields → PayloadCheck
  check_fields c before end = payload_ok
  check_fields c before (field key value fs) =
      and_then (check_field c (before ++ key) value) (check_fields c before fs)

abbrev pub check_object : PayloadLimits → PayloadError → Text → Json → PayloadCheck
check_object c error before (object fs) = check_fields c before fs
check_object c error before (scalar t) = payload_refused 400 error
check_object c error before (string t) = payload_refused 400 error
check_object c error before (array xs) = payload_refused 400 error

unfoldable pub check_context : PayloadLimits → Option Json → PayloadCheck
check_context c none = payload_ok
check_context c (some context) =
    check_object c context_not_object (codes "execution_context.") context

-- `validate_task_start_payload`, of a body of so many bytes
unfoldable pub validate_task_start_payload : PayloadLimits → ℕ → Json → Option Json → PayloadCheck
unfolding check_context
validate_task_start_payload c body_bytes inputs context =
    if ltb c.max_body_bytes body_bytes
    then payload_refused 413 body_too_large
    else and_then (check_object c inputs_not_object [] inputs) (check_context c context)
