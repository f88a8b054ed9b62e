-- ===== src/Validation/Payload/Limits.antt =====
-- What a payload that is accepted keeps to, at every depth.
use secu_scan.Prelude.{
  Json, scalar, string, array, object, Items, nil, cons, Fields, end, field, size, all-append, ℕ,
  ◌+◌, ◌≡◌, refl, Bool, true, false, ◌&&◌, Option, none, some, List, [], ◌∷◌, ◌++◌, arith, leb,
  length, all, Text, codes,
}
use secu_scan.Validation.Payload.{
  PayloadLimits, PayloadCheck, payload_ok, payload_refused, PayloadError, inputs_not_object,
  context_not_object, is_long_string, item_key, check_field, check_items, check_fields,
  check_object, check_context, validate_task_start_payload, and_then,
}

-- The lengths of all texts inside a value
abbrev mutual
  texts : Json → List ℕ
  texts (scalar t) = []
  texts (string t) = length t ∷ []
  texts (array xs) = texts_items xs
  texts (object fs) = texts_fields fs

  texts_items : Items → List ℕ
  texts_items nil = []
  texts_items (cons x xs) = texts x ++ texts_items xs

  texts_fields : Fields → List ℕ
  texts_fields end = []
  texts_fields (field k v fs) = texts v ++ texts_fields fs

-- The lengths of all lists inside a value
abbrev mutual
  lists : Json → List ℕ
  lists (scalar t) = []
  lists (string t) = []
  lists (array xs) = size xs ∷ lists_items xs
  lists (object fs) = lists_fields fs

  lists_items : Items → List ℕ
  lists_items nil = []
  lists_items (cons x xs) = lists x ++ lists_items xs

  lists_fields : Fields → List ℕ
  lists_fields end = []
  lists_fields (field k v fs) = lists v ++ lists_fields fs

abbrev up_to : ℕ → List ℕ → Bool
up_to n ns = all (λ k. leb k n) ns

abbrev keeps_limits : PayloadLimits → List ℕ → List ℕ → Bool
keeps_limits c ts ls = up_to c.max_field_length ts && up_to c.max_array_length ls

abbrev pub is_ok : PayloadCheck → Bool
is_ok payload_ok = true
is_ok (payload_refused status error) = false

is_ok-and_then : (a b : PayloadCheck) → is_ok (and_then a b) ≡ (is_ok a && is_ok b)
is_ok-and_then payload_ok b = refl
is_ok-and_then (payload_refused status error) b = refl

up_to-append : (n : ℕ) (xs ys : List ℕ) → up_to n (xs ++ ys) ≡ (up_to n xs && up_to n ys)
up_to-append n xs ys = all-append (λ k. leb k n) xs ys

keeps-append :
    (c : PayloadLimits) (ts ts' ls ls' : List ℕ)
    → keeps_limits c (ts ++ ts') (ls ++ ls') ≡ (keeps_limits c ts ls && keeps_limits c ts' ls')
keeps-append c ts ts' ls ls' =
    ground (arith, up_to-append c.max_field_length ts ts', up_to-append c.max_array_length ls ls')

module _ (c : PayloadLimits) where
  long_string-out :
      (v : Json) → is_long_string c v ≡ true → keeps_limits c (texts v) (lists v) ≡ false
  long_string-out (string t) h = ground arith
  long_string-out (scalar t) h = cc
  long_string-out (array xs) h = cc
  long_string-out (object fs) h = cc

  mutual
    unfolding check_field

    fits :
        (key : Text) (v : Json) → is_ok (check_field c key v) ≡ keeps_limits c (texts v) (lists v)
    fits key (scalar t) = refl
    fits key (string t) = ground arith
    fits key (array xs) = ground (arith, fits_items key 0 xs)
    fits key (object fs) = fits_fields (key ++ b'.' ∷ []) fs

    fits_items :
        (key : Text) (idx : ℕ) (xs : Items)
        → is_ok (check_items c key idx xs) ≡ keeps_limits c (texts_items xs) (lists_items xs)
    fits_items key idx nil = refl
    fits_items key idx (cons x xs) = ground (
      arith,
      long_string-out x,
      is_ok-and_then (check_field c (item_key key idx) x) (check_items c key (idx + 1) xs),
      fits (item_key key idx) x,
      fits_items key (idx + 1) xs,
      keeps-append c (texts x) (texts_items xs) (lists x) (lists_items xs),
    )

    fits_fields :
        (before : Text) (fs : Fields)
        → is_ok (check_fields c before fs) ≡ keeps_limits c (texts_fields fs) (lists_fields fs)
    fits_fields before end = refl
    fits_fields before (field key v fs) = ground (
      arith,
      is_ok-and_then (check_field c (before ++ key) v) (check_fields c before fs),
      fits (before ++ key) v,
      fits_fields before fs,
      keeps-append c (texts v) (texts_fields fs) (lists v) (lists_fields fs),
    )

abbrev is_object : Json → Bool
is_object (object fs) = true
is_object (scalar t) = false
is_object (string t) = false
is_object (array xs) = false

-- An object whose texts and lists, at every depth, keep to the limits.
abbrev pub is_in_limits : PayloadLimits → Json → Bool
is_in_limits c v = is_object v && keeps_limits c (texts v) (lists v)

abbrev pub context_in_limits : PayloadLimits → Option Json → Bool
context_in_limits c none = true
context_in_limits c (some context) = is_in_limits c context

object-fits :
    (c : PayloadLimits) (error : PayloadError) (before : Text) (v : Json)
    → is_ok (check_object c error before v) ≡ is_in_limits c v
object-fits c error before (object fs) = fits_fields c before fs
object-fits c error before (scalar t) = refl
object-fits c error before (string t) = refl
object-fits c error before (array xs) = refl

context-fits :
    (c : PayloadLimits) (context : Option Json)
    → is_ok (check_context c context) ≡ context_in_limits c context
unfolding check_context
context-fits c none = refl
context-fits c (some context) =
    object-fits c context_not_object (codes "execution_context.") context

-- A payload is accepted exactly when its body has at most the allowed number of bytes, the inputs and
-- the execution context, if there is one, are objects, and every text and every list inside them, at
-- whatever depth, has at most the allowed length.
pub payload-limits :
    (c : PayloadLimits) (body_bytes : ℕ) (inputs : Json) (context : Option Json)
    → is_ok (validate_task_start_payload c body_bytes inputs context)
      ≡ (leb body_bytes c.max_body_bytes && is_in_limits c inputs && context_in_limits c context)
unfolding validate_task_start_payload
payload-limits c body_bytes inputs context = ground (
  arith,
  object-fits c inputs_not_object [] inputs,
  context-fits c context,
  is_ok-and_then (check_object c inputs_not_object [] inputs) (check_context c context),
)
