-- ===== src/SavedViews.antt =====
-- The saved views, backend/secuscan/saved_views.py: the table and the four handlers. A handler that writes reads the
-- table first and decides, and writes later: in between it awaits.
pub mod Body
pub mod Isolation
pub mod Unique
pub mod Ready
pub mod Service
mod Tests
use secu_scan.Prelude.{
  Json, ℕ, Bool, false, not, ◌&&◌, ◌||◌, Option, none, some, List, [], ◌∷◌, ◌++◌, map,
  if◌then◌else◌, filter, any, Text, text_eq, lower, or_default,
}
use secu_scan.SavedViews.Body.{
  valid_body, invalid_body, type_error, validate_filter_json, strip_name, filter_body,
}

-- A row of `saved_views`; the table holds them in the order of their creation.
pub record SavedView : Type 0 where
  pub id : Text
  pub name : Text
  pub filter_json : Text
  pub owner_id : Text

-- The answer of a handler: its status, 500 for an exception, and the table afterwards
abbrev pub Answer : Type 0
Answer = ℕ × List SavedView

-- The statements that write
pub data Statement : Type 0 where
  insert_row : SavedView → Statement
  update_row : Text → Text → Option Text → Option Text → Statement
  delete_row : Text → Text → Statement

-- What the UPDATE statement makes of a row
unfoldable pub write : Text → Text → Option Text → Option Text → SavedView → SavedView
write view_id owner name filter_json v =
    if text_eq v.id view_id && text_eq v.owner_id owner
    then record v {
      name = or_default v.name name;
      filter_json = or_default v.filter_json filter_json;
    }
    else v

-- A row that the constraints of the table, PRIMARY KEY (id) and UNIQUE (owner_id, name), keep from another
abbrev pub is_same_row : SavedView → SavedView → Bool
is_same_row v w = text_eq w.id v.id || (text_eq w.owner_id v.owner_id && text_eq w.name v.name)

abbrev pub other_of_name : Text → Text → Text → SavedView → Bool
other_of_name view_id owner name v =
    text_eq v.owner_id owner && text_eq v.name name && not (text_eq v.id view_id)

abbrev pub is_row : Text → Text → SavedView → Bool
is_row view_id owner v = text_eq v.id view_id && text_eq v.owner_id owner

-- Whether an UPDATE breaks UNIQUE (owner_id, name): its row is there, and another has the name.
unfoldable pub breaks_unique : Text → Text → Option Text → List SavedView → Bool
breaks_unique view_id owner none views = false
breaks_unique view_id owner (some name) views =
    any (is_row view_id owner) views && any (other_of_name view_id owner name) views

-- A statement runs, or raises `IntegrityError`.
unfoldable pub execute : Statement → List SavedView → Answer
unfolding write breaks_unique
execute (insert_row v) views =
    if any (is_same_row v) views then (500, views) else (201, views ++ v ∷ [])
execute (update_row view_id owner name filter_json) views =
    if breaks_unique view_id owner name views
    then (500, views)
    else (200, map (write view_id owner name filter_json) views)
execute (delete_row view_id owner) views = (200, filter (λ v. not (is_row view_id owner v)) views)

-- What a handler decides on what it has read: an answer, or a statement
pub data Decision : Type 0 where
  answers : ℕ → Decision
  runs : Statement → Decision

unfoldable pub has_name : Text → Text → SavedView → Bool
has_name owner name v = text_eq (lower v.name) (lower name) && text_eq v.owner_id owner

-- The check of `create_saved_view`
unfoldable pub check_insert : SavedView → List SavedView → Decision
unfolding has_name
check_insert v views =
    if any (has_name v.owner_id v.name) views then answers 409 else runs (insert_row v)

-- `create_saved_view` up to its INSERT
unfoldable pub decide_create :
    (Text → Option Json) → Text → Text → Text → Text → List SavedView → Decision
unfolding check_insert strip_name
decide_create loads view_id name filter_json owner views =
    elim (validate_filter_json loads filter_json) [
      | type_error ↦ answers 500
      | invalid_body ↦ answers 422
      | valid_body ↦ elim (strip_name name) [
        | none ↦ answers 422
        | some n ↦
            check_insert
              (record { id = view_id; name = n; filter_json = filter_json; owner_id = owner }) views
      ]
    ]

-- The owner of the row with an id
unfoldable pub owner_of : Text → List SavedView → Option Text
owner_of view_id [] = none
owner_of view_id (v ∷ vs) =
    let rest = owner_of view_id vs in if text_eq v.id view_id then some v.owner_id else rest

unfoldable pub collides : Text → Text → Text → SavedView → Bool
unfolding has_name
collides view_id owner name v = has_name owner name v && not (text_eq v.id view_id)

-- `update_saved_view` behind `require_owned_saved_view`
unfoldable pub check_update : Text → Option Text → Option Text → Text → List SavedView → Decision
unfolding collides
check_update view_id none none owner views = answers 400
check_update view_id none (some f) owner views = runs (update_row view_id owner none (some f))
check_update view_id (some n) filter_json owner views =
    if any (collides view_id owner n) views
    then answers 409
    else runs (update_row view_id owner (some n) filter_json)

-- `update_saved_view` behind the validation of its body, with the table that `require_owned_saved_view` reads and
-- that of the check of the name
unfoldable pub check_owned :
    Text → Option Text → Option Text → Text → List SavedView → List SavedView → Decision
unfolding check_update owner_of
check_owned view_id name filter_json owner before views = elim (owner_of view_id before) [
  | none ↦ answers 404
  | some owner' ↦
      if text_eq owner' owner
      then check_update view_id name filter_json owner views
      else answers 403
]

-- `update_saved_view` up to its UPDATE
unfoldable pub decide_update :
    (Text → Option Json)
    → Text
    → Option Text
    → Option Text
    → Text
    → List SavedView
    → List SavedView
    → Decision
unfolding check_owned strip_name
decide_update loads view_id name filter_json owner before views =
    elim (filter_body loads filter_json) [
      | type_error ↦ answers 500
      | invalid_body ↦ answers 422
      | valid_body ↦ elim name [
        | none ↦ check_owned view_id none filter_json owner before views
        | some n ↦ elim (strip_name n) [
          | none ↦ answers 422
          | some n' ↦ check_owned view_id (some n') filter_json owner before views
        ]
      ]
    ]

-- `delete_saved_view` up to its DELETE
unfoldable pub decide_delete : Text → Text → List SavedView → Decision
unfolding owner_of
decide_delete view_id owner views = elim (owner_of view_id views) [
  | none ↦ runs (delete_row view_id owner)
  | some owner' ↦ if text_eq owner' owner then runs (delete_row view_id owner) else answers 403
]

-- `list_saved_views`
unfoldable pub list_saved_views : Text → List SavedView → List SavedView
list_saved_views owner views = filter (λ v. text_eq v.owner_id owner) views

-- A request that changes the table, with what the handler is given besides its owner
pub data Request : Type 0 where
  creates : Text → Text → Text → Request
  updates : Text → Option Text → Option Text → Request
  deletes : Text → Request

-- What a handler decides, with the tables that its reads find
unfoldable pub decide :
    (Text → Option Json) → Text → Request → List SavedView → List SavedView → Decision
unfolding decide_create decide_update decide_delete
decide loads owner (creates view_id name filter_json) before views =
    decide_create loads view_id name filter_json owner views
decide loads owner (updates view_id name filter_json) before views =
    decide_update loads view_id name filter_json owner before views
decide loads owner (deletes view_id) before views = decide_delete view_id owner views

unfoldable pub conclude : Decision → List SavedView → Answer
unfolding execute
conclude (answers status) views = (status, views)
conclude (runs statement) views = execute statement views

-- A whole call that no other overlaps
unfoldable pub handle : (Text → Option Json) → Text → Request → List SavedView → Answer
unfolding decide conclude
handle loads owner request views = conclude (decide loads owner request views views) views
