-- ===== src/SavedViews/Ready.antt =====
-- What a handler has found out when it decides to run a statement.
use secu_scan.Prelude.{
  Json, ◌≡◌, refl, Bool, true, not, ◌&&◌, Option, none, some, List, arith, any, Text, text_eq,
  text_eq_refl,
}
use secu_scan.SavedViews.Body.{
  Body, valid_body, invalid_body, type_error, validate_filter_json, strip_name, filter_body,
}
use secu_scan.SavedViews.{
  SavedView, Statement, insert_row, update_row, delete_row, Decision, answers, runs, has_name,
  check_insert, decide_create, owner_of, collides, check_update, check_owned, decide_update,
  decide_delete, Request, creates, updates, deletes, decide,
}

-- The statement writes rows of the owner only, and no other row of the owner has the name that it writes.
unfoldable pub is_ready : Text → Statement → List SavedView → Bool
is_ready o (insert_row v) views = text_eq v.owner_id o && not (any (has_name o v.name) views)
is_ready o (update_row view_id owner none filter_json) views = text_eq owner o
is_ready o (update_row view_id owner (some n) filter_json) views =
    text_eq owner o && not (any (collides view_id o n) views)
is_ready o (delete_row view_id owner) views = text_eq owner o

abbrev pub is_sound : Text → List SavedView → Decision → Bool
is_sound o views (answers status) = true
is_sound o views (runs statement) = is_ready o statement views

create-is_sound :
    (loads : Text → Option Json) (view_id name filter_json owner : Text) (views : List SavedView)
    → is_sound owner views (decide_create loads view_id name filter_json owner views) ≡ true
unfolding decide_create check_insert is_ready
create-is_sound loads view_id name filter_json owner views =
    split (validate_filter_json loads filter_json) (strip_name name) refl refl
  where
    split :
        (b : Body) (n : Option Text)
        → validate_filter_json loads filter_json ≡ b
        → strip_name name ≡ n
        → is_sound owner views (decide_create loads view_id name filter_json owner views) ≡ true
    split type_error n q e = rw (q, decide_create) refl
    split invalid_body n q e = rw (q, decide_create) refl
    split valid_body none q e = rw (q, e, decide_create) refl
    split valid_body (some n) q e = rw (q, e, decide_create) (ground (arith, text_eq_refl owner))

update-is_sound :
    (view_id owner : Text) (name filter_json : Option Text) (views : List SavedView)
    → is_sound owner views (check_update view_id name filter_json owner views) ≡ true
unfolding check_update is_ready
update-is_sound view_id owner none none views = refl
update-is_sound view_id owner none (some f) views = text_eq_refl owner
update-is_sound view_id owner (some n) filter_json views = ground (arith, text_eq_refl owner)

owned-is_sound :
    (view_id owner : Text) (name filter_json : Option Text) (before views : List SavedView)
    → is_sound owner views (check_owned view_id name filter_json owner before views) ≡ true
unfolding check_owned
owned-is_sound view_id owner name filter_json before views = split (owner_of view_id before) refl
  where
    split :
        (r : Option Text)
        → owner_of view_id before ≡ r
        → is_sound owner views (check_owned view_id name filter_json owner before views) ≡ true
    split none q = rw (q, check_owned) refl
    split (some o) q =
        rw (q, check_owned) (ground (arith, update-is_sound view_id owner name filter_json views))

decide_update-is_sound :
    (loads : Text → Option Json) (view_id owner : Text) (name filter_json : Option Text)
    (before views : List SavedView)
    → is_sound owner views (decide_update loads view_id name filter_json owner before views) ≡ true
unfolding decide_update
decide_update-is_sound loads view_id owner name filter_json before views =
    split (filter_body loads filter_json) name refl
  where
    named :
        (n : Text) (r : Option Text)
        → filter_body loads filter_json ≡ valid_body
        → strip_name n ≡ r
        → is_sound owner views (decide_update loads view_id (some n) filter_json owner before views)
          ≡ true
    named n none q e = rw (q, e, decide_update) refl
    named n (some n') q e =
        rw (q, e, decide_update) (owned-is_sound view_id owner (some n') filter_json before views)

    split :
        (b : Body) (m : Option Text)
        → filter_body loads filter_json ≡ b
        → is_sound owner views (decide_update loads view_id m filter_json owner before views) ≡ true
    split type_error m q = rw (q, decide_update) refl
    split invalid_body m q = rw (q, decide_update) refl
    split valid_body none q =
        rw (q, decide_update) (owned-is_sound view_id owner none filter_json before views)
    split valid_body (some n) q = named n (strip_name n) q refl

delete-is_sound :
    (view_id owner : Text) (views : List SavedView)
    → is_sound owner views (decide_delete view_id owner views) ≡ true
unfolding decide_delete is_ready
delete-is_sound view_id owner views = split (owner_of view_id views) refl
  where
    split :
        (r : Option Text)
        → owner_of view_id views ≡ r
        → is_sound owner views (decide_delete view_id owner views) ≡ true
    split none q = rw (q, decide_delete, is_ready) (text_eq_refl owner)
    split (some o) q = rw (q, decide_delete, is_ready) (ground (arith, text_eq_refl owner))

pub decide-is_sound :
    (loads : Text → Option Json) (owner : Text) (request : Request) (before views : List SavedView)
    → is_sound owner views (decide loads owner request before views) ≡ true
unfolding decide
decide-is_sound loads owner (creates view_id name filter_json) before views =
    create-is_sound loads view_id name filter_json owner views
decide-is_sound loads owner (updates view_id name filter_json) before views =
    decide_update-is_sound loads view_id owner name filter_json before views
decide-is_sound loads owner (deletes view_id) before views = delete-is_sound view_id owner views
