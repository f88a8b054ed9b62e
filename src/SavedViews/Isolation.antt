-- ===== src/SavedViews/Isolation.antt =====
-- The views of the other owners.
use secu_scan.Prelude.{
  Json, ◌≡◌, refl, true, false, not, Option, none, some, List, [], ◌∷◌, ◌++◌, map, arith, filter,
  Text, text_eq, text_eq_iff,
}
use secu_scan.SavedViews.Ready.{is_ready, is_sound, decide-is_sound}
use secu_scan.SavedViews.{
  SavedView, Statement, insert_row, update_row, delete_row, write, is_row, breaks_unique, execute,
  Decision, answers, runs, list_saved_views, Request, decide, conclude, handle,
}

filter-others :
    (view_id owner other : Text)
    → text_eq owner other ≡ false
    → (views : List SavedView)
    → list_saved_views other (filter (λ v. not (is_row view_id owner v)) views)
      ≡ list_saved_views other views
unfolding list_saved_views
filter-others view_id owner other d [] = refl
filter-others view_id owner other d (v ∷ views) = ground (
  arith,
  d,
  filter-others view_id owner other d views,
  text_eq_iff v.owner_id owner,
  text_eq_iff v.owner_id other,
  text_eq_iff owner other,
)

write-others :
    (view_id owner other : Text) (name filter_json : Option Text)
    → text_eq owner other ≡ false
    → (views : List SavedView)
    → list_saved_views other (map (write view_id owner name filter_json) views)
      ≡ list_saved_views other views
unfolding list_saved_views write
write-others view_id owner other name filter_json d [] = refl
write-others view_id owner other name filter_json d (v ∷ views) = ground (
  arith,
  d,
  write-others view_id owner other name filter_json d views,
  text_eq_iff v.owner_id owner,
  text_eq_iff v.owner_id other,
  text_eq_iff owner other,
)

append-others :
    (v : SavedView) (other : Text) (views : List SavedView)
    → text_eq v.owner_id other ≡ false
    → list_saved_views other (views ++ v ∷ []) ≡ list_saved_views other views
unfolding list_saved_views
append-others v other [] d = ground (arith, d)
append-others v other (w ∷ views) d = ground (arith, append-others v other views d)

-- A statement that is ready for its owner leaves the rows of the others.
pub execute-others :
    (owner other : Text) (statement : Statement) (views at : List SavedView)
    → text_eq owner other ≡ false
    → is_ready owner statement at ≡ true
    → list_saved_views other (execute statement views).1 ≡ list_saved_views other views
unfolding execute is_ready breaks_unique
execute-others owner other (insert_row v) views at d r = ground (
  arith,
  r,
  d,
  text_eq_iff v.owner_id owner,
  text_eq_iff v.owner_id other,
  text_eq_iff owner other,
  append-others v other views,
)
execute-others owner other (update_row view_id o none filter_json) views at d r =
    let apart : text_eq o other ≡ false =
      ground (arith, r, d, text_eq_iff o owner, text_eq_iff o other, text_eq_iff owner other) in
    write-others view_id o other none filter_json apart views
execute-others owner other (update_row view_id o (some n) filter_json) views at d r =
    let apart : text_eq o other ≡ false =
      ground (arith, r, d, text_eq_iff o owner, text_eq_iff o other, text_eq_iff owner other) in
    ground (arith, write-others view_id o other (some n) filter_json apart views)
execute-others owner other (delete_row view_id o) views at d r =
    filter-others view_id o other
      (ground (arith, r, d, text_eq_iff o owner, text_eq_iff o other, text_eq_iff owner other))
      views

-- Whatever an owner asks for, and whatever id the request names, the views that another owner sees stay as they are,
-- in their order.
pub handle-others :
    (loads : Text → Option Json) (owner other : Text) (request : Request) (views : List SavedView)
    → text_eq owner other ≡ false
    → list_saved_views other (handle loads owner request views).1 ≡ list_saved_views other views
unfolding handle conclude
handle-others loads owner other request views d =
    split (decide loads owner request views views) (decide-is_sound loads owner request views views)
  where
    split :
        (r : Decision)
        → is_sound owner views r ≡ true
        → list_saved_views other (conclude r views).1 ≡ list_saved_views other views
    split (answers status) h = refl
    split (runs statement) h = execute-others owner other statement views views d h
