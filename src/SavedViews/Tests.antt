-- ===== src/SavedViews/Tests.antt =====
-- The saved views at concrete inputs.
use secu_scan.Prelude.{
  Json, array, object, nil, end, ◌≡◌, refl, true, Option, none, some, List, [], ◌∷◌, ◌==◌,
  if◌then◌else◌, Text, codes, text_eq, strip, lower, lookup, insert, erase,
}
use secu_scan.SavedViews.{
  SavedView, creates, updates, deletes, handle, list_saved_views, insert_row, decide, runs, execute,
}
use secu_scan.SavedViews.Isolation.{handle-others}
use secu_scan.SavedViews.Unique.{is_unique}
use secu_scan.SavedViews.Service.{
  Service, start, Reach, here, next, decides, writes, Reach-is_unique,
}
use secu_scan.SavedViews.Body.{validate_filter_json}

-- The empty object, and an array
abbrev loads : Text → Option Json
loads [] = none
loads (c ∷ t) = if c == b'{' then some (object end) else some (array nil)

abbrev mine : SavedView
mine = record { id = codes "1"; name = codes "Web"; filter_json = codes "{}"; owner_id = codes "a" }

abbrev yours : SavedView
yours = record {
  id = codes "2";
  name = codes "web";
  filter_json = codes "{}";
  owner_id = codes "b";
}

abbrev views : List SavedView
views = mine ∷ yours ∷ []

takes_name :
    handle loads (codes "a") (creates (codes "3") (codes " WEB ") (codes "{}")) views ≡ (409, views)
unfolding handle validate_filter_json strip text_eq lower
takes_name = refl

not_owned :
    handle loads (codes "a") (updates (codes "2") (some (codes "x")) none) views ≡ (403, views)
unfolding handle strip text_eq
not_owned = refl

no_object :
    handle loads (codes "a") (creates (codes "3") (codes "x") (codes "[]")) views ≡ (500, views)
unfolding handle validate_filter_json
no_object = refl

handle-others_example :
    list_saved_views (codes "b") (handle loads (codes "a") (deletes (codes "2")) views).1
    ≡ list_saved_views (codes "b") views
unfolding text_eq
handle-others_example = handle-others loads (codes "a") (codes "b") (deletes (codes "2")) views refl

-- Two owners decide before either writes.
abbrev decided_a : Service
decided_a = record start { under_way = (codes "a", insert_row mine) ∷ [] }

abbrev decided : Service
decided = record {
  views = [];
  under_way = (codes "a", insert_row mine) ∷ (codes "b", insert_row yours) ∷ [];
}

decides_first :
    decide loads (codes "a") (creates (codes "1") (codes "Web") (codes "{}")) [] []
    ≡ runs (insert_row mine)
unfolding decide validate_filter_json strip
decides_first = refl

decides_second :
    decide loads (codes "b") (creates (codes "2") (codes "web") (codes "{}")) [] []
    ≡ runs (insert_row yours)
unfolding decide validate_filter_json strip
decides_second = refl

abbrev written : Service
written = record {
  views = (execute (insert_row mine) []).1;
  under_way = erase (codes "a") decided.under_way;
}

written_reached : Reach loads written
unfolding lookup text_eq insert
written_reached =
    next
      (next
        (next here (
          decides start (codes "a") (creates (codes "1") (codes "Web") (codes "{}")) []
            (insert_row mine) refl decides_first))
        (decides decided_a (codes "b") (creates (codes "2") (codes "web") (codes "{}")) []
          (insert_row yours) refl decides_second))
      (writes decided (codes "a") (insert_row mine) refl)

Reach-is_unique_example : is_unique written.views ≡ true
Reach-is_unique_example = Reach-is_unique loads written_reached

-- Two requests of one owner under way at once: both names pass their check, and the table takes both.
twice :
    (decide loads (codes "a") (creates (codes "2") (codes "web") (codes "{}")) [] []
      ≡ runs (insert_row (record yours { owner_id = codes "a" })))
    × ((execute (insert_row (record yours { owner_id = codes "a" })) (mine ∷ [])).0 ≡ 201)
unfolding decide validate_filter_json strip execute text_eq
twice = (refl, refl)
