-- ===== src/SavedViews/Service.antt =====
-- The requests of all owners, in every order of their reads and writes.
use secu_scan.Prelude.{
  Json, ◌≡◌, refl, sym, ap, ◌∙◌, subst, inl, inr, Bool, true, false, not, ◌&&◌, Option, none, some,
  List, [], ◌∷◌, arith, Bool-cases, any, Text, text_eq, text_eq_iff, Dict, lookup, or_default,
  insert, erase, lookup-insert, lookup-erase,
}
use mathlib.Core.Option.{none-ne-some}
use secu_scan.SavedViews.Ready.{is_ready, is_sound, decide-is_sound}
use secu_scan.SavedViews.Isolation.{execute-others}
use secu_scan.SavedViews.Unique.{is_unique, execute-is_unique}
use secu_scan.SavedViews.{
  SavedView, Statement, insert_row, update_row, delete_row, execute, runs, has_name, collides,
  list_saved_views, Request, decide,
}

-- The table, and for each owner the statement of the request that has decided and not yet written.
pub record Service : Type 0 where
  pub views : List SavedView
  pub under_way : Dict Statement

abbrev pub start : Service
start = record { views = []; under_way = [] }

-- One owner has one request under way at most: a request of an owner decides while no other of the owner is to
-- write. `before` is the table that the first read of an update finds, any table.
pub data Step (loads : Text → Option Json) : Service → Service → Type 0 where
  decides :
      (s : Service) (owner : Text) (request : Request) (before : List SavedView)
      (statement : Statement)
      → lookup owner s.under_way ≡ none
      → decide loads owner request before s.views ≡ runs statement
      → Step loads s (record s { under_way = insert owner statement s.under_way })
  writes :
      (s : Service) (owner : Text) (statement : Statement)
      → lookup owner s.under_way ≡ some statement
      → Step loads s
          (record { views = (execute statement s.views).1; under_way = erase owner s.under_way })

pub data Reach (loads : Text → Option Json) : Service → Type 0 where
  here : Reach loads start
  next : {s t : Service} → Reach loads s → Step loads s t → Reach loads t

-- The check of a name looks at the rows of its owner.
any-own :
    (owner : Text) (p : SavedView → Bool)
    → ((v : SavedView) → text_eq v.owner_id owner ≡ false → p v ≡ false)
    → (views : List SavedView) → any p views ≡ any p (list_saved_views owner views)
unfolding list_saved_views
any-own owner p own [] = refl
any-own owner p own (v ∷ views) = ground (arith, own v, any-own owner p own views)

has_name-own :
    (owner n : Text) (v : SavedView) → text_eq v.owner_id owner ≡ false → has_name owner n v ≡ false
unfolding has_name
has_name-own owner n v h = ground (arith, h)

collides-own :
    (view_id owner n : Text) (v : SavedView)
    → text_eq v.owner_id owner ≡ false
    → collides view_id owner n v ≡ false
unfolding collides has_name
collides-own view_id owner n v h = ground (arith, h)

ready-same :
    (owner : Text) (statement : Statement) (views views' : List SavedView)
    → list_saved_views owner views' ≡ list_saved_views owner views
    → is_ready owner statement views ≡ is_ready owner statement views'
unfolding is_ready
ready-same owner (insert_row v) views views' h =
    ap (λ b. text_eq v.owner_id owner && not b)
      (any-own owner (has_name owner v.name) (has_name-own owner v.name) views
        ∙ ap (any (has_name owner v.name)) (sym h)
        ∙ sym (any-own owner (has_name owner v.name) (has_name-own owner v.name) views'))
ready-same owner (update_row view_id o none filter_json) views views' h = refl
ready-same owner (update_row view_id o (some n) filter_json) views views' h =
    ap (λ b. text_eq o owner && not b)
      (any-own owner (collides view_id owner n) (collides-own view_id owner n) views
        ∙ ap (any (collides view_id owner n)) (sym h)
        ∙ sym (any-own owner (collides view_id owner n) (collides-own view_id owner n) views'))
ready-same owner (delete_row view_id o) views views' h = refl

-- The names are apart, and every statement under way is ready still.
abbrev IsValid : Service → Type 0
IsValid s =
    (is_unique s.views ≡ true)
    × ((owner : Text) (statement : Statement)
        → lookup owner s.under_way ≡ some statement
        → is_ready owner statement s.views ≡ true)

decides-IsValid :
    (loads : Text → Option Json) (s : Service) (owner : Text) (request : Request)
    (before : List SavedView) (statement : Statement)
    → decide loads owner request before s.views ≡ runs statement
    → IsValid s
    → IsValid (record s { under_way = insert owner statement s.under_way })
decides-IsValid loads s owner request before statement e v = (v.0, λ o st h. split o st h)
  where
    split :
        (o : Text) (st : Statement)
        → lookup o (insert owner statement s.under_way) ≡ some st
        → is_ready o st s.views ≡ true
    split o st h = elim (Bool-cases (text_eq o owner)) [
      | inl same ↦
          let e' : statement ≡ st =
            some_inj (sym (lookup-insert o owner statement s.under_way ∙ rw same refl) ∙ h) in
          subst (λ x. is_ready x st s.views ≡ true) (sym ((text_eq_iff o owner).0 same))
            (subst (λ x. is_ready owner x s.views ≡ true) e'
              (ap (is_sound owner s.views) (sym e)
                ∙ decide-is_sound loads owner request before s.views))
      | inr other ↦ v.1 o st (sym (lookup-insert o owner statement s.under_way ∙ rw other refl) ∙ h)
    ]
      where
        some_inj : {x y : Statement} → some x ≡ some y → x ≡ y
        some_inj {x} q = ap (or_default x) q

writes-IsValid :
    (s : Service) (owner : Text) (statement : Statement)
    → lookup owner s.under_way ≡ some statement
    → IsValid s
    → IsValid
        (record { views = (execute statement s.views).1; under_way = erase owner s.under_way })
writes-IsValid s owner statement e v =
    (execute-is_unique owner statement s.views v.0 ready, λ o st h. split o st h)
  where
    ready : is_ready owner statement s.views ≡ true
    ready = v.1 owner statement e

    split :
        (o : Text) (st : Statement)
        → lookup o (erase owner s.under_way) ≡ some st
        → is_ready o st (execute statement s.views).1 ≡ true
    split o st h = elim (Bool-cases (text_eq o owner)) [
      | inl same ↦
          absurd (none-ne-some st (sym (lookup-erase o owner s.under_way ∙ rw same refl) ∙ h))
      | inr other ↦
          let held = v.1 o st (sym (lookup-erase o owner s.under_way ∙ rw other refl) ∙ h) in
          sym (
            ready-same o st s.views (execute statement s.views).1 (
              execute-others owner o statement s.views s.views
                (ground (arith, other, text_eq_iff o owner, text_eq_iff owner o)) ready))
          ∙ held
    ]

Step-IsValid : {loads : Text → Option Json} {s t : Service} → Step loads s t → IsValid s → IsValid t
Step-IsValid {loads} (decides s owner request before statement idle e) v =
    decides-IsValid loads s owner request before statement e v
Step-IsValid (writes s owner statement e) v = writes-IsValid s owner statement e v

Reach-IsValid : {loads : Text → Option Json} {s : Service} → Reach loads s → IsValid s
unfolding lookup
Reach-IsValid here = (refl, λ o st h. absurd (none-ne-some st h))
Reach-IsValid (next r st) = Step-IsValid st (Reach-IsValid r)

-- In every order of the reads and writes of the requests of all owners, as long as no owner has two requests under
-- way at once, the ids of the views differ, and so do the names of each owner's views, whatever the case of their
-- ASCII letters.
pub Reach-is_unique :
    (loads : Text → Option Json) {s : Service} → Reach loads s → is_unique s.views ≡ true
Reach-is_unique loads r = (Reach-IsValid r).0
