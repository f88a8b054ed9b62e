-- ===== src/SavedViews/Unique.antt =====
-- The names of an owner's views differ, whatever the case of their letters.
use secu_scan.Prelude.{
  all-append, ◌≡◌, refl, sym, subst, inl, inr, Bool, true, false, not, ◌&&◌, ◌||◌, Option, none,
  some, List, [], ◌∷◌, ◌++◌, map, arith, Bool-cases, filter, any, all, Text, text_eq, text_eq_iff,
  lower,
}
use secu_scan.SavedViews.Ready.{is_ready}
use secu_scan.SavedViews.{
  SavedView, Statement, insert_row, update_row, delete_row, write, is_same_row, is_row,
  breaks_unique, execute, has_name, collides,
}

-- Two rows with one id, or with one owner and names that are the same but for the case
abbrev pub clash : SavedView → SavedView → Bool
clash v w =
    text_eq v.id w.id || (text_eq v.owner_id w.owner_id && text_eq (lower v.name) (lower w.name))

abbrev pub is_unique : List SavedView → Bool
is_unique [] = true
is_unique (v ∷ vs) = let rest = is_unique vs in all (λ w. not (clash v w)) vs && rest

clash_comm : (v w : SavedView) → clash v w ≡ clash w v
clash_comm v w = ground (
  arith,
  text_eq_iff v.id w.id,
  text_eq_iff w.id v.id,
  text_eq_iff v.owner_id w.owner_id,
  text_eq_iff w.owner_id v.owner_id,
  text_eq_iff (lower v.name) (lower w.name),
  text_eq_iff (lower w.name) (lower v.name),
)

append-is_unique :
    (v : SavedView) (views : List SavedView)
    → is_unique views ≡ true
    → all (λ w. not (clash v w)) views ≡ true
    → is_unique (views ++ v ∷ []) ≡ true
append-is_unique v [] u h = refl
append-is_unique v (w ∷ views) u h = ground (
  arith,
  u,
  h,
  clash_comm v w,
  all-append (λ x. not (clash w x)) views (v ∷ []),
  append-is_unique v views (ground (arith, u)) (ground (arith, h)),
)

-- No row has the id, and none of the owner's has the name.
insert-apart :
    (v : SavedView) (views : List SavedView)
    → any (λ w. text_eq w.id v.id) views ≡ false
    → any (has_name v.owner_id v.name) views ≡ false
    → all (λ w. not (clash v w)) views ≡ true
unfolding has_name
insert-apart v [] fresh free = refl
insert-apart v (w ∷ views) fresh free = ground (
  arith,
  fresh,
  free,
  text_eq_iff v.id w.id,
  text_eq_iff w.id v.id,
  text_eq_iff v.owner_id w.owner_id,
  text_eq_iff w.owner_id v.owner_id,
  text_eq_iff (lower v.name) (lower w.name),
  text_eq_iff (lower w.name) (lower v.name),
  insert-apart v views (ground (arith, fresh)) (ground (arith, free)),
)

-- The constraints of the table keep the ids apart, and the check the names.
insert-is_unique :
    (v : SavedView) (views : List SavedView)
    → is_unique views ≡ true
    → any (has_name v.owner_id v.name) views ≡ false
    → is_unique (execute (insert_row v) views).1 ≡ true
unfolding execute
insert-is_unique v views u free = elim (Bool-cases (any (is_same_row v) views)) [
  | inl taken ↦ rw taken u
  | inr other ↦
      rw other (append-is_unique v views u (insert-apart v views (ids_apart views other) free))
]
  where
    ids_apart :
        (ws : List SavedView)
        → any (is_same_row v) ws ≡ false
        → any (λ w. text_eq w.id v.id) ws ≡ false
    ids_apart [] h = refl
    ids_apart (w ∷ ws) h = ground (arith, h, ids_apart ws (ground (arith, h)))

-- A row that is written does not clash with one that it did not clash with, where neither collides.
write-apart :
    (view_id owner n : Text) (f : Option Text) (v w : SavedView)
    → clash v w ≡ false
    → collides view_id owner n v ≡ false
    → collides view_id owner n w ≡ false
    → clash (write view_id owner (some n) f v) (write view_id owner (some n) f w) ≡ false
unfolding write collides has_name
write-apart view_id owner n f v w c p q = ground (
  arith,
  c,
  p,
  q,
  text_eq_iff v.id w.id,
  text_eq_iff v.id view_id,
  text_eq_iff w.id view_id,
  text_eq_iff v.owner_id w.owner_id,
  text_eq_iff v.owner_id owner,
  text_eq_iff w.owner_id owner,
  text_eq_iff (lower v.name) (lower n),
  text_eq_iff (lower w.name) (lower n),
  text_eq_iff (lower n) (lower w.name),
  text_eq_iff (lower v.name) (lower w.name),
  text_eq_iff owner w.owner_id,
  text_eq_iff owner owner,
)

write-apart_all :
    (view_id owner n : Text) (f : Option Text) (v : SavedView) (views : List SavedView)
    → all (λ w. not (clash v w)) views ≡ true
    → collides view_id owner n v ≡ false
    → any (collides view_id owner n) views ≡ false
    → all
        (λ w. not (clash (write view_id owner (some n) f v) w))
        (map (write view_id owner (some n) f) views)
      ≡ true
write-apart_all view_id owner n f v [] c p q = refl
write-apart_all view_id owner n f v (w ∷ views) c p q = ground (
  arith,
  write-apart view_id owner n f v w (ground (arith, c)) p (ground (arith, q)),
  write-apart_all view_id owner n f v views (ground (arith, c)) p (ground (arith, q)),
)

write-is_unique :
    (view_id owner n : Text) (f : Option Text) (views : List SavedView)
    → is_unique views ≡ true
    → any (collides view_id owner n) views ≡ false
    → is_unique (map (write view_id owner (some n) f) views) ≡ true
write-is_unique view_id owner n f [] u q = refl
write-is_unique view_id owner n f (v ∷ views) u q = ground (
  arith,
  write-apart_all view_id owner n f v views (ground (arith, u)) (ground (arith, q))
      (ground (arith, q)),
  write-is_unique view_id owner n f views (ground (arith, u)) (ground (arith, q)),
)

-- A change of the filter alone leaves ids, owners and names.
refilter-apart :
    (view_id owner : Text) (f : Option Text) (v : SavedView) (views : List SavedView)
    → all (λ w. not (clash v w)) views ≡ true
    → all
        (λ w. not (clash (write view_id owner none f v) w))
        (map (write view_id owner none f) views)
      ≡ true
unfolding write
refilter-apart view_id owner f v [] h = refl
refilter-apart view_id owner f v (w ∷ views) h =
    ground (arith, h, refilter-apart view_id owner f v views (ground (arith, h)))

refilter-is_unique :
    (view_id owner : Text) (f : Option Text) (views : List SavedView)
    → is_unique views ≡ true
    → is_unique (map (write view_id owner none f) views) ≡ true
refilter-is_unique view_id owner f [] u = refl
refilter-is_unique view_id owner f (v ∷ views) u = ground (
  arith,
  refilter-apart view_id owner f v views (ground (arith, u)),
  refilter-is_unique view_id owner f views (ground (arith, u)),
)

filter-apart :
    (p : SavedView → Bool) (v : SavedView) (views : List SavedView)
    → all (λ w. not (clash v w)) views ≡ true
    → all (λ w. not (clash v w)) (filter p views) ≡ true
filter-apart p v [] h = refl
filter-apart p v (w ∷ views) h = ground (arith, h, filter-apart p v views (ground (arith, h)))

filter-is_unique :
    (p : SavedView → Bool) (views : List SavedView)
    → is_unique views ≡ true
    → is_unique (filter p views) ≡ true
filter-is_unique p [] u = refl
filter-is_unique p (v ∷ views) u = ground (
  arith,
  filter-apart p v views (ground (arith, u)),
  filter-is_unique p views (ground (arith, u)),
)

-- A statement that is ready for its owner keeps ids and names apart.
pub execute-is_unique :
    (owner : Text) (statement : Statement) (views : List SavedView)
    → is_unique views ≡ true
    → is_ready owner statement views ≡ true
    → is_unique (execute statement views).1 ≡ true
unfolding execute is_ready breaks_unique
execute-is_unique owner (insert_row v) views u r = insert-is_unique v views u (
    subst (λ o. any (has_name o v.name) views ≡ false)
      (sym ((text_eq_iff v.owner_id owner).0 (ground (arith, r)))) (ground (arith, r)))
execute-is_unique owner (update_row view_id o none filter_json) views u r =
    refilter-is_unique view_id o filter_json views u
execute-is_unique owner (update_row view_id o (some n) filter_json) views u r =
    let free : any (collides view_id o n) views ≡ false =
      subst (λ x. any (collides view_id x n) views ≡ false)
        (sym ((text_eq_iff o owner).0 (ground (arith, r)))) (ground (arith, r)) in
    ground (arith, u, write-is_unique view_id o n filter_json views u free)
execute-is_unique owner (delete_row view_id o) views u r =
    filter-is_unique (λ v. not (is_row view_id o v)) views u
