-- ===== src/Findings/Severity.antt =====
-- The severities, and how findings are put in order.
use mathlib.Core.List.{Perm}
use mathlib.Core.List.Perm
use secu_scan.Prelude.{
  ℕ, ◌≡◌, refl, inl, inr, Bool, true, false, ◌&&◌, ◌||◌, Option, none, some, List, [], ◌∷◌, arith,
  ltb, ◌==◌, if◌then◌else◌, Bool-cases, Text, codes, text_eq, lower,
}

pub data Severity : Type 0 where
  critical high medium low info : Severity

-- `_normalize_severity` of `finding.get("severity")`
unfoldable pub normalize_severity : Option Text → Severity
normalize_severity none = info
normalize_severity (some value) =
    let s = lower value in
    if text_eq s (codes "critical")
    then critical
    else if text_eq s (codes "high")
    then high
    else if text_eq s (codes "medium") || text_eq s (codes "moderate")
    then medium
    else if text_eq s (codes "low")
    then low
    else info

-- `_severity_rank`
abbrev pub severity_rank : Severity → ℕ
severity_rank critical = 5
severity_rank high = 4
severity_rank medium = 3
severity_rank low = 2
severity_rank info = 1

-- The lexicographic order of texts
unfoldable pub text_leb : Text → Text → Bool
text_leb [] t = true
text_leb (x ∷ s) [] = false
text_leb (x ∷ s) (y ∷ t) = ltb x y || (x == y && text_leb s t)

pub text_leb_total : (s t : Text) → text_leb s t ≡ false → text_leb t s ≡ true
unfolding text_leb
text_leb_total [] t h = cc
text_leb_total (x ∷ s) [] h = refl
text_leb_total (x ∷ s) (y ∷ t) h = ground (arith, h, text_leb_total s t)

-- A stable sort by a test `leq`
module _ {A : Type 0} (leq : A → A → Bool) where
  unfoldable pub insert_ordered : A → List A → List A
  insert_ordered x [] = x ∷ []
  insert_ordered x (y ∷ ys) = if leq x y then x ∷ y ∷ ys else y ∷ insert_ordered x ys

  unfoldable pub sort : List A → List A
  unfolding insert_ordered
  sort [] = []
  sort (x ∷ xs) = insert_ordered x (sort xs)

  -- No element stands before one that goes before it.
  abbrev pub IsOrdered : List A → Type 0
  IsOrdered [] = Unit
  IsOrdered (x ∷ []) = Unit
  IsOrdered (x ∷ y ∷ ys) = (leq x y ≡ true) × IsOrdered (y ∷ ys)

  module _ (total : (x y : A) → leq x y ≡ false → leq y x ≡ true) where
    insert_after :
        (x y : A) (ys : List A)
        → leq y x ≡ true
        → IsOrdered (y ∷ ys)
        → IsOrdered (y ∷ insert_ordered x ys)
    unfolding insert_ordered
    insert_after x y [] h o = (h, tt)
    insert_after x y (z ∷ zs) h o = elim (Bool-cases (leq x z)) [
      | inl before ↦ rw before (h, (before, o.1))
      | inr after ↦ rw after (o.0, insert_after x z zs (total x z after) o.1)
    ]

    insert_ordered-IsOrdered :
        (x : A) (xs : List A) → IsOrdered xs → IsOrdered (insert_ordered x xs)
    unfolding insert_ordered
    insert_ordered-IsOrdered x [] o = tt
    insert_ordered-IsOrdered x (y ∷ ys) o = elim (Bool-cases (leq x y)) [
      | inl before ↦ rw before (before, o)
      | inr after ↦ rw after (insert_after x y ys (total x y after) o)
    ]

    pub sort-IsOrdered : (xs : List A) → IsOrdered (sort xs)
    unfolding sort
    sort-IsOrdered [] = tt
    sort-IsOrdered (x ∷ xs) = insert_ordered-IsOrdered x (sort xs) (sort-IsOrdered xs)

  insert_ordered-Perm : (x : A) (xs : List A) → Perm (insert_ordered x xs) (x ∷ xs)
  unfolding insert_ordered
  insert_ordered-Perm x [] = Perm.refl (x ∷ [])
  insert_ordered-Perm x (y ∷ ys) = elim (Bool-cases (leq x y)) [
    | inl before ↦ rw before (Perm.refl (x ∷ y ∷ ys))
    | inr after ↦ rw after (Perm.trans (Perm.cons y (insert_ordered-Perm x ys)) (Perm.swap x y ys))
  ]

  pub sort-Perm : (xs : List A) → Perm (sort xs) xs
  unfolding sort
  sort-Perm [] = Perm.refl []
  sort-Perm (x ∷ xs) = Perm.trans (insert_ordered-Perm x (sort xs)) (Perm.cons x (sort-Perm xs))
