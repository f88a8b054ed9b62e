-- ===== src/Cache/Order.antt =====
-- The order in which entries are evicted.
use secu_scan.Prelude.{
  ℕ, zero, suc, ◌+◌, ◌≤◌, ◌≡◌, refl, inl, inr, List, [], ◌∷◌, arith, leb, leb→le, Bool-cases,
  length, take, drop, All, Text,
}
use secu_scan.Cache.{insert_sorted, sorted}

-- Smallest first.
abbrev pub Rising : (Text → ℕ) → List Text → Type 0
Rising f [] = Unit {0}
Rising f (x ∷ xs) = All (λ y. f x ≤ f y) xs × Rising f xs

module _ (P : Text → Type 0) where
  All-insert_sorted :
      (f : Text → ℕ) (x : Text) (xs : List Text) → P x → All P xs → All P (insert_sorted f x xs)
  unfolding insert_sorted
  All-insert_sorted f x [] p h = (p, tt)
  All-insert_sorted f x (y ∷ ys) p h = ground (arith, All-insert_sorted f x ys p h.1)

  pub All-sorted : (f : Text → ℕ) (xs : List Text) → All P xs → All P (sorted f xs)
  unfolding sorted
  All-sorted f [] h = tt
  All-sorted f (x ∷ xs) h = All-insert_sorted f x (sorted f xs) h.0 (All-sorted f xs h.1)

All-mono :
    (f : Text → ℕ) (m n : ℕ) (xs : List Text)
    → m ≤ n
    → All (λ y. n ≤ f y) xs
    → All (λ y. m ≤ f y) xs
All-mono f m n [] le h = tt
All-mono f m n (x ∷ xs) le h = (omega arith, All-mono f m n xs le h.1)

insert_sorted-Rising :
    (f : Text → ℕ) (x : Text) (xs : List Text) → Rising f xs → Rising f (insert_sorted f x xs)
unfolding insert_sorted
insert_sorted-Rising f x [] h = (tt, tt)
insert_sorted-Rising f x (y ∷ ys) h = elim (Bool-cases (leb (f x) (f y))) [
  | inl le ↦ rw le ((leb→le _ _ le, All-mono f (f x) (f y) ys (leb→le _ _ le) h.0), h)
  | inr gt ↦ rw gt (
    All-insert_sorted (λ z. f y ≤ f z) f x ys (ground arith) h.0,
    insert_sorted-Rising f x ys h.1,
  )
]

pub sorted-Rising : (f : Text → ℕ) (xs : List Text) → Rising f (sorted f xs)
unfolding sorted
sorted-Rising f [] = tt
sorted-Rising f (x ∷ xs) = insert_sorted-Rising f x (sorted f xs) (sorted-Rising f xs)

All-drop : (P : Text → Type 0) (n : ℕ) (xs : List Text) → All P xs → All P (drop n xs)
All-drop P zero xs h = h
All-drop P (suc n) [] h = h
All-drop P (suc n) (x ∷ xs) h = All-drop P n xs h.1

-- In a rising list each of the first `n` is at most each of the rest.
pub take-le-drop :
    (f : Text → ℕ) (n : ℕ) (xs : List Text)
    → Rising f xs
    → All (λ x. All (λ y. f x ≤ f y) (drop n xs)) (take n xs)
take-le-drop f zero xs h = tt
take-le-drop f (suc n) [] h = tt
take-le-drop f (suc n) (x ∷ xs) h = (All-drop (λ y. f x ≤ f y) n xs h.0, take-le-drop f n xs h.1)

length-insert_sorted :
    (f : Text → ℕ) (x : Text) (xs : List Text) → length (insert_sorted f x xs) ≡ length xs + 1
unfolding insert_sorted
length-insert_sorted f x [] = omega arith
length-insert_sorted f x (y ∷ ys) = ground (arith, length-insert_sorted f x ys)

pub length-sorted : (f : Text → ℕ) (xs : List Text) → length (sorted f xs) ≡ length xs
unfolding sorted
length-sorted f [] = refl
length-sorted f (x ∷ xs) = omega (arith, length-insert_sorted f x (sorted f xs), length-sorted f xs)
