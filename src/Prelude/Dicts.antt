-- ===== src/Prelude/Dicts.antt =====
-- A Python `dict` with text keys, in insertion order.
use Prim.Native.Nat.{◌+◌, ◌≤◌, ◌<◌}
use mathlib.Core.Path.{◌≡◌, refl}
use mathlib.Core.Bool.{Bool, true, false}
use mathlib.Core.List.{List, [], ◌∷◌}
use mathlib.Core.Option.{Option, none, some}
use native.Mathlib.Omega.{arith}
use secu_scan.Prelude.Tests.{if◌then◌else◌}
use secu_scan.Prelude.Lists.{length}
use secu_scan.Prelude.Texts.{text_in, Text, text_eq, text_eq_iff}

abbrev pub Dict {ℓ} : Type ℓ → Type ℓ
Dict V = List (Text × V)

module _ {ℓ} {V : Type ℓ} where
  -- `d.get(k)`
  unfoldable pub lookup : Text → Dict V → Option V
  lookup k [] = none
  lookup k ((j, v) ∷ d) = if text_eq k j then some v else lookup k d

  -- `k in d`
  abbrev pub is_some : Option V → Bool
  is_some none = false
  is_some (some v) = true

  -- `d.get(k, v)`
  abbrev pub or_default : V → Option V → V
  or_default v none = v
  or_default v (some w) = w

  -- `d[k] = v`
  unfoldable pub insert : Text → V → Dict V → Dict V
  insert k v [] = (k, v) ∷ []
  insert k v ((j, w) ∷ d) = if text_eq k j then (j, v) ∷ d else (j, w) ∷ insert k v d

  -- `d.pop(k, None)`
  unfoldable pub erase : Text → Dict V → Dict V
  erase k [] = []
  erase k ((j, w) ∷ d) = let rest = erase k d in if text_eq k j then rest else (j, w) ∷ rest

  pub lookup-insert :
      (j k : Text) (v : V) (d : Dict V)
      → lookup j (insert k v d) ≡ (if text_eq j k then some v else lookup j d)
  unfolding lookup insert
  lookup-insert j k v [] = refl
  lookup-insert j k v ((i, w) ∷ d) =
      ground (arith, text_eq_iff j k, text_eq_iff k i, text_eq_iff j i, lookup-insert j k v d)

  pub lookup-erase :
      (j k : Text) (d : Dict V) → lookup j (erase k d) ≡ (if text_eq j k then none else lookup j d)
  unfolding lookup erase
  lookup-erase j k [] = ground arith
  lookup-erase j k ((i, w) ∷ d) =
      ground (arith, text_eq_iff j k, text_eq_iff k i, text_eq_iff j i, lookup-erase j k d)

  -- `list(d.keys())`
  unfoldable pub keys : Dict V → List Text
  keys [] = []
  keys ((j, w) ∷ d) = j ∷ keys d

unfoldable pub insert_key : Text → List Text → List Text
insert_key k [] = k ∷ []
insert_key k (j ∷ ks) = if text_eq k j then j ∷ ks else j ∷ insert_key k ks

unfoldable pub erase_key : Text → List Text → List Text
erase_key k [] = []
erase_key k (j ∷ ks) = let rest = erase_key k ks in if text_eq k j then rest else j ∷ rest

module _ {ℓ} {V : Type ℓ} where
  -- The keys after an update depend on the keys before it alone.
  pub keys-insert : (k : Text) (v : V) (d : Dict V) → keys (insert k v d) ≡ insert_key k (keys d)
  unfolding keys insert insert_key
  keys-insert k v [] = refl
  keys-insert k v ((j, w) ∷ d) = ground (arith, keys-insert k v d)

  pub keys-erase : (k : Text) (d : Dict V) → keys (erase k d) ≡ erase_key k (keys d)
  unfolding keys erase erase_key
  keys-erase k [] = refl
  keys-erase k ((j, w) ∷ d) = ground (arith, keys-erase k d)

  pub text_in-keys : (k : Text) (d : Dict V) → text_in k (keys d) ≡ is_some (lookup k d)
  unfolding keys lookup text_in
  text_in-keys k [] = refl
  text_in-keys k ((j, w) ∷ d) = ground (arith, text_in-keys k d)

  pub length-keys : (d : Dict V) → length (keys d) ≡ length d
  unfolding keys
  length-keys [] = refl
  length-keys ((j, w) ∷ d) = omega (arith, length-keys d)

  pub length-insert :
      (k : Text) (v : V) (d : Dict V)
      → length (insert k v d) ≡ (if is_some (lookup k d) then length d else length d + 1)
  unfolding insert lookup
  length-insert k v [] = omega arith
  length-insert k v ((j, w) ∷ d) = ground (arith, length-insert k v d)

  pub length-erase-le : (k : Text) (d : Dict V) → length (erase k d) ≤ length d
  unfolding erase
  length-erase-le k [] = omega arith
  length-erase-le k ((j, w) ∷ d) = ground (arith, length-erase-le k d)

  pub length-erase-lt :
      (k : Text) (d : Dict V) → text_in k (keys d) ≡ true → length (erase k d) < length d
  unfolding erase keys text_in
  length-erase-lt k [] h = cc
  length-erase-lt k ((j, w) ∷ d) h = ground (arith, length-erase-lt k d, length-erase-le k d)
