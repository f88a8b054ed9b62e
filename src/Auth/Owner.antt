-- ===== src/Auth/Owner.antt =====
-- Whose data a request reaches.
use secu_scan.Prelude.{
  ◌≡◌, refl, sym, ap, ◌∙◌, ◌↔◌, Option, none, some, [], ◌∷◌, ◌++◌, arith, Text, codes, strip,
}
use secu_scan.Auth.{resolve_owner_id, default_owner_id}

-- The user that a header names, or nobody
abbrev pub named_user : Option Text → Text
named_user none = []
named_user (some user_id) = strip user_id

owner_of : Text → Text
owner_of [] = default_owner_id
owner_of (c ∷ t) = codes "user:" ++ c ∷ t

resolve_owner_id-owner_of : (h : Option Text) → resolve_owner_id h ≡ owner_of (named_user h)
unfolding resolve_owner_id owner_of
resolve_owner_id-owner_of none = refl
resolve_owner_id-owner_of (some user_id) = split (strip user_id) refl
  where
    split :
        (t : Text) → strip user_id ≡ t → resolve_owner_id (some user_id) ≡ owner_of (strip user_id)
    split [] q = rw (q, resolve_owner_id) refl
    split (c ∷ t) q = rw (q, resolve_owner_id) refl

owner_of-injective : (s t : Text) → owner_of s ≡ owner_of t → s ≡ t
unfolding owner_of
owner_of-injective [] [] h = refl
owner_of-injective [] (c ∷ t) h = absurd (ground (arith, h))
owner_of-injective (c ∷ s) [] h = absurd (ground (arith, h))
owner_of-injective (c ∷ s) (d ∷ t) h = ground (arith, h)

-- Two requests have one owner exactly when they name the same user, spaces around it aside, or both name
-- none.
pub owner-isolated :
    (h k : Option Text) → (resolve_owner_id h ≡ resolve_owner_id k) ↔ (named_user h ≡ named_user k)
owner-isolated h k = (
  λ e.
      owner_of-injective (named_user h) (named_user k)
        (sym (resolve_owner_id-owner_of h) ∙ e ∙ resolve_owner_id-owner_of k),
  λ e. resolve_owner_id-owner_of h ∙ ap owner_of e ∙ sym (resolve_owner_id-owner_of k),
)
