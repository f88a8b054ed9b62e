-- ===== src/Ratelimit/Identity.antt =====
-- `resolve_client_identity`: whom a request is counted for.
pub mod Trust
use secu_scan.Prelude.{
  ℕ, zero, suc, ◌+◌, ◌-◌, ◌*◌, ◌/◌, ◌%◌, ◌^◌, ◌≤◌, ◌<◌, min, max, ◌≡◌, refl, sym, ap, ◌∙◌, subst,
  ◌≢◌, ◌↔◌, ◌⊎◌, inl, inr, Bool, true, false, not, ◌&&◌, ◌||◌, Option, none, some, List, [], ◌∷◌,
  ◌++◌, map, arith, ltb, leb, ◌==◌, if◌then◌else◌, ltb→lt, lt→ltb, leb→le, ==_iff, Bool-cases,
  Option-cases, length, length-append, filter, any, all, take, drop, All, length-filter-le,
  filter-append, filter_idem, length-drop, Text, codes, text_eq, text_eq_refl, text_eq_iff,
  is_space, lstrip, strip, lower, starts_with, ends_with, has_char, text_in, ends_with-append,
  split_last_unique, Dict, lookup, is_some, or_default, insert, erase, lookup-insert, lookup-erase,
  keys,
}

-- `request.state.user`: absent, a dict or an object with or without an `id`, a text, or something
-- else. An id is the text that it is shown by; a false `id` attribute of an object is the empty text.
pub data User : Type 0 where
  absent other : User
  dict object : Option Text → User
  text : Text → User

-- Header names are in lower case. `user_id` is `request.state.user_id`, and `host` the address of the
-- connection, if there is one.
pub record Request : Type 0 where
  pub headers : Dict Text
  pub user_id : Option Text
  pub user : User
  pub host : Option Text

-- `if value := x` on a text that may be missing
unfoldable pub truthy : Option Text → Option Text
truthy none = none
truthy (some []) = none
truthy (some (c ∷ t)) = some (c ∷ t)

-- `headers.get(k)`, as a condition
pub header : Text → Request → Option Text
unfolding truthy
header k r = truthy (lookup k r.headers)

-- `s.split(c)`
unfoldable pub cons_head : ℕ → List Text → List Text
cons_head x [] = (x ∷ []) ∷ []
cons_head x (t ∷ ts) = (x ∷ t) ∷ ts

unfoldable pub split_on : ℕ → Text → List Text
unfolding cons_head
split_on c [] = [] ∷ []
split_on c (x ∷ s) = let rest = split_on c s in if x == c then [] ∷ rest else cons_head x rest

-- The part behind the first space, or the whole text where there is none.
unfoldable pub after_space : Text → Option Text
after_space [] = none
after_space (x ∷ s) = let rest = after_space s in if x == 32 then some s else rest

unfoldable pub first_part : List Text → Option Text
first_part [] = none
first_part (t ∷ ts) =
    let rest = first_part ts in elim (strip t) [ [] ↦ rest | c ∷ u ↦ some (c ∷ u) ]

abbrev pub tagged : Text → Text → Text
tagged tag t = tag ++ t

-- `x-api-key`, then `x-key`, then the token of `authorization`
pub api_key : Request → Option Text
api_key r = elim (header (codes "x-api-key") r) [
  | some v ↦ some v
  | none ↦ elim (header (codes "x-key") r) [
    | some v ↦ some v
    | none ↦ elim (header (codes "authorization") r) [
      | some v ↦ some (or_default v (after_space v))
      | none ↦ none
    ]
  ]
]

-- `request.state.user`
state_user : User → Option Text
unfolding truthy
state_user absent = none
state_user other = none
state_user (dict id) = id
state_user (object id) = truthy id
state_user (text t) = truthy (some t)

-- `x-user-id`, then `request.state.user_id`, then `request.state.user`
pub authenticated_user : Request → Option Text
authenticated_user r = elim (header (codes "x-user-id") r) [
  | some v ↦ some v
  | none ↦ elim (truthy r.user_id) [ some v ↦ some v | none ↦ state_user r.user ]
]

-- The first forwarded address counts only where the connection comes from a trusted proxy.
pub client_ip : List Text → Request → Text
client_ip trusted_proxies r =
    let host = or_default (codes "127.0.0.1") r.host in
    elim (lookup (codes "x-forwarded-for") r.headers) [
      | none ↦ host
      | some xff ↦
          if text_in host trusted_proxies
          then or_default host (first_part (split_on b',' xff))
          else host
    ]

pub resolve_client_identity : List Text → Request → Text
resolve_client_identity trusted_proxies r = elim (api_key r) [
  | some v ↦ tagged (codes "apikey:") v
  | none ↦ elim (authenticated_user r) [
    | some v ↦ tagged (codes "user:") v
    | none ↦ tagged (codes "ip:") (client_ip trusted_proxies r)
  ]
]
