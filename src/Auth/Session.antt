-- ===== src/Auth/Session.antt =====
-- Which requests are let through.
use secu_scan.Prelude.{
  ℕ, ◌+◌, ◌*◌, ◌≤◌, ◌<◌, ◌≡◌, refl, ap, ◌∙◌, Bool, true, false, not, ◌&&◌, ◌||◌, Option, none, some,
  arith, ltb, if◌then◌else◌, Text, text_eq, starts_with,
}
use secu_scan.Ratelimit.Identity.{truthy}
use secu_scan.Auth.{
  Crypto, session_ttl_seconds, make_signed_token, Request, is_authenticated_by_session,
  Authentication, admin_bypass, session_authenticated, key_authenticated, refused, type_error,
  is_ascii, compare_key, candidate, admin_prefix, require_api_key, Login, cookie_set, login_refused,
  login_type_error, login_candidate, create_session,
}
use secu_scan.Auth.Token.{IsLawful, expires_at, token-lifetime, make_signed_token-truthy}

abbrev pub is_granted : Authentication → Bool
is_granted admin_bypass = true
is_granted session_authenticated = true
is_granted (key_authenticated key) = true
is_granted (refused status) = false
is_granted type_error = false

-- The texts are there, equal and ASCII.
abbrev pub is_key : Option Text → Option Text → Bool
is_key none api_key = false
is_key (some c) none = false
is_key (some c) (some key) = is_ascii c && is_ascii key && text_eq c key

-- `require_api_key` lets a request through exactly when it goes to an admin path, carries a valid session
-- cookie, or presents the API key, and the key is ASCII text; a bearer credential hides the other header.
pub granted_exact :
    (k : Crypto) (now : ℕ) (api_key : Option Text) (r : Request)
    → is_granted (require_api_key k now api_key r) ≡ (
        starts_with r.path admin_prefix
        || is_authenticated_by_session k now r
        || is_key (candidate r) api_key)
unfolding require_api_key compare_key
granted_exact k now none r = split (candidate r) refl
  where
    split :
        (c : Option Text)
        → candidate r ≡ c
        → is_granted (require_api_key k now none r) ≡ (
            starts_with r.path admin_prefix
            || is_authenticated_by_session k now r
            || is_key (candidate r) none)
    split none q = ground (arith, q)
    split (some c) q = ground (arith, q)
granted_exact k now (some key) r = split (candidate r) refl
  where
    split :
        (c : Option Text)
        → candidate r ≡ c
        → is_granted (require_api_key k now (some key) r) ≡ (
            starts_with r.path admin_prefix
            || is_authenticated_by_session k now r
            || is_key (candidate r) (some key))
    split none q = ground (arith, q)
    split (some c) q = ground (arith, q)

cookie_of : Login → Option Text
cookie_of (cookie_set token) = some token
cookie_of (login_refused status) = none
cookie_of login_type_error = none

-- A session begins with the key.
logged_in :
    (k : Crypto) (now : ℕ) (secret token : Text) (api_key : Option Text) (r : Request)
    → create_session k now secret api_key r ≡ cookie_set token
    → (is_key (login_candidate r) api_key ≡ true) × (token ≡ make_signed_token k now secret)
unfolding create_session cookie_of compare_key
logged_in k now secret token none r h = absurd (ground (arith, h))
logged_in k now secret token (some key) r h = split (login_candidate r) refl
  where
    split :
        (c : Option Text)
        → login_candidate r ≡ c
        → (is_key (login_candidate r) (some key) ≡ true) × (token ≡ make_signed_token k now secret)
    split none q = absurd (ground (arith, h, q))
    split (some c) q = (ground (arith, h, q), ground (arith, h, q))

-- A session begins with the API key and ends within the second before the hour is over: where `create_session`
-- sets a cookie, its request presented the key, and `require_api_key` lets a later request with this cookie and
-- no key, to no admin path, through until an hour after the whole second in which the cookie was made, and
-- refuses it with status 401 from then on. That instant is more than 3599 and at most 3600 seconds away.
pub session_lifetime :
    (k : Crypto) (now later : ℕ) (secret token key : Text) (r r' : Request)
    → IsLawful k
    → create_session k now secret (some key) r ≡ cookie_set token
    → r'.cookie ≡ some token
    → starts_with r'.path admin_prefix ≡ false
    → candidate r' ≡ none
    → (is_key (login_candidate r) (some key) ≡ true)
      × (require_api_key k later (some key) r'
          ≡ (if ltb (expires_at now) later then refused 401 else session_authenticated))
      × (now + 3599 * 1_000_000 < expires_at now)
      × (expires_at now ≤ now + session_ttl_seconds * 1_000_000)
unfolding require_api_key is_authenticated_by_session
session_lifetime k now later secret token key r r' law h cookie no_admin no_key =
    let (presented, made) = logged_in k now secret token (some key) r h in
    let there : truthy r'.cookie ≡ some (make_signed_token k now secret) =
      ap truthy (cookie ∙ ap some made) ∙ make_signed_token-truthy k now secret in
    (presented, live (authenticated there) no_admin no_key, omega arith, omega arith)
  where
    authenticated :
        truthy r'.cookie ≡ some (make_signed_token k now secret)
        → is_authenticated_by_session k later r' ≡ not (ltb (expires_at now) later)
    authenticated there =
        rw (there, is_authenticated_by_session) (token-lifetime k now later secret law)

    live :
        is_authenticated_by_session k later r' ≡ not (ltb (expires_at now) later)
        → starts_with r'.path admin_prefix ≡ false
        → candidate r' ≡ none
        → require_api_key k later (some key) r'
          ≡ (if ltb (expires_at now) later then refused 401 else session_authenticated)
    live a b c = ground (arith, a, b, c)
