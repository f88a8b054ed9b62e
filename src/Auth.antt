-- ===== src/Auth.antt =====
-- backend/secuscan/auth.py: the API key, the session cookie and the owner of a request.
pub mod Token
pub mod Session
pub mod Owner
mod Tests
use secu_scan.Prelude.{
  ℕ, ◌+◌, ◌-◌, ◌*◌, ◌/◌, ◌%◌, Bool, false, not, ◌&&◌, Option, none, some, [], ◌∷◌, ◌++◌, ltb, ◌==◌,
  if◌then◌else◌, length, all, take, drop, Text, codes, text_eq, strip, lower, starts_with,
  or_default,
}
use secu_scan.Ratelimit.Identity.{split_on, truthy}

-- The standard library under the signing key of the process: `base64`, where decoding may raise, the
-- hexadecimal HMAC of a payload, `json.dumps` of the payload of a secret and a moment, and the moment of
-- `json.loads`, `none` where either raises.
pub record Crypto : Type 0 where
  pub b64encode : Text → Text
  pub b64decode : Text → Option Text
  pub hexdigest : Text → Text
  pub dumps : Text → ℕ → Text
  pub loads : Text → Option ℕ

-- `SESSION_TTL_SECONDS`
abbrev pub session_ttl_seconds : ℕ
session_ttl_seconds = 3600

-- `s.rstrip("=")`
unfoldable pub rstrip_padding : Text → Text
rstrip_padding [] = []
rstrip_padding (c ∷ t) =
    let rest = rstrip_padding t in
    elim rest [ [] ↦ if c == b'=' then [] else c ∷ [] | d ∷ r ↦ c ∷ d ∷ r ]

-- `_make_signed_token`, of `secrets.token_urlsafe(16)`; `int(time.time())` drops the part of a second.
unfoldable pub make_signed_token : Crypto → ℕ → Text → Text
make_signed_token k now secret =
    let payload = k.dumps secret (now / 1_000_000 + session_ttl_seconds) in
    rstrip_padding (k.b64encode payload) ++ b'.' ∷ k.hexdigest payload

-- The padding that was stripped
unfoldable pub with_padding : Text → Text
with_padding t =
    let padding = 4 - length t % 4 in if padding == 4 then t else t ++ take padding (codes "====")

-- `_verify_signed_token` on the two parts
unfoldable pub verify_parts : Crypto → ℕ → Text → Text → Bool
unfolding with_padding
verify_parts k now payload_b64 sig = elim (k.b64decode (with_padding payload_b64)) [
  | none ↦ false
  | some payload ↦
      if text_eq (k.hexdigest payload) sig
      then elim (k.loads payload) [ none ↦ false | some e ↦ not (ltb (e * 1_000_000) now) ]
      else false
]

unfoldable pub verify_signed_token : Crypto → ℕ → Text → Bool
verify_signed_token k now token = elim (split_on b'.' token) [
  | [] ↦ false
  | payload_b64 ∷ r ↦ elim r [
    | [] ↦ false
    | sig ∷ r' ↦ elim r' [ [] ↦ verify_parts k now payload_b64 sig | x ∷ r'' ↦ false ]
  ]
]

-- A request: its path, its session cookie, the credentials of its bearer header, and its key header.
pub record Request : Type 0 where
  pub path : Text
  pub cookie : Option Text
  pub bearer : Option Text
  pub x_api_key : Option Text

-- `is_authenticated_by_session`, and the answer of `check_session`
unfoldable pub is_authenticated_by_session : Crypto → ℕ → Request → Bool
is_authenticated_by_session k now r = elim (truthy r.cookie) [
  | none ↦ false
  | some token ↦ verify_signed_token k now token
]

-- What `require_api_key` returns, or the status of the exception that it raises; `compare_digest` raises
-- `TypeError` on a text that is not ASCII.
pub data Authentication : Type 0 where
  admin_bypass session_authenticated : Authentication
  key_authenticated : Text → Authentication
  refused : ℕ → Authentication
  type_error : Authentication

abbrev pub is_ascii : Text → Bool
is_ascii t = all (λ c. ltb c 128) t

unfoldable pub compare_key : Text → Text → Authentication
compare_key candidate api_key =
    if is_ascii candidate && is_ascii api_key
    then if text_eq candidate api_key then key_authenticated candidate else refused 401
    else type_error

abbrev pub candidate : Request → Option Text
candidate r = elim r.bearer [ some credentials ↦ some credentials | none ↦ r.x_api_key ]

abbrev pub admin_prefix : Text
admin_prefix = codes "/api/v1/admin"

unfoldable pub require_api_key : Crypto → ℕ → Option Text → Request → Authentication
require_api_key k now api_key r =
    if starts_with r.path admin_prefix
    then admin_bypass
    else if is_authenticated_by_session k now r
    then session_authenticated
    else elim api_key [
      | none ↦ refused 503
      | some key ↦ elim (candidate r) [ none ↦ refused 401 | some c ↦ compare_key c key ]
    ]

-- `create_session`: the cookie that is set, or the status of the exception. `bearer` is the value of the
-- Authorization header here, with the scheme in front.
pub data Login : Type 0 where
  cookie_set : Text → Login
  login_refused : ℕ → Login
  login_type_error : Login

unfoldable pub login_candidate : Request → Option Text
login_candidate r = elim (truthy r.x_api_key) [
  | some key ↦ some key
  | none ↦
      let header = or_default [] r.bearer in
      if starts_with (lower header) (codes "bearer ") then truthy (some (drop 7 header)) else none
]

unfoldable pub create_session : Crypto → ℕ → Text → Option Text → Request → Login
create_session k now secret api_key r = elim api_key [
  | none ↦ login_refused 503
  | some key ↦ elim (login_candidate r) [
    | none ↦ login_refused 401
    | some c ↦ elim (compare_key c key) [
      | key_authenticated c' ↦ cookie_set (make_signed_token k now secret)
      | type_error ↦ login_type_error
      | refused status ↦ login_refused status
      | admin_bypass ↦ login_refused 401
      | session_authenticated ↦ login_refused 401
    ]
  ]
]

-- `init_api_key`: the text of the key file, if it is there, and `secrets.token_hex(32)`; the key and the
-- file afterwards.
unfoldable pub init_api_key : Text → Option Text → Text × Option Text
init_api_key token_hex none = (token_hex, some token_hex)
init_api_key token_hex (some text) = (strip text, some text)

-- `DEFAULT_OWNER_ID`
abbrev pub default_owner_id : Text
default_owner_id = codes "default"

-- `resolve_owner_id`, of the header `x-user-id` of a request
unfoldable pub resolve_owner_id : Option Text → Text
resolve_owner_id none = default_owner_id
resolve_owner_id (some user_id) = elim (strip user_id) [
  | [] ↦ default_owner_id
  | c ∷ t ↦ codes "user:" ++ c ∷ t
]
