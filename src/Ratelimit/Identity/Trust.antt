-- ===== src/Ratelimit/Identity/Trust.antt =====
-- Which parts of a request its identity rests on.
use secu_scan.Prelude.{
  ◌≡◌, refl, ap, ◌∙◌, false, List, arith, Text, codes, text_eq, text_in, or_default, insert,
  lookup-insert,
}
use secu_scan.Ratelimit.Identity.{
  Request, header, truthy, api_key, authenticated_user, client_ip, resolve_client_identity,
}

-- The request with another `X-Forwarded-For`, or with none before.
abbrev pub forwarded : Text → Request → Request
forwarded xff r = record r { headers = insert (codes "x-forwarded-for") xff r.headers }

header-forwarded :
    (k xff : Text) (r : Request)
    → text_eq k (codes "x-forwarded-for") ≡ false
    → header k (forwarded xff r) ≡ header k r
unfolding header
header-forwarded k xff r h =
    ap truthy (lookup-insert k (codes "x-forwarded-for") xff r.headers ∙ rw h)

api_key-forwarded : (xff : Text) (r : Request) → api_key (forwarded xff r) ≡ api_key r
unfolding api_key text_eq
api_key-forwarded xff r = ground (
  arith,
  header-forwarded (codes "x-api-key") xff r refl,
  header-forwarded (codes "x-key") xff r refl,
  header-forwarded (codes "authorization") xff r refl,
)

user-forwarded :
    (xff : Text) (r : Request) → authenticated_user (forwarded xff r) ≡ authenticated_user r
unfolding authenticated_user text_eq
user-forwarded xff r = ground (arith, header-forwarded (codes "x-user-id") xff r refl)

client_ip-direct :
    (trusted_proxies : List Text) (r : Request)
    → text_in (or_default (codes "127.0.0.1") r.host) trusted_proxies ≡ false
    → client_ip trusted_proxies r ≡ or_default (codes "127.0.0.1") r.host
unfolding client_ip
client_ip-direct trusted_proxies r direct = ground arith

-- A client that is not behind a trusted proxy cannot choose its identity by `X-Forwarded-For`: with
-- any such header its requests count for the same identity as without it.
pub identity_unforgeable :
    (trusted_proxies : List Text) (xff : Text) (r : Request)
    → text_in (or_default (codes "127.0.0.1") r.host) trusted_proxies ≡ false
    → resolve_client_identity trusted_proxies (forwarded xff r)
      ≡ resolve_client_identity trusted_proxies r
unfolding resolve_client_identity
identity_unforgeable trusted_proxies xff r direct = ground (
  arith,
  api_key-forwarded xff r,
  user-forwarded xff r,
  client_ip-direct trusted_proxies (forwarded xff r) direct,
  client_ip-direct trusted_proxies r direct,
)
