-- ===== src/Auth/Tests.antt =====
-- The theorems of auth.py at concrete inputs.
use secu_scan.Prelude.{
  ℕ, ◌+◌, ◌-◌, ◌*◌, ◌%◌, ◌≤◌, ◌<◌, ◌≡◌, refl, sym, ap, true, false, Option, none, some, [], ◌∷◌,
  arith, ltb, if◌then◌else◌, length, Text, codes, text_eq, starts_with, has_char,
}
use secu_scan.Auth.{
  compare_key, Crypto, Request, create_session, require_api_key, make_signed_token,
  session_ttl_seconds, admin_prefix, login_candidate, refused, session_authenticated, cookie_set,
}
use mathlib.Core.List.{append-nil}
use secu_scan.Auth.Token.{expires_at, IsLawful}
use secu_scan.Auth.Session.{is_key, session_lifetime}
use secu_scan.Ratelimit.Identity.{truthy}

-- An encoding in groups of four, and a digest in one letter
abbrev groups : Text → Text
groups [] = []
groups (c ∷ t) = (c + 1000) ∷ b'A' ∷ b'A' ∷ b'A' ∷ groups t

abbrev ungroup : Text → Text
ungroup [] = []
ungroup (c ∷ []) = []
ungroup (c ∷ d ∷ []) = []
ungroup (c ∷ d ∷ e ∷ []) = []
ungroup (c ∷ d ∷ e ∷ f ∷ t) = (c - 1000) ∷ ungroup t

abbrev read_moment : Text → Option ℕ
read_moment [] = none
read_moment (e ∷ t) = some e

abbrev crypto : Crypto
crypto = record {
  b64encode = groups;
  b64decode = λ t. some (ungroup t);
  hexdigest = λ p. codes "a";
  dumps = λ secret e. e ∷ secret;
  loads = read_moment;
}

ungroup-groups : (t : Text) → ungroup (groups t) ≡ t
ungroup-groups [] = refl
ungroup-groups (c ∷ t) = ground (arith, ungroup-groups t)

groups-whole : (t : Text) → length (groups t) % 4 ≡ 0
groups-whole [] = refl
groups-whole (c ∷ t) = ground (arith, groups-whole t)

groups-lacks : (c : ℕ) (t : Text) → c < 65 → has_char c (groups t) ≡ false
unfolding has_char
groups-lacks c [] h = refl
groups-lacks c (d ∷ t) h = ground (arith, groups-lacks c t)

crypto-IsLawful : IsLawful crypto
unfolding has_char
crypto-IsLawful = record {
  body = groups;
  padding = λ p. 0;
  encoded = λ p. sym (append-nil (groups p));
  short = λ p. omega arith;
  whole = λ p. omega (arith, groups-whole p);
  no_sign = λ p. groups-lacks b'=' p (omega arith);
  no_stop = λ p. groups-lacks b'.' p (omega arith);
  decoded = λ p. ap {A = Text} {B = Option Text} (λ t. some t) (ungroup-groups p);
  digest_no_stop = λ p. refl;
  loaded = λ secret e. refl;
}

abbrev login : Request
login = record {
  path = codes "/api/v1/auth/session";
  cookie = none;
  bearer = none;
  x_api_key = some (codes "k");
}

abbrev token : Text
token = make_signed_token crypto 100 (codes "s")

abbrev visit : Request
visit = record {
  path = codes "/api/v1/tasks";
  cookie = some token;
  bearer = none;
  x_api_key = none;
}

logs_in : create_session crypto 100 (codes "s") (some (codes "k")) login ≡ cookie_set token
unfolding create_session login_candidate truthy compare_key text_eq
logs_in = refl

no_admin : starts_with visit.path admin_prefix ≡ false
unfolding starts_with
no_admin = refl

session_lifetime_example :
    (is_key (login_candidate login) (some (codes "k")) ≡ true)
    × (require_api_key crypto 3_600_000_001 (some (codes "k")) visit
        ≡ (if ltb (expires_at 100) 3_600_000_001 then refused 401 else session_authenticated))
    × (100 + 3599 * 1_000_000 < expires_at 100)
    × (expires_at 100 ≤ 100 + session_ttl_seconds * 1_000_000)
session_lifetime_example =
    session_lifetime crypto 100 3_600_000_001 (codes "s") token (codes "k") login visit
      crypto-IsLawful logs_in refl no_admin refl
