-- ===== src/NetworkPolicy/Host.antt =====
-- Addresses, networks, and the host that `check_access` reads in its `dest_ip` argument.
use secu_scan.Prelude.{
  ℕ, ◌+◌, ◌-◌, ◌/◌, ◌^◌, Bool, true, false, ◌&&◌, ◌||◌, Option, none, some, [], ◌∷◌, ◌++◌, leb,
  ◌==◌, if◌then◌else◌, length, all, take, drop, Text, codes, strip, starts_with, ends_with,
  has_char, text_in,
}

pub data Version : Type 0 where
  v4 v6 : Version

abbrev pub bits : Version → ℕ
bits v4 = 32
bits v6 = 128

abbrev pub same_version : Version → Version → Bool
same_version v4 v4 = true
same_version v6 v6 = true
same_version v4 v6 = false
same_version v6 v4 = false

-- An address by its number, a network by the number of its first address and its prefix length.
pub record Address : Type 0 where
  pub version : Version
  pub value : ℕ

pub record Network : Type 0 where
  pub family : Version
  pub base : ℕ
  pub prefix : ℕ

-- `ip in net`: the same version, and the same bits under the mask
unfoldable pub contains : Network → Address → Bool
contains net ip =
    same_version ip.version net.family
    && ip.value / 2 ^ (bits net.family - net.prefix)
      == net.base / 2 ^ (bits net.family - net.prefix)

-- `ipaddress.ip_address`, `str` of an address, `ipaddress.ip_network(…, strict=False)`, and the scheme
-- and host name of `urlparse`, each `none` where it raises.
pub record Environment : Type 0 where
  pub ip_address : Text → Option Address
  pub str_address : Address → Text
  pub ip_network : Text → Option Network
  pub urlparse : Text → Option (Text × Option Text)

-- `socket.gethostbyname` at one moment
abbrev pub Resolver : Type 0
Resolver = Text → Option Text

-- `"://" in s`
unfoldable pub has_scheme_mark : Text → Bool
has_scheme_mark [] = false
has_scheme_mark (c ∷ s) = starts_with (c ∷ s) (codes "://") || has_scheme_mark s

-- `s.rsplit(c, 1)`: what stands before the last `c`, and what stands behind it
unfoldable pub split_last : ℕ → Text → Option (Text × Text)
split_last c [] = none
split_last c (x ∷ s) = elim (split_last c s) [
  | some (a, b) ↦ some (x ∷ a, b)
  | none ↦ if x == c then some ([], s) else none
]

unfoldable pub count_char : ℕ → Text → ℕ
count_char c [] = 0
count_char c (x ∷ s) = (if x == c then 1 else 0) + count_char c s

-- `s.isdigit()` on ASCII text
unfoldable pub is_digits : Text → Bool
is_digits [] = false
is_digits (c ∷ s) = all (λ x. leb b'0' x && leb x b'9') (c ∷ s)

-- The host name of an `http`, `https`, `ws` or `wss` URL
unfoldable pub url_host : Environment → Text → Text
url_host env t =
    if has_scheme_mark t
    then elim (env.urlparse t) [
      | none ↦ t
      | some (scheme, hostname) ↦
          if text_in scheme (codes "http" ∷ codes "https" ∷ codes "ws" ∷ codes "wss" ∷ [])
          then elim hostname [ none ↦ t | some h ↦ elim h [ [] ↦ t | c ∷ r ↦ c ∷ r ] ]
          else t
    ]
    else t

-- `[host]:port` loses its port
bracketed_port : Text → Text
bracketed_port t = elim (split_last b']' t) [
  | none ↦ t
  | some (host, port) ↦
      if starts_with port (codes ":") && is_digits (drop 1 port) then host ++ b']' ∷ [] else t
]

-- `host:port` loses its port
plain_port : Text → Text
plain_port t = elim (split_last b':' t) [
  | none ↦ t
  | some (host, port) ↦ if is_digits port then host else t
]

unfoldable pub without_port : Text → Text
unfolding bracketed_port plain_port
without_port t =
    if has_char b':' t
    then if starts_with t (codes "[")
      then bracketed_port t
      else if count_char b':' t == 1
      then plain_port t
      else t
    else t

-- `t[1:-1]` of a text in brackets
unfoldable pub without_brackets : Text → Text
without_brackets t =
    if starts_with t (codes "[") && ends_with t (codes "]")
    then take (length t - 2) (drop 1 t)
    else t

-- `target_host` of `check_access`
unfoldable pub target_host : Environment → Text → Text
target_host env dest_ip = without_brackets (without_port (url_host env (strip dest_ip)))

-- `target_host` of `validate_egress_target`, whatever the scheme
unfoldable pub egress_host : Environment → Text → Text
egress_host env host =
    if has_scheme_mark host
    then elim (env.urlparse host) [
      | none ↦ host
      | some (scheme, hostname) ↦ elim hostname [
        | none ↦ host
        | some h ↦ elim h [ [] ↦ host | c ∷ r ↦ c ∷ r ]
      ]
    ]
    else host

-- The address of a host: read, or resolved and read.
pub data Located : Type 0 where
  literal : Address → Located
  resolved : Text → Address → Located
  unresolved : Located

unfoldable pub locate : Environment → Resolver → Text → Located
locate env resolve t = elim (env.ip_address t) [
  | some ip ↦ literal ip
  | none ↦ elim (resolve t) [
    | none ↦ unresolved
    | some answer ↦ elim (env.ip_address answer) [
      | some ip ↦ resolved answer ip
      | none ↦ unresolved
    ]
  ]
]
