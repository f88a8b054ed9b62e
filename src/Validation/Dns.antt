-- ===== src/Validation/Dns.antt =====
-- `_resolve_host_ips` and its cache.
use secu_scan.Prelude.{
  ℕ, ◌+◌, ◌*◌, max, Bool, true, false, ◌&&◌, Option, none, some, List, [], ◌∷◌, ltb, ◌==◌,
  if◌then◌else◌, any, Text, Dict, lookup, insert, erase,
}
use secu_scan.NetworkPolicy.Host.{Address, same_version, Environment}
use secu_scan.Validation.Allowed.{Settings}

pub data Family : Type 0 where
  inet inet6 unknown : Family

-- What is read of an entry of `socket.getaddrinfo`: its family, and the text of its address.
pub record AddressInfo : Type 0 where
  pub family : Family
  pub sockaddr : Text

-- `socket.getaddrinfo` at one moment, `none` where it raises `OSError`
abbrev pub Answers : Type 0
Answers = Text → Option (List AddressInfo)

-- `_DNS_CACHE`: the moment at which an entry expires, and its addresses
abbrev pub DnsCache : Type 0
DnsCache = Dict (ℕ × List Address)

abbrev pub is_internet : Family → Bool
is_internet inet = true
is_internet inet6 = true
is_internet unknown = false

-- The addresses of the answer, without what does not read as an address
unfoldable pub read_infos : Environment → List AddressInfo → List Address
read_infos env [] = []
read_infos env (info ∷ infos) =
    let rest = read_infos env infos in
    if is_internet info.family
    then elim (env.ip_address info.sockaddr) [ none ↦ rest | some ip ↦ ip ∷ rest ]
    else rest

unfoldable pub same_address : Address → Address → Bool
same_address a b = same_version a.version b.version && a.value == b.value

-- The loop that drops what is in `seen`
unfoldable pub unseen : List Address → List Address → List Address
unseen seen [] = []
unseen seen (ip ∷ ips) =
    let again = unseen seen ips in
    let first = ip ∷ unseen (ip ∷ seen) ips in if any (same_address ip) seen then again else first

-- The part of `_resolve_host_ips` behind the cache
unfoldable pub resolve_fresh :
    Settings → Environment → Answers → ℕ → Text → DnsCache → List Address × DnsCache
resolve_fresh c env answers now hostname dns =
    let expires = now + max 1 c.dns_cache_ttl_seconds * 1_000_000 in
    elim (answers hostname) [
      | none ↦ ([], insert hostname (expires, []) dns)
      | some infos ↦
          let unique = unseen [] (read_infos env infos) in
          (unique, insert hostname (expires, unique) dns)
    ]

-- `_resolve_host_ips`
unfoldable pub resolve_host_ips :
    Settings → Environment → Answers → ℕ → Text → DnsCache → List Address × DnsCache
resolve_host_ips c env answers now hostname dns = elim (lookup hostname dns) [
  | none ↦ resolve_fresh c env answers now hostname dns
  | some (expires, ips) ↦
      if ltb now expires then (ips, dns) else resolve_fresh c env answers now hostname dns
]

-- `_resolve_host_ips_uncached`
unfoldable pub resolve_host_ips_uncached :
    Settings → Environment → Answers → ℕ → Text → DnsCache → List Address × DnsCache
resolve_host_ips_uncached c env answers now hostname dns =
    resolve_host_ips c env answers now hostname (erase hostname dns)
