-- ===== src/Validation/Sample.antt =====
-- A library that obeys what is documented of `ipaddress`, and settings: the inputs of the tests.
use secu_scan.Prelude.{
  ◌≡◌, refl, ◌⊎◌, inl, inr, true, false, ◌||◌, Option, none, some, [], ◌∷◌, arith, ◌==◌,
  if◌then◌else◌, Bool-cases, Text, codes, text_eq, strip,
}
use secu_scan.NetworkPolicy.Host.{v4, Address, Network}
use secu_scan.Validation.Networks.{ipv4}
use secu_scan.Validation.Allowed.{Settings, Library}
use secu_scan.Validation.Dns.{inet, DnsCache}
use secu_scan.Validation.Target.{Outside}
use secu_scan.Validation.Target.Accepted.{IsLawful}

-- Networks in CIDR notation and one address, each read back
abbrev pub ten : Network
ten = ipv4 10 0 0 0 8

abbrev pub host_ten : Network
host_ten = ipv4 10 0 0 5 32

abbrev pub read_network : Text → Option Network
read_network t =
    if text_eq t (codes "10.0.0.0/8")
    then some ten
    else if text_eq t (codes "10.0.0.5") || text_eq t (codes "10.0.0.5/32")
    then some host_ten
    else none

abbrev pub str_network : Network → Text
str_network net = if net.prefix == 8 then codes "10.0.0.0/8" else codes "10.0.0.5/32"

abbrev pub read_address : Text → Option Address
read_address t =
    if text_eq t (codes "10.0.0.5") then some (record { version = v4; value = 167772165 }) else none

abbrev pub read_url : Text → Option (Text × Option Text)
read_url t =
    if text_eq t (codes "http://10.0.0.5/")
    then some (codes "http", some (codes "10.0.0.5"))
    else if text_eq t (codes "http://[")
    then none
    else some ([], none)

abbrev pub library : Library
library = record {
  environment = record {
    ip_address = read_address;
    str_address = λ ip. codes "10.0.0.5";
    ip_network = read_network;
    urlparse = read_url;
  };
  str_network = str_network;
  fnmatch = λ s p. false;
}

read_network-cases :
    (t : Text) (net : Network) → read_network t ≡ some net → (net ≡ ten) ⊎ (net ≡ host_ten)
read_network-cases t net h = elim (Bool-cases (text_eq t (codes "10.0.0.0/8"))) [
  | inl a ↦ inl (ground (arith, h, a))
  | inr a ↦ elim (Bool-cases (text_eq t (codes "10.0.0.5") || text_eq t (codes "10.0.0.5/32"))) [
    | inl b ↦ inr (ground (arith, h, a, b))
    | inr b ↦ absurd (ground (arith, h, a, b))
  ]
]

pub library-IsLawful : IsLawful library
unfolding strip text_eq
library-IsLawful = record {
  read_back =
      λ t net h. elim (read_network-cases t net h) [ inl e ↦ rw e refl | inr e ↦ rw e refl ];
  nothing = refl;
}

abbrev pub settings : Settings
settings = record {
  allowed_networks = codes "10.*.*.*" ∷ [];
  allow_loopback_scans = true;
  dns_cache_ttl_seconds = 60;
  dns_rebind_check = true;
}

abbrev pub no_cache : DnsCache
no_cache = []

-- The name `lab` stands for 10.0.0.5.
abbrev pub outside : Outside
outside = record {
  settings = settings;
  library = library;
  now = 5;
  answers = λ t. some (record { family = inet; sockaddr = codes "10.0.0.5" } ∷ []);
  later = 6;
  answers_later = λ t. some (record { family = inet; sockaddr = codes "10.0.0.5" } ∷ []);
}
