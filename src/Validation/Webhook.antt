-- ===== src/Validation/Webhook.antt =====
-- `validate_webhook_target` and `resolve_and_validate_target`: where notifications may be sent.
pub mod Ranges
use secu_scan.Prelude.{
  ℕ, Bool, true, false, Option, none, some, List, [], ◌∷◌, ◌==◌, if◌then◌else◌, any, Text, codes,
  text_in,
}
use secu_scan.NetworkPolicy.Host.{Address, Network, contains, Environment}
use secu_scan.Validation.Dns.{AddressInfo, Answers}

-- What is read of `settings`
pub record WebhookSettings : Type 0 where
  pub blocked_ip_ranges : List Text
  pub allowed_ip_ranges : List Text
  pub allowed_ports : List ℕ

pub data WebhookError : Type 0 where
  invalid_url no_hostname raw_address unresolved_host : WebhookError
  bad_scheme : Text → WebhookError
  bad_port : ℕ → WebhookError
  in_blocked : Address → Text → WebhookError
  not_in_allowed : Address → WebhookError

-- `ValueError` of `parsed.port` or of `urlparse` may leave the functions.
pub data WebhookCheck : Type 0 where
  webhook_allowed : WebhookCheck
  webhook_refused : WebhookError → WebhookCheck
  webhook_raised : WebhookCheck

-- `ip in ipaddress.ip_network(cidr, strict=False)`, false where the range does not read as a network
unfoldable pub in_cidr : Environment → Address → Text → Bool
in_cidr env ip cidr = elim (env.ip_network cidr) [ none ↦ false | some net ↦ contains net ip ]

-- The loop over the blocked ranges: the first that holds the address
unfoldable pub first_blocked : Environment → Address → List Text → Option Text
first_blocked env ip [] = none
first_blocked env ip (cidr ∷ cidrs) =
    let rest = first_blocked env ip cidrs in if in_cidr env ip cidr then some cidr else rest

-- `validate_webhook_target`: the loop over the answers
unfoldable pub check_blocked : WebhookSettings → Environment → List AddressInfo → WebhookCheck
check_blocked c env [] = webhook_allowed
check_blocked c env (addr ∷ addrs) =
    let rest = check_blocked c env addrs in
    elim (env.ip_address addr.sockaddr) [
      | none ↦ rest
      | some ip ↦ elim (first_blocked env ip c.blocked_ip_ranges) [
        | some cidr ↦ webhook_refused (in_blocked ip cidr)
        | none ↦ rest
      ]
    ]

abbrev resolve_webhook : WebhookSettings → Environment → Answers → Text → WebhookCheck
resolve_webhook c env answers hostname = elim (answers hostname) [
  | none ↦ webhook_refused unresolved_host
  | some addrs ↦ check_blocked c env addrs
]

unfoldable pub validate_webhook_target :
    WebhookSettings → Environment → Answers → Text → WebhookCheck
validate_webhook_target c env answers url = elim (env.urlparse url) [
  | none ↦ webhook_raised
  | some (scheme, hostname) ↦ elim hostname [
    | none ↦ webhook_refused no_hostname
    | some h ↦ elim h [
      | [] ↦ webhook_refused no_hostname
      | x ∷ t ↦ resolve_webhook c env answers (x ∷ t)
    ]
  ]
]

-- Whether the address passes the allowed ranges, if there are any
unfoldable pub passes_allowed : WebhookSettings → Environment → Address → Bool
passes_allowed c env ip = elim c.allowed_ip_ranges [
  | [] ↦ true
  | cidr ∷ cidrs ↦ any (in_cidr env ip) (cidr ∷ cidrs)
]

-- `resolve_and_validate_target`: the loop over the answers
unfoldable pub check_ranges : WebhookSettings → Environment → List AddressInfo → WebhookCheck
check_ranges c env [] = webhook_allowed
check_ranges c env (info ∷ infos) =
    let rest = check_ranges c env infos in
    elim (env.ip_address info.sockaddr) [
      | none ↦ rest
      | some ip ↦ elim (first_blocked env ip c.blocked_ip_ranges) [
        | some cidr ↦ webhook_refused (in_blocked ip cidr)
        | none ↦ if passes_allowed c env ip then rest else webhook_refused (not_in_allowed ip)
      ]
    ]

-- `port is not None and port not in settings.notification_allowed_ports`
abbrev pub allows_port : WebhookSettings → Option ℕ → Bool
allows_port c none = true
allows_port c (some port) = any (λ p. p == port) c.allowed_ports

abbrev resolve_host : WebhookSettings → Environment → Answers → Text → WebhookCheck
resolve_host c env answers hostname = elim (env.ip_address hostname) [
  | some ip ↦ webhook_refused raw_address
  | none ↦ elim (answers hostname) [
    | none ↦ webhook_refused unresolved_host
    | some infos ↦ check_ranges c env infos
  ]
]

abbrev check_port :
    WebhookSettings → Environment → Answers → Option (Option ℕ) → Text → WebhookCheck
check_port c env answers none hostname = webhook_raised
check_port c env answers (some none) hostname = resolve_host c env answers hostname
check_port c env answers (some (some port)) hostname =
    if allows_port c (some port)
    then resolve_host c env answers hostname
    else webhook_refused (bad_port port)

-- `resolve_and_validate_target`; `port` is `parsed.port`, `none` where it raises.
unfoldable pub resolve_and_validate_target :
    WebhookSettings → Environment → (Text → Option (Option ℕ)) → Answers → Text → WebhookCheck
resolve_and_validate_target c env port answers url = elim (env.urlparse url) [
  | none ↦ webhook_refused invalid_url
  | some (scheme, hostname) ↦
      if text_in scheme (codes "http" ∷ codes "https" ∷ [])
      then elim hostname [
        | none ↦ webhook_refused no_hostname
        | some h ↦ elim h [
          | [] ↦ webhook_refused no_hostname
          | x ∷ t ↦ check_port c env answers (port url) (x ∷ t)
        ]
      ]
      else webhook_refused (bad_scheme scheme)
]
