-- ===== src/Validation/Webhook/Ranges.antt =====
-- Which webhooks are let through.
use secu_scan.Prelude.{
  ℕ, ◌≡◌, refl, sym, ap, ◌∙◌, inl, inr, Bool, true, false, not, ◌&&◌, Option, none, some, List, [],
  ◌∷◌, arith, Bool-cases, any, all, Text, codes, text_in, is_some,
}
use secu_scan.NetworkPolicy.Host.{Address, Environment}
use secu_scan.Validation.Dns.{AddressInfo, Answers}
use secu_scan.Validation.Webhook.{
  check_port, resolve_host, WebhookSettings, WebhookCheck, webhook_allowed, webhook_refused,
  webhook_raised, in_cidr, first_blocked, passes_allowed, check_ranges, allows_port,
  resolve_and_validate_target,
}

abbrev is_webhook_allowed : WebhookCheck → Bool
is_webhook_allowed webhook_allowed = true
is_webhook_allowed (webhook_refused error) = false
is_webhook_allowed webhook_raised = false

-- The addresses that the answers read as
abbrev addresses : Environment → List AddressInfo → List Address
addresses env [] = []
addresses env (info ∷ infos) =
    let rest = addresses env infos in
    elim (env.ip_address info.sockaddr) [ none ↦ rest | some ip ↦ ip ∷ rest ]

-- The address lies in none of the blocked ranges, and in one of the allowed ones if there are any.
abbrev pub is_reachable : WebhookSettings → Environment → Address → Bool
is_reachable c env ip = not (any (in_cidr env ip) c.blocked_ip_ranges) && passes_allowed c env ip

first_blocked-any :
    (env : Environment) (ip : Address) (cidrs : List Text)
    → is_some (first_blocked env ip cidrs) ≡ any (in_cidr env ip) cidrs
unfolding first_blocked
first_blocked-any env ip [] = refl
first_blocked-any env ip (cidr ∷ cidrs) = ground (arith, first_blocked-any env ip cidrs)

check_ranges-all :
    (c : WebhookSettings) (env : Environment) (infos : List AddressInfo)
    → is_webhook_allowed (check_ranges c env infos) ≡ all (is_reachable c env) (addresses env infos)
unfolding check_ranges
check_ranges-all c env [] = refl
check_ranges-all c env (info ∷ infos) =
    split (env.ip_address info.sockaddr) refl (check_ranges-all c env infos)
  where
    split :
        (o : Option Address)
        → env.ip_address info.sockaddr ≡ o
        → is_webhook_allowed (check_ranges c env infos)
          ≡ all (is_reachable c env) (addresses env infos)
        → is_webhook_allowed (check_ranges c env (info ∷ infos))
          ≡ all (is_reachable c env) (addresses env (info ∷ infos))
    split none q ih = ground (arith, q, ih)
    split (some ip) q ih = ground (arith, q, ih, first_blocked-any env ip c.blocked_ip_ranges)

-- A host name that is no address and that resolves to reachable addresses only.
abbrev pub HostIsReachable : WebhookSettings → Environment → Answers → Text → Type 0
HostIsReachable c env answers hostname =
    (env.ip_address hostname ≡ none)
    × ((infos : List AddressInfo) × (answers hostname ≡ some infos)
        × (all (is_reachable c env) (addresses env infos) ≡ true))

resolve_host-reachable :
    (c : WebhookSettings) (env : Environment) (answers : Answers) (hostname : Text)
    → is_webhook_allowed (resolve_host c env answers hostname) ≡ true
    → HostIsReachable c env answers hostname
resolve_host-reachable c env answers hostname h =
    split (env.ip_address hostname) (answers hostname) refl refl
  where
    split :
        (o : Option Address) (a : Option (List AddressInfo))
        → env.ip_address hostname ≡ o
        → answers hostname ≡ a
        → HostIsReachable c env answers hostname
    split (some ip) a q r = absurd (ground (arith, h, q))
    split none none q r = absurd (ground (arith, h, q, r))
    split none (some infos) q r =
        (q, (infos, r, sym (check_ranges-all c env infos) ∙ ground (arith, h, q, r)))

check_port-reachable :
    (c : WebhookSettings) (env : Environment) (answers : Answers) (port : Option (Option ℕ))
    (hostname : Text)
    → is_webhook_allowed (check_port c env answers port hostname) ≡ true
    → ((p : Option ℕ) × (port ≡ some p) × (allows_port c p ≡ true))
      × HostIsReachable c env answers hostname
check_port-reachable c env answers none hostname h = absurd (ground (arith, h))
check_port-reachable c env answers (some none) hostname h =
    ((none, refl, refl), resolve_host-reachable c env answers hostname h)
check_port-reachable c env answers (some (some port)) hostname h =
    elim (Bool-cases (allows_port c (some port))) [
      | inl good ↦ (
        (some port, refl, good),
        resolve_host-reachable c env answers hostname (ground (arith, h, good)),
      )
      | inr bad ↦ absurd (ground (arith, h, bad))
    ]

-- A URL that `resolve_and_validate_target` lets through has the scheme http or https, an allowed port if
-- it names one, and a host that is no address and resolves; and every address that the answers read as lies
-- in no blocked range, and in an allowed one if there are any.
pub webhook-reachable :
    (c : WebhookSettings) (env : Environment) (port : Text → Option (Option ℕ)) (answers : Answers)
    → (url : Text) → resolve_and_validate_target c env port answers url ≡ webhook_allowed
    → (scheme : Text) × (hostname : Text) × (env.urlparse url ≡ some (scheme, some hostname))
      × (text_in scheme (codes "http" ∷ codes "https" ∷ []) ≡ true)
      × ((p : Option ℕ) × (port url ≡ some p) × (allows_port c p ≡ true))
      × HostIsReachable c env answers hostname
unfolding resolve_and_validate_target
webhook-reachable c env port answers url h = parsed (env.urlparse url) refl
  where
    Result : Type 0
    Result =
        (scheme : Text) × (hostname : Text) × (env.urlparse url ≡ some (scheme, some hostname))
        × (text_in scheme (codes "http" ∷ codes "https" ∷ []) ≡ true)
        × ((p : Option ℕ) × (port url ≡ some p) × (allows_port c p ≡ true))
        × HostIsReachable c env answers hostname

    hosted :
        (scheme : Text) (hostname : Option Text)
        → env.urlparse url ≡ some (scheme, hostname)
        → text_in scheme (codes "http" ∷ codes "https" ∷ []) ≡ true
        → Result
    hosted scheme none q s = absurd (ground (arith, ap is_webhook_allowed h, q, s))
    hosted scheme (some []) q s = absurd (ground (arith, ap is_webhook_allowed h, q, s))
    hosted scheme (some (x ∷ t)) q s =
        let (good, reachable) =
          check_port-reachable c env answers (port url) (x ∷ t)
            (ground (arith, ap is_webhook_allowed h, q, s)) in
        (scheme, x ∷ t, q, s, good, reachable)

    parsed : (o : Option (Text × Option Text)) → env.urlparse url ≡ o → Result
    parsed none q = absurd (ground (arith, ap is_webhook_allowed h, q))
    parsed (some (scheme, hostname)) q =
        elim (Bool-cases (text_in scheme (codes "http" ∷ codes "https" ∷ []))) [
          | inl s ↦ hosted scheme hostname q s
          | inr s ↦ absurd (ground (arith, ap is_webhook_allowed h, q, s))
        ]
