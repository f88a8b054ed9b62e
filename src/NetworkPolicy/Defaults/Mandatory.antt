-- ===== src/NetworkPolicy/Defaults/Mandatory.antt =====
-- What no setting and no later operation opens: the mandatory denylist.
use secu_scan.Prelude.{
  ℕ, ◌≡◌, sym, ap, ◌∙◌, true, false, some, List, [], ◌∷◌, arith, Text, codes, text_in, or_default,
}
use secu_scan.NetworkPolicy.Host.{
  Address, Network, contains, Environment, Resolver, locate, target_host, egress_host,
}
use secu_scan.NetworkPolicy.Engine.{Engine, Access, check_access, validate_egress_target}
use secu_scan.NetworkPolicy.Decision.{
  address_of, matches, permitted_at, check_access-permitted, egress-permitted,
}
use secu_scan.NetworkPolicy.Defaults.{
  mandatory_denylist, deny_all, init_default_policies, Operation, perform,
}
use secu_scan.NetworkPolicy.Defaults.Blocked.{
  Blocked, Blocked-same, deny_all-keeps, deny_all-blocks, allow_all-keeps, allow_public-keeps,
  perform-keeps,
}

init_default_policies-blocks :
    (env : Environment) (now : ℕ) (denylist allowlist : List Text) (e e' : Engine)
    → (c : Text) (net : Network) (ip : Address)
    → init_default_policies env now denylist allowlist e ≡ some e'
    → text_in c mandatory_denylist ≡ true
    → env.ip_network c ≡ some net
    → contains net ip ≡ true
    → Blocked ip e'
unfolding init_default_policies
init_default_policies-blocks env now denylist allowlist e e' c net ip h known q inside =
    Blocked-same ip guarded e' (same allowlist h) blocked
  where
    guarded : Engine
    guarded = deny_all env now (codes "Operator configured denylist") denylist (
        deny_all env now (codes "Mandatory denylist (not operator-configurable)") mandatory_denylist
          e)

    blocked : Blocked ip guarded
    blocked = deny_all-keeps env now (codes "Operator configured denylist") denylist ip _ (
        deny_all-blocks env now (codes "Mandatory denylist (not operator-configurable)") c
          mandatory_denylist ip net e known q inside)

    same :
        (allowed : List Text)
        → init_default_policies env now denylist allowed e ≡ some e'
        → e'.denylist ≡ guarded.denylist
    same [] h =
        allow_public-keeps env now _ e' h
        ∙ allow_all-keeps env now (codes "Operator configured allowlist") [] guarded
    same (x ∷ xs) h =
        ap (λ o. (or_default guarded o).denylist) (sym h)
        ∙ allow_all-keeps env now (codes "Operator configured allowlist") (x ∷ xs) guarded

-- A host that stands for an address of a mandatory network is refused by `check_access`, whatever
-- denylist and allowlist the settings give, at every later moment, and after every sequence of added
-- rules, checked connections and cleared trails.
pub mandatory_denied :
    (env : Environment) (now : ℕ) (denylist allowlist : List Text) (e e' : Engine)
    → (c : Text) (net : Network) (ip : Address)
    → (os : List Operation) (resolve : Resolver) (later : ℕ) (a : Access)
    → init_default_policies env now denylist allowlist e ≡ some e'
    → text_in c mandatory_denylist ≡ true
    → env.ip_network c ≡ some net
    → contains net ip ≡ true
    → address_of (locate env resolve (target_host env a.dest_ip)) ≡ some ip
    → (check_access env resolve later a (perform env os e')).0.allowed ≡ false
mandatory_denied env now denylist allowlist e e' c net ip os resolve later a h known q inside at =
    check_access-permitted env resolve later a (perform env os e')
    ∙ ap (permitted_at later (perform env os e')) at
    ∙ ground (arith, blocked)
  where
    blocked : matches later ip (perform env os e').denylist ≡ true
    blocked =
        perform-keeps env os ip e'
          (init_default_policies-blocks env now denylist allowlist e e' c net ip h known q inside)
          later

-- `validate_egress_target` refuses it too, under the same conditions.
pub egress_mandatory_denied :
    (env : Environment) (now : ℕ) (denylist allowlist : List Text) (e e' : Engine)
    → (c : Text) (net : Network) (ip : Address)
    → (os : List Operation) (resolve : Resolver) (later : ℕ) (host : Text)
    → init_default_policies env now denylist allowlist e ≡ some e'
    → text_in c mandatory_denylist ≡ true
    → env.ip_network c ≡ some net
    → contains net ip ≡ true
    → address_of (locate env resolve (egress_host env host)) ≡ some ip
    → validate_egress_target env resolve later host (perform env os e') ≡ false
egress_mandatory_denied env now denylist allowlist e e' c net ip os resolve later host h known q
      inside at =
    egress-permitted env resolve later host (perform env os e')
    ∙ ap (permitted_at later (perform env os e')) at
    ∙ ground (arith, blocked)
  where
    blocked : matches later ip (perform env os e').denylist ≡ true
    blocked =
        perform-keeps env os ip e'
          (init_default_policies-blocks env now denylist allowlist e e' c net ip h known q inside)
          later
