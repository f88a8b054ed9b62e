-- ===== src/NetworkPolicy/Defaults/Blocked.antt =====
-- Addresses that the denylist blocks at every moment, and what keeps them blocked.
use secu_scan.Prelude.{
  ℕ, ◌≡◌, refl, sym, ap, ◌∙◌, subst, inl, inr, true, ◌||◌, Option, none, some, List, [], ◌∷◌, ◌++◌,
  arith, Bool-cases, Text, codes, text_eq, text_eq_iff, text_in, or_default,
}
use secu_scan.NetworkPolicy.Host.{
  Address, Network, contains, Environment, Resolver, Located, literal, resolved, unresolved, locate,
  target_host,
}
use secu_scan.NetworkPolicy.Engine.{
  Rule, Engine, Access, rule, add_allow_rule, add_deny_rule, check_access, conclude,
  log_audit_entry, clear_audit_entries, is_expired,
}
use secu_scan.NetworkPolicy.Decision.{matches}
use secu_scan.NetworkPolicy.Defaults.{
  deny_all, allow_all, allow_public, Operation, allowing, denying, checking, clearing, perform,
}
use mathlib.Core.Option.{none-ne-some}

-- At every moment some live rule of the denylist holds the address.
abbrev pub Blocked : Address → Engine → Type 0
Blocked ip e = (now : ℕ) → matches now ip e.denylist ≡ true

any-append :
    (now : ℕ) (ip : Address) (xs ys : List Rule)
    → matches now ip (xs ++ ys) ≡ (matches now ip xs || matches now ip ys)
any-append now ip [] ys = refl
any-append now ip (x ∷ xs) ys = ground (arith, any-append now ip xs ys)

add_deny_rule-keeps :
    (env : Environment) (now : ℕ) (c why : Text) (expires_at : Option ℕ) (ip : Address) (e : Engine)
    → Blocked ip e
    → Blocked ip (or_default e (add_deny_rule env now c why expires_at e))
unfolding add_deny_rule rule
add_deny_rule-keeps env now c why expires_at ip e h later = split (env.ip_network c) refl
  where
    split :
        (o : Option Network)
        → env.ip_network c ≡ o
        → matches later ip (or_default e (add_deny_rule env now c why expires_at e)).denylist ≡ true
    split none q = rw (q, add_deny_rule) (h later)
    split (some net) q = rw (q, add_deny_rule, any-append later ip e.denylist _, h later) refl

add_allow_rule-keeps :
    (env : Environment) (now : ℕ) (c why : Text) (expires_at : Option ℕ) (e : Engine)
    → (or_default e (add_allow_rule env now c why expires_at e)).denylist ≡ e.denylist
unfolding add_allow_rule
add_allow_rule-keeps env now c why expires_at e = split (env.ip_network c) refl
  where
    split :
        (o : Option Network)
        → env.ip_network c ≡ o
        → (or_default e (add_allow_rule env now c why expires_at e)).denylist ≡ e.denylist
    split none q = rw (q, add_allow_rule) refl
    split (some net) q = rw (q, add_allow_rule) refl

-- A rule that never expires, once added, holds its addresses.
add_deny_rule-blocks :
    (env : Environment) (now : ℕ) (c why : Text) (ip : Address) (net : Network) (e : Engine)
    → env.ip_network c ≡ some net
    → contains net ip ≡ true
    → Blocked ip (or_default e (add_deny_rule env now c why none e))
unfolding add_deny_rule rule is_expired
add_deny_rule-blocks env now c why ip net e q inside later =
    rw (q, add_deny_rule, any-append later ip e.denylist _) (ground (arith, inside))

pub deny_all-keeps :
    (env : Environment) (now : ℕ) (why : Text) (cs : List Text) (ip : Address) (e : Engine)
    → Blocked ip e
    → Blocked ip (deny_all env now why cs e)
unfolding deny_all
deny_all-keeps env now why [] ip e h = h
deny_all-keeps env now why (c ∷ cs) ip e h =
    deny_all-keeps env now why cs ip _ (add_deny_rule-keeps env now c why none ip e h)

pub deny_all-blocks :
    (env : Environment) (now : ℕ) (why c : Text) (cs : List Text) (ip : Address) (net : Network)
    → (e : Engine) → text_in c cs ≡ true
    → env.ip_network c ≡ some net
    → contains net ip ≡ true
    → Blocked ip (deny_all env now why cs e)
unfolding deny_all text_in
deny_all-blocks env now why c [] ip net e h q inside = absurd (ground (arith, h))
deny_all-blocks env now why c (d ∷ cs) ip net e h q inside = elim (Bool-cases (text_eq c d)) [
  | inl same ↦ deny_all-keeps env now why cs ip _ (
      add_deny_rule-blocks env now d why ip net e
        (subst (λ t. env.ip_network t ≡ some net) ((text_eq_iff c d).0 same) q) inside)
  | inr other ↦ deny_all-blocks env now why c cs ip net _ (ground (arith, h, other)) q inside
]

pub allow_all-keeps :
    (env : Environment) (now : ℕ) (why : Text) (cs : List Text) (e : Engine)
    → (allow_all env now why cs e).denylist ≡ e.denylist
unfolding allow_all
allow_all-keeps env now why [] e = refl
allow_all-keeps env now why (c ∷ cs) e =
    allow_all-keeps env now why cs _ ∙ add_allow_rule-keeps env now c why none e

add_allow_rule-added :
    (env : Environment) (now : ℕ) (c why : Text) (expires_at : Option ℕ) (e e' : Engine)
    → add_allow_rule env now c why expires_at e ≡ some e'
    → e'.denylist ≡ e.denylist
add_allow_rule-added env now c why x e e' h =
    ap (λ o. (or_default e o).denylist) (sym h) ∙ add_allow_rule-keeps env now c why x e

check_access-keeps :
    (env : Environment) (resolve : Resolver) (now : ℕ) (a : Access) (e : Engine)
    → (check_access env resolve now a e).1.denylist ≡ e.denylist
unfolding check_access conclude log_audit_entry
check_access-keeps env resolve now a e = split (locate env resolve (target_host env a.dest_ip)) refl
  where
    split :
        (l : Located)
        → locate env resolve (target_host env a.dest_ip) ≡ l
        → (check_access env resolve now a e).1.denylist ≡ e.denylist
    split (literal ip) q = rw (q, check_access) refl
    split (resolved answer ip) q = rw (q, check_access) refl
    split unresolved q = rw (q, check_access) refl

pub Blocked-same :
    (ip : Address) (e e' : Engine) → e'.denylist ≡ e.denylist → Blocked ip e → Blocked ip e'
Blocked-same ip e e' q h later = ap (matches later ip) q ∙ h later

pub perform-keeps :
    (env : Environment) (os : List Operation) (ip : Address) (e : Engine)
    → Blocked ip e
    → Blocked ip (perform env os e)
unfolding perform clear_audit_entries
perform-keeps env [] ip e h = h
perform-keeps env (allowing now c why x ∷ os) ip e h =
    perform-keeps env os ip (or_default e (add_allow_rule env now c why x e)) (
      Blocked-same ip e (or_default e (add_allow_rule env now c why x e))
        (add_allow_rule-keeps env now c why x e) h)
perform-keeps env (denying now c why x ∷ os) ip e h =
    perform-keeps env os ip _ (add_deny_rule-keeps env now c why x ip e h)
perform-keeps env (checking resolve now a ∷ os) ip e h =
    perform-keeps env os ip (check_access env resolve now a e).1 (
      Blocked-same ip e (check_access env resolve now a e).1
        (check_access-keeps env resolve now a e) h)
perform-keeps env (clearing ∷ os) ip e h = perform-keeps env os ip _ h

pub allow_public-keeps :
    (env : Environment) (now : ℕ) (e e' : Engine)
    → allow_public env now e ≡ some e'
    → e'.denylist ≡ e.denylist
unfolding allow_public
allow_public-keeps env now e e' h =
    split (add_allow_rule env now (codes "0.0.0.0/0") public none e) refl
  where
    public : Text
    public = codes "Default public egress (no explicit allowlist configured)"

    then_public :
        {o : Option Engine}
        → add_allow_rule env now (codes "0.0.0.0/0") public none e ≡ o
        → allow_public env now e
          ≡ elim o [ none ↦ none | some m ↦ add_allow_rule env now (codes "::/0") public none m ]
    then_public q = rw (q, allow_public) refl

    split :
        (o : Option Engine)
        → add_allow_rule env now (codes "0.0.0.0/0") public none e ≡ o
        → e'.denylist ≡ e.denylist
    split none q = absurd (none-ne-some e' (sym (then_public q) ∙ h))
    split (some m) q =
        add_allow_rule-added env now (codes "::/0") public none m e' (sym (then_public q) ∙ h)
        ∙ add_allow_rule-added env now (codes "0.0.0.0/0") public none e m q
