-- ===== src/NetworkPolicy/Pinning.antt =====
-- `resolve_and_pin`: the verdict is about the pinned address, not about what the DNS says later.
use secu_scan.Prelude.{
  ℕ, ◌≡◌, refl, sym, ap, ◌∙◌, subst, Bool, true, false, Option, none, some, [], arith, ◌==◌, Text,
  codes, strip, starts_with, has_char,
}
use secu_scan.NetworkPolicy.Pin.{Pinned, pin, pinned, resolve_and_pin, unresolvable, value_error}
use secu_scan.NetworkPolicy.Host.{
  Address, Environment, Resolver, literal, locate, has_scheme_mark, count_char, target_host,
  url_host, without_port, without_brackets,
}
use secu_scan.NetworkPolicy.Engine.{Engine}
use secu_scan.NetworkPolicy.Decision.{permitted, permitted_at, address_of, check_access-permitted}

-- What is documented of `ipaddress`: the text of an address is read back as the address; and a text
-- that is read as an address, unless it carries a zone (`%`), has no space at its ends, no `://`, no
-- `[` in front, and is not of the form `a:b`.
pub record IsLawful (env : Environment) : Type 0 where
  pub read_back : (ip : Address) → env.ip_address (env.str_address ip) ≡ some ip
  pub no_space :
      (t : Text) (ip : Address) → env.ip_address t ≡ some ip → has_char b'%' t ≡ false → strip t ≡ t
  pub no_scheme :
      (t : Text) (ip : Address)
      → env.ip_address t ≡ some ip
      → has_char b'%' t ≡ false
      → has_scheme_mark t ≡ false
  pub no_bracket :
      (t : Text) (ip : Address)
      → env.ip_address t ≡ some ip
      → has_char b'%' t ≡ false
      → starts_with t (codes "[") ≡ false
  pub no_port :
      (t : Text) (ip : Address)
      → env.ip_address t ≡ some ip
      → has_char b'%' t ≡ false
      → (count_char b':' t == 1) ≡ false

-- Of such a text `check_access` reads the whole.
target_host-address :
    (env : Environment)
    → IsLawful env
    → (t : Text) (ip : Address) → env.ip_address t ≡ some ip
    → has_char b'%' t ≡ false
    → target_host env t ≡ t
unfolding target_host url_host without_port without_brackets
target_host-address env law t ip q plain =
    ap (λ s. without_brackets (without_port (url_host env s))) (law.no_space t ip q plain)
    ∙ ap (λ s. without_brackets (without_port s)) (rw (law.no_scheme t ip q plain) refl)
    ∙ ap without_brackets port
    ∙ rw (law.no_bracket t ip q plain) refl
  where
    port : without_port t ≡ t
    port = rw (law.no_bracket t ip q plain, law.no_port t ip q plain) (ground arith)

-- The verdict on a pinned address.
abbrev pub Sound : Environment → ℕ → Engine → Text → Bool → Type 0
Sound env now e address allowed =
    (ip : Address) × (env.ip_address address ≡ some ip) × (allowed ≡ permitted now ip e)

abbrev address_in : Pinned → Text
address_in (pinned address allowed e) = address
address_in (unresolvable e) = []
address_in value_error = []

abbrev verdict_in : Pinned → Bool
verdict_in (pinned address allowed e) = allowed
verdict_in (unresolvable e) = false
verdict_in value_error = false

abbrev is_pinned : Pinned → Bool
is_pinned (pinned address allowed e) = true
is_pinned (unresolvable e) = false
is_pinned value_error = false

never_pinned :
    {p q : Pinned} {address : Text} {allowed : Bool} {e : Engine}
    → p ≡ q
    → p ≡ pinned address allowed e
    → is_pinned q ≡ false
    → ⊥
never_pinned same h un = absurd (ground (arith, sym un ∙ ap is_pinned (sym same ∙ h)))

pin-Sound :
    (env : Environment)
    → IsLawful env
    → (at_check : Resolver) (now : ℕ) (plugin_id task_id target address : Text) (ip : Address)
    → (e : Engine) → env.ip_address address ≡ some ip
    → has_char b'%' address ≡ false
    → verdict_in (pin env at_check now plugin_id task_id target address e) ≡ permitted now ip e
unfolding pin locate
pin-Sound env law at_check now plugin_id task_id target address ip e q plain =
    check_access-permitted env at_check now _ e
    ∙ ap (λ t. permitted_at now e (address_of (locate env at_check t)))
        (target_host-address env law address ip q plain)
    ∙ ap (λ l. permitted_at now e (address_of l)) here
  where
    here : locate env at_check address ≡ literal ip
    here = rw (locate, q) refl

-- Whatever the resolver answers when the pinned address is checked, the verdict is that of the rules on
-- the pinned address itself, which was read or resolved once: an answer that changes between the two
-- moments changes nothing. The pinned address carries no zone.
pub resolve_and_pin-Sound :
    (env : Environment)
    → IsLawful env
    → (at_pin at_check : Resolver) (now : ℕ) (target plugin_id task_id address : Text)
    → (allowed : Bool) (e e' : Engine)
    → resolve_and_pin env at_pin at_check now target plugin_id task_id e ≡ pinned address allowed e'
    → has_char b'%' address ≡ false
    → Sound env now e address allowed
unfolding pin resolve_and_pin
resolve_and_pin-Sound env law at_pin at_check now target plugin task address allowed e e' h plain =
    split (env.ip_address target) refl
  where
    finish :
        (a : Text) (ip : Address)
        → resolve_and_pin env at_pin at_check now target plugin task e
          ≡ pin env at_check now plugin task target a e
        → env.ip_address a ≡ some ip
        → Sound env now e address allowed
    finish a ip same q =
        let r = sym same ∙ h in
        let q' = subst (λ t. env.ip_address t ≡ some ip) (ap address_in r) q in
        (
          ip,
          q',
          sym (ap verdict_in r)
              ∙ pin-Sound env law at_check now plugin task target a ip e q
                  (subst (λ t. has_char b'%' t ≡ false) (sym (ap address_in r)) plain),
        )

    answered :
        (o : Option Text)
        → at_pin target ≡ o
        → env.ip_address target ≡ none
        → Sound env now e address allowed
    answered none s q =
        absurd (never_pinned {q = unresolvable e} (rw (resolve_and_pin, q, s) refl) h refl)
    answered (some a) s q = read (env.ip_address a) refl
      where
        read : (o : Option Address) → env.ip_address a ≡ o → Sound env now e address allowed
        read none r =
            absurd (never_pinned {q = value_error} (rw (resolve_and_pin, q, s, r) refl) h refl)
        read (some ip) r = finish a ip (rw (resolve_and_pin, q, s, r) refl) r

    split : (o : Option Address) → env.ip_address target ≡ o → Sound env now e address allowed
    split none q = answered (at_pin target) refl q
    split (some ip) q =
        finish (env.str_address ip) ip (rw (resolve_and_pin, q) refl) (law.read_back ip)
