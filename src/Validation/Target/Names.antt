-- ===== src/Validation/Target/Names.antt =====
-- What safe mode lets through of host names.
use secu_scan.Prelude.{
  ◌≡◌, refl, sym, ap, ◌∙◌, ◌≢◌, true, Option, List, [], ◌++◌, arith, All, Text, lower,
}
use secu_scan.NetworkPolicy.Host.{Address}
use secu_scan.Validation.Dns.{DnsCache, unseen, resolve_host_ips, resolve_host_ips_uncached}
use secu_scan.Validation.Target.{
  Validity, valid, invalid, Outside, validate_resolved_ips_safe_mode, is_hostname, rebind_check,
  validate_resolved, validate_hostname, blocked_tlds, first_tld,
}
use secu_scan.Validation.Target.Safe.{
  IsSafe, is_valid, unseen-All, All-append_right, resolved-IsSafe,
}

-- The addresses that the name stands for at the first resolution, and at the second, fresh one
abbrev pub first_ips : Outside → Text → DnsCache → List Address
first_ips o hostname dns =
    (resolve_host_ips o.settings o.library.environment o.answers o.now hostname dns).0

abbrev pub second_ips : Outside → Text → DnsCache → List Address
second_ips o hostname dns =
    (resolve_host_ips_uncached o.settings o.library.environment o.answers_later o.later hostname
      (resolve_host_ips o.settings o.library.environment o.answers o.now hostname dns).1).0

abbrev pub IsSafeHost : Outside → Text → DnsCache → Type 0
IsSafeHost o hostname dns =
    (is_hostname hostname ≡ true)
    × (first_ips o hostname dns ≢ [])
    × All (IsSafe o.settings o.library) (first_ips o hostname dns)
    × (o.settings.dns_rebind_check ≡ true
        → All (IsSafe o.settings o.library) (second_ips o hostname dns))

rebind_check-IsSafe :
    (o : Outside) (hostname : Text) (ips : List Address) (dns : DnsCache)
    → (rebind_check o hostname ips dns).0 ≡ valid
    → o.settings.dns_rebind_check ≡ true
    → All
        (IsSafe o.settings o.library)
        (resolve_host_ips_uncached o.settings o.library.environment o.answers_later o.later hostname
          dns).0
unfolding rebind_check
rebind_check-IsSafe o hostname ips dns h on =
    let ips' =
      (resolve_host_ips_uncached o.settings o.library.environment o.answers_later o.later hostname
        dns).0 in
    All-append_right (IsSafe o.settings o.library) ips ips' (
      unseen-All (IsSafe o.settings o.library) [] (ips ++ ips') tt
        (resolved-IsSafe o.settings o.library (unseen [] (ips ++ ips')) (ground (arith, h, on))).1)

validate_resolved-IsSafe :
    (o : Outside) (hostname : Text) (dns : DnsCache)
    → (validate_resolved o hostname dns).0 ≡ valid
    → (first_ips o hostname dns ≢ [])
      × All (IsSafe o.settings o.library) (first_ips o hostname dns)
      × (o.settings.dns_rebind_check ≡ true
          → All (IsSafe o.settings o.library) (second_ips o hostname dns))
unfolding validate_resolved
validate_resolved-IsSafe o hostname dns h =
    split (validate_resolved_ips_safe_mode o.settings o.library (first_ips o hostname dns)) refl
  where
    dns' : DnsCache
    dns' = (resolve_host_ips o.settings o.library.environment o.answers o.now hostname dns).1

    then_valid :
        {v : Validity}
        → validate_resolved_ips_safe_mode o.settings o.library (first_ips o hostname dns) ≡ v
        → validate_resolved o hostname dns ≡ elim v [
          | valid ↦ rebind_check o hostname (first_ips o hostname dns) dns'
          | invalid reason ↦ (invalid reason, dns')
        ]
    then_valid q = rw (q, validate_resolved) refl

    split :
        (v : Validity)
        → validate_resolved_ips_safe_mode o.settings o.library (first_ips o hostname dns) ≡ v
        → (first_ips o hostname dns ≢ [])
          × All (IsSafe o.settings o.library) (first_ips o hostname dns)
          × (o.settings.dns_rebind_check ≡ true
              → All (IsSafe o.settings o.library) (second_ips o hostname dns))
    split valid q =
        let (some_ip, safe) = resolved-IsSafe o.settings o.library (first_ips o hostname dns) q in
        (
          some_ip,
          safe,
          rebind_check-IsSafe o hostname (first_ips o hostname dns) dns'
              (sym (ap {A = Validity × DnsCache} (λ x. x.0) (then_valid q)) ∙ h),
        )
    split (invalid reason) q = absurd (
        ground
          (arith, ap is_valid (sym (ap {A = Validity × DnsCache} (λ x. x.0) (then_valid q)) ∙ h)))

pub validate_hostname-IsSafe :
    (o : Outside) (hostname : Text) (dns : DnsCache)
    → (validate_hostname o hostname true dns).0 ≡ valid
    → IsSafeHost o hostname dns
unfolding validate_hostname
validate_hostname-IsSafe o hostname dns h =
    let (some_ip, safe, later) =
      validate_resolved-IsSafe o hostname dns
        (resolves (first_tld (lower hostname) blocked_tlds) refl) in
    (named, some_ip, safe, later)
  where
    named : is_hostname hostname ≡ true
    named = ground (arith, ap is_valid h)

    resolves :
        (t : Option Text)
        → first_tld (lower hostname) blocked_tlds ≡ t
        → (validate_resolved o hostname dns).0 ≡ valid
    resolves t q = ground (arith, h, ap is_valid h, named, q)
