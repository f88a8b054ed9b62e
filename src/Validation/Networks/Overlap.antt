-- ===== src/Validation/Networks/Overlap.antt =====
-- What the tests on networks say of the addresses inside.
use secu_scan.Prelude.{
  ℕ, zero, suc, ◌+◌, ◌-◌, ◌*◌, ◌/◌, ◌%◌, ◌^◌, ◌≤◌, ◌<◌, ◌≡◌, refl, sym, ◌∙◌, subst, true, false,
  ◌||◌, List, [], ◌∷◌, arith, any,
}
use secu_scan.NetworkPolicy.Host.{Version, v4, v6, bits, same_version, Address, Network, contains}
use secu_scan.Validation.Networks.{
  network_address, broadcast_address, single, overlaps, subnet_of, blocked_networks,
  allowed_private, is_blocked, is_private,
}
use native.Mathlib.Nat.{
  one-le-pow, div-div-eq-div-mul, pow-suc, mul_assoc, zero-add, div-one, one-le-pow,
  div-eq_of_lt-le, div-add-mod',
}
use native.Mathlib.Decide.{dec_le}

pow_split : (d p : ℕ) → 2 ^ (d + p) ≡ 2 ^ p * 2 ^ d
pow_split zero p = rw zero-add (omega arith)
pow_split (suc d) p =
    let e : suc d + p ≡ suc (d + p) = omega arith in
    rw (e, pow-suc 2 (d + p), pow_split d p, pow-suc 2 d) (mul_assoc (2 ^ p) (2 ^ d) 2)

-- The bits under a long prefix determine the bits under a shorter one.
shorter : (a d x m : ℕ) → x / 2 ^ a ≡ m / 2 ^ a → x / 2 ^ (d + a) ≡ m / 2 ^ (d + a)
shorter a d x m h =
    rw
      (
        pow_split d a,
        ← div-div-eq-div-mul x (2 ^ a) (2 ^ d),
        ← div-div-eq-div-mul m (2 ^ a) (2 ^ d),
        h,
      )
      refl

-- Of two networks that hold one address, the one with the shorter prefix holds the first address of
-- the other.
nested :
    (a b x m n : ℕ) → a ≤ b → x / 2 ^ a ≡ m / 2 ^ a → x / 2 ^ b ≡ n / 2 ^ b → m / 2 ^ b ≡ n / 2 ^ b
nested a b x m n le hm hn =
    let e : b - a + a ≡ b = omega arith in
    let low = shorter a (b - a) x m hm in sym (subst (λ k. x / 2 ^ k ≡ m / 2 ^ k) e low) ∙ hn

same_version-common :
    (u v w : Version)
    → same_version u v ≡ true
    → same_version u w ≡ true
    → (same_version v w ≡ true) × (same_version w v ≡ true)
same_version-common v4 v4 v4 h k = (refl, refl)
same_version-common v6 v6 v6 h k = (refl, refl)
same_version-common v4 v4 v6 h k = cc
same_version-common v4 v6 w h k = cc
same_version-common v6 v6 v4 h k = cc
same_version-common v6 v4 w h k = cc

-- Two networks that do not overlap have no address in common.
pub overlaps-disjoint :
    (net other : Network) (ip : Address)
    → overlaps net other ≡ false
    → contains net ip ≡ true
    → contains other ip ≡ false
unfolding overlaps contains network_address broadcast_address
overlaps-disjoint net other ip apart inside =
    elim (dec_le (bits net.family - net.prefix) (bits other.family - other.prefix)) [
      | yes h ↦ ground (
        arith,
        same_version-common ip.version net.family other.family,
        nested (bits net.family - net.prefix) (bits other.family - other.prefix) ip.value net.base
            other.base h,
      )
      | no h ↦ ground (
        arith,
        same_version-common ip.version net.family other.family,
        nested (bits other.family - other.prefix) (bits net.family - net.prefix) ip.value other.base
            net.base (omega arith),
      )
    ]

pub any-overlaps-disjoint :
    (net : Network) (ip : Address) (others : List Network)
    → any (overlaps net) others ≡ false
    → contains net ip ≡ true
    → any (λ other. contains other ip) others ≡ false
any-overlaps-disjoint net ip [] h inside = refl
any-overlaps-disjoint net ip (other ∷ others) h inside =
    ground (arith, overlaps-disjoint net other ip, any-overlaps-disjoint net ip others)

-- A network that is not blocked holds no address of a blocked network.
pub is_blocked-disjoint :
    (net : Network) (ip : Address)
    → is_blocked net ≡ false
    → contains net ip ≡ true
    → any (λ blocked. contains blocked ip) blocked_networks ≡ false
unfolding is_blocked
is_blocked-disjoint net ip h inside = any-overlaps-disjoint net ip blocked_networks h inside

abbrev v4_address : ℕ → Address
v4_address n = record { version = v4; value = n }

-- The numbers of an aligned block are those with the block's quotient.
div_range : (m n base : ℕ) → 0 < m → base % m ≡ 0 → base ≤ n → n ≤ base + (m - 1) → n / m ≡ base / m
div_range m n base pos aligned lo hi =
    let e = div-add-mod' base m in
    div-eq_of_lt-le m (omega (arith, e))
      (subst (λ k. n < k) (sym (add_mul_lem (base / m) m)) (omega (arith, e)))
  where
    add_mul_lem : (q m : ℕ) → (q + 1) * m ≡ q * m + m
    add_mul_lem q m = grind arith

-- Of one of the private ranges, where a single address lies in it or overlaps with it.
in_range :
    (n base prefix : ℕ)
    → base % 2 ^ (32 - prefix) ≡ 0
    → (subnet_of (single (v4_address n)) (record { family = v4; base = base; prefix = prefix })
        || overlaps (single (v4_address n)) (record { family = v4; base = base; prefix = prefix }))
      ≡ true
    → contains (record { family = v4; base = base; prefix = prefix }) (v4_address n) ≡ true
unfolding single subnet_of overlaps contains network_address broadcast_address
in_range n base prefix aligned h =
    let pos : 0 < 2 ^ (32 - prefix) = one-le-pow (32 - prefix) 2 (omega arith) in
    let q : n / 2 ^ (32 - prefix) ≡ base / 2 ^ (32 - prefix) = ground (
      arith,
      div-one n,
      div-one base,
      div-one (base + (2 ^ (32 - prefix) - 1)),
      div_range (2 ^ (32 - prefix)) n base pos aligned,
    ) in
    rw q (ground arith)

-- A single address that passes for private lies in one of the private ranges.
pub is_private-contains :
    (ip : Address)
    → is_private (single ip) ≡ true
    → any (λ allowed. contains allowed ip) allowed_private ≡ true
unfolding is_private single
is_private-contains ip h = split ip.version ip.value h
  where
    split :
        (v : Version) (n : ℕ)
        → is_private (single (record { version = v; value = n })) ≡ true
        → any (λ allowed. contains allowed (record { version = v; value = n })) allowed_private
          ≡ true
    split v4 n h = ground (
      arith,
      h,
      in_range n 167772160 8 refl,
      in_range n 2886729728 12 refl,
      in_range n 3232235520 16 refl,
      in_range n 2130706432 8 refl,
    )
    split v6 n h = absurd (ground (arith, h))

pub single-contains : (ip : Address) → contains (single ip) ip ≡ true
unfolding contains single
single-contains ip = split ip.version refl
  where
    split : (v : Version) → ip.version ≡ v → contains (single ip) ip ≡ true
    split v4 q = rw q (ground arith)
    split v6 q = rw q (ground arith)
