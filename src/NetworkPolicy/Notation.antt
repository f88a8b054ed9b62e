-- ===== src/NetworkPolicy/Notation.antt =====
-- An environment that obeys what is documented of `ipaddress`.
use secu_scan.Prelude.{
  ℕ, ◌+◌, ◌-◌, ◌≤◌, ◌≡◌, refl, sym, subst, ◌⊎◌, inl, inr, false, Option, none, some, [], ◌∷◌, arith,
  ltb, ◌==◌, if◌then◌else◌, Text, codes, is_space, lstrip, strip, starts_with,
}
use mathlib.Core.Option.{none-ne-some}
use secu_scan.NetworkPolicy.Host.{
  Address, Version, v4, v6, Environment, has_scheme_mark, count_char,
}
use secu_scan.NetworkPolicy.Pinning.{IsLawful}

-- A notation for addresses that is read back: the version, and a character for the number.
abbrev pub read : Text → Option Address
read [] = none
read (c ∷ []) = none
read (c ∷ m ∷ []) =
    if ltb m 100_000
    then none
    else if c == b'4'
    then some (record { version = v4; value = m - 100_000 })
    else if c == b'6'
    then some (record { version = v6; value = m - 100_000 })
    else none
read (c ∷ m ∷ d ∷ t) = none

abbrev pub written : Version → ℕ → Text
written v4 n = b'4' ∷ (n + 100_000) ∷ []
written v6 n = b'6' ∷ (n + 100_000) ∷ []

abbrev pub notation : Environment
notation = record {
  ip_address = read;
  str_address = λ ip. written ip.version ip.value;
  ip_network = λ t. none;
  urlparse = λ t. none;
}

read-written : (v : Version) (n : ℕ) → read (written v n) ≡ some (record { version = v; value = n })
read-written v4 n = ground arith
read-written v6 n = ground arith

read_shape :
    (t : Text) (ip : Address)
    → read t ≡ some ip
    → (c : ℕ) × (m : ℕ) × (t ≡ c ∷ m ∷ []) × (100_000 ≤ m) × ((c ≡ b'4') ⊎ (c ≡ b'6'))
read_shape [] ip e = absurd (none-ne-some ip e)
read_shape (c ∷ []) ip e = absurd (none-ne-some ip e)
read_shape (c ∷ m ∷ []) ip e = (c, m, refl, ground (arith, e), ground (arith, e))
read_shape (c ∷ m ∷ d ∷ t) ip e = absurd (none-ne-some ip e)

-- What holds of the four notations of an address holds of what is read.
by_shape :
    (P : Text → Type 0)
    → ((m : ℕ) → 100_000 ≤ m → P (b'4' ∷ m ∷ []))
    → ((m : ℕ) → 100_000 ≤ m → P (b'6' ∷ m ∷ []))
    → (t : Text) (ip : Address) → read t ≡ some ip
    → P t
by_shape P four six t ip e =
    let (c, m, shape, big, kind) = read_shape t ip e in
    subst P (sym shape) (elim kind [
      | inl is ↦ subst (λ c. P (c ∷ m ∷ [])) (sym is) (four m big)
      | inr is ↦ subst (λ c. P (c ∷ m ∷ [])) (sym is) (six m big)
    ])

pub notation-IsLawful : IsLawful notation
unfolding strip has_scheme_mark starts_with count_char lstrip is_space
notation-IsLawful = record {
  read_back = λ ip. read-written ip.version ip.value;
  no_space = λ t ip e plain.
      by_shape (λ t. strip t ≡ t) (λ m big. ground (arith, big)) (λ m big. ground (arith, big)) t ip
        e;
  no_scheme = λ t ip e plain.
      by_shape (λ t. has_scheme_mark t ≡ false) (λ m big. ground (arith, big))
        (λ m big. ground (arith, big)) t ip e;
  no_bracket = λ t ip e plain.
      by_shape (λ t. starts_with t (codes "[") ≡ false) (λ m big. ground (arith, big))
        (λ m big. ground (arith, big)) t ip e;
  no_port = λ t ip e plain.
      by_shape (λ t. (count_char b':' t == 1) ≡ false) (λ m big. ground (arith, big))
        (λ m big. ground (arith, big)) t ip e;
}
