-- ===== src/Prelude/Plain.antt =====
-- Texts without spaces, and the digits of a number.
use Prim.Native.Nat.{ℕ, zero, suc, ◌+◌, ◌/◌, ◌%◌}
use mathlib.Core.Path.{◌≡◌, refl, ap, ◌∙◌}
use mathlib.Core.Bool.{Bool, true, false, not, ◌||◌, ◌&&◌}
use mathlib.Core.Logic.{inl, inr}
use mathlib.Core.List.{[], ◌∷◌, ◌++◌, reverse, reverse-cons, reverse-reverse}
use native.Mathlib.Omega.{arith}
use secu_scan.Prelude.Tests.{leb, ltb, ◌==◌, Bool-cases}
use secu_scan.Prelude.Lists.{all, all-append}
use secu_scan.Prelude.Texts.{Text, has_char, is_space, lstrip, strip}
use secu_scan.Prelude.Decimal.{show, show_fuel, read_from, read_from-show_fuel}

abbrev pub is_plain : Text → Bool
is_plain t = all (λ c. not (is_space c)) t

pub all-reverse : (p : ℕ → Bool) (t : Text) → all p (reverse t) ≡ all p t
all-reverse p [] = refl
all-reverse p (c ∷ t) =
    ap (all p) (reverse-cons c t)
    ∙ all-append p (reverse t) (c ∷ [])
    ∙ ground (arith, all-reverse p t)

lstrip-plain : (t : Text) → is_plain t ≡ true → lstrip t ≡ t
unfolding lstrip
lstrip-plain [] h = refl
lstrip-plain (c ∷ t) h = ground (arith, h)

pub strip-plain : (t : Text) → is_plain t ≡ true → strip t ≡ t
unfolding strip
strip-plain t h =
    ap (λ s. reverse (lstrip (reverse s))) (lstrip-plain t h)
    ∙ ap reverse (lstrip-plain (reverse t) (all-reverse (λ c. not (is_space c)) t ∙ h))
    ∙ reverse-reverse t

-- A digit of a number
abbrev pub is_digit_char : ℕ → Bool
is_digit_char c = leb b'0' c && leb c b'9'

show_fuel-digits : (f n : ℕ) → all is_digit_char (show_fuel f n) ≡ true
unfolding show_fuel
show_fuel-digits zero n = refl
show_fuel-digits (suc f) n = ground (
  arith,
  show_fuel-digits f (n / 10),
  all-append is_digit_char (show_fuel f (n / 10)) ((48 + n % 10) ∷ []),
)

pub show-digits : (n : ℕ) → all is_digit_char (show n) ≡ true
unfolding show
show-digits n = show_fuel-digits (suc n) n

-- What holds of each digit holds of each character of a number.
pub all_digits :
    (p : ℕ → Bool)
    → ((c : ℕ) → is_digit_char c ≡ true → p c ≡ true)
    → (t : Text) → all is_digit_char t ≡ true
    → all p t ≡ true
all_digits p h [] d = refl
all_digits p h (c ∷ t) d = ground (arith, h c, all_digits p h t)

pub has_char-all :
    (c : ℕ) (p : ℕ → Bool) → p c ≡ false → (t : Text) → all p t ≡ true → has_char c t ≡ false
unfolding has_char
has_char-all c p unlike [] h = refl
has_char-all c p unlike (d ∷ t) h = elim (Bool-cases (c == d)) [
  | inl same ↦
      let e : c ≡ d = ground arith in
      let kept : p d ≡ true = ground (arith, h) in cc (ap p e, unlike, kept)
  | inr other ↦ ground (arith, h, other, has_char-all c p unlike t)
]

pub has_char-join : (c : ℕ) (s t : Text) → has_char c (s ++ t) ≡ (has_char c s || has_char c t)
unfolding has_char
has_char-join c [] t = refl
has_char-join c (d ∷ s) t = ground (arith, has_char-join c s t)

pub read-show : (n : ℕ) → read_from 0 (show n) ≡ n
unfolding show
read-show n = read_from-show_fuel (suc n) n (omega arith)

snoc-cons : (s : Text) (d : ℕ) → (c : ℕ) × (t : Text) × (s ++ d ∷ [] ≡ c ∷ t)
snoc-cons [] d = (d, [], refl)
snoc-cons (c ∷ s) d = (c, s ++ d ∷ [], refl)

pub show-cons : (n : ℕ) → (c : ℕ) × (t : Text) × (show n ≡ c ∷ t)
unfolding show show_fuel
show-cons n = elim (Bool-cases (ltb n 10)) [
  | inl small ↦ (48 + n, [], rw small refl)
  | inr big ↦ let (c, t, e) = snoc-cons (show_fuel n (n / 10)) (48 + n % 10) in (c, t, rw big e)
]
