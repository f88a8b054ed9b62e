-- ===== src/Prelude/Texts.antt =====
-- Python's `str` as a list of code points: comparison, prefixes and suffixes, `strip` and `lower`.
use Prim.Native.Nat.{ℕ, ◌+◌}
use Prim.Native.Char.{code}
use Prim.Native.String.{String}
use mathlib.Core.Path.{◌≡◌, refl, ap, subst}
use mathlib.Core.Logic.{◌↔◌}
use mathlib.Core.Bool.{Bool, true, false, ◌||◌, ◌&&◌}
use mathlib.Core.List.{List, [], ◌∷◌, ◌++◌, map, reverse}
use native.Mathlib.Omega.{arith}
use secu_scan.Prelude.Tests.{◌==◌, leb, if◌then◌else◌}

abbrev pub Text : Type 0
Text = List ℕ

abbrev pub codes : String → Text
codes String.[] = []
codes (String.◌∷◌ c s) = code c ∷ codes s

-- `a == b` on texts
unfoldable pub text_eq : Text → Text → Bool
text_eq [] [] = true
text_eq [] (y ∷ ys) = false
text_eq (x ∷ xs) [] = false
text_eq (x ∷ xs) (y ∷ ys) = (x == y) && text_eq xs ys

text_eq→eq : (a b : Text) → text_eq a b ≡ true → a ≡ b
unfolding text_eq
text_eq→eq [] [] h = refl
text_eq→eq (x ∷ xs) (y ∷ ys) h = ground (arith, text_eq→eq xs ys)
text_eq→eq [] (y ∷ ys) h = ground arith
text_eq→eq (x ∷ xs) [] h = ground arith

pub text_eq_refl : (a : Text) → text_eq a a ≡ true
unfolding text_eq
text_eq_refl [] = refl
text_eq_refl (x ∷ xs) = ground (arith, text_eq_refl xs)

pub text_eq_iff : (a b : Text) → (text_eq a b ≡ true) ↔ (a ≡ b)
text_eq_iff a b = (text_eq→eq a b, λ e. subst (λ x. text_eq a x ≡ true) e (text_eq_refl a))

-- `c.isspace()`, of which `strip` takes the characters
unfoldable pub is_space : ℕ → Bool
is_space c =
    (leb 9 c && leb c 13)
    || (leb 28 c && leb c 32)
    || c == 133
    || c == 160
    || c == 5760
    || (leb 8192 c && leb c 8202)
    || c == 8232
    || c == 8233
    || c == 8239
    || c == 8287
    || c == 12288

unfoldable pub lstrip : Text → Text
lstrip [] = []
lstrip (c ∷ s) = let rest = lstrip s in if is_space c then rest else c ∷ s

-- `s.strip()`
unfoldable pub strip : Text → Text
unfolding lstrip is_space
strip s = reverse (lstrip (reverse (lstrip s)))

lower_char : ℕ → ℕ
lower_char c = if leb b'A' c && leb c b'Z' then c + 32 else c

-- `s.lower()` on ASCII text
unfoldable pub lower : Text → Text
unfolding lower_char
lower s = map lower_char s

-- `s.startswith(p)`
unfoldable pub starts_with : Text → Text → Bool
starts_with s [] = true
starts_with [] (y ∷ p) = false
starts_with (x ∷ s) (y ∷ p) = (x == y) && starts_with s p

-- `s.endswith(p)`
unfoldable pub ends_with : Text → Text → Bool
unfolding text_eq
ends_with [] p = text_eq [] p
ends_with (x ∷ s) p = text_eq (x ∷ s) p || ends_with s p

-- `c in s` for one character
unfoldable pub has_char : ℕ → Text → Bool
has_char c [] = false
has_char c (x ∷ s) = c == x || has_char c s

-- `t in xs` for a list, a tuple or a set of texts
unfoldable pub text_in : Text → List Text → Bool
text_in t [] = false
text_in t (x ∷ xs) = text_eq t x || text_in t xs

pub ends_with-append : (s p : Text) → ends_with (s ++ p) p ≡ true
unfolding ends_with
ends_with-append [] [] = refl
ends_with-append [] (y ∷ p) = ground (arith, text_eq_refl (y ∷ p))
ends_with-append (x ∷ s) p = ground (arith, ends_with-append s p)

has_char-append : (c : ℕ) (s t : Text) → has_char c (s ++ c ∷ t) ≡ true
unfolding has_char
has_char-append c [] t = ground arith
has_char-append c (x ∷ s) t = ground (arith, has_char-append c s t)

tail_eq : {x y : ℕ} {s t : Text} → x ∷ s ≡ y ∷ t → s ≡ t
tail_eq e = cc

-- Two texts joined by a separator that the second part does not hold are taken apart in one way.
pub split_last_unique :
    (sep : ℕ) (a b p q : Text)
    → has_char sep p ≡ false
    → has_char sep q ≡ false
    → a ++ sep ∷ p ≡ b ++ sep ∷ q
    → (a ≡ b) × (p ≡ q)
split_last_unique sep [] [] p q hp hq e = (refl, tail_eq e)
split_last_unique sep [] (y ∷ b) p q hp hq e = absurd (held (tail_eq e))
  where
    held : p ≡ b ++ sep ∷ q → ⊥
    held h = cc (ap (has_char sep) h, has_char-append sep b q)
split_last_unique sep (x ∷ a) [] p q hp hq e = absurd (held (tail_eq e))
  where
    held : a ++ sep ∷ p ≡ q → ⊥
    held h = cc (ap (has_char sep) h, has_char-append sep a p)
split_last_unique sep (x ∷ a) (y ∷ b) p q hp hq e =
    let rest = split_last_unique sep a b p q hp hq (tail_eq e) in (cc (rest.0), rest.1)
