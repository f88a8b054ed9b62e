-- ===== src/Prelude/Decimal.antt =====
-- `str(n)` of a natural number, in decimal, and its inverse.
use Prim.Native.Nat.{ℕ, zero, suc, ◌+◌, ◌-◌, ◌*◌, ◌/◌, ◌%◌, ◌<◌}
use mathlib.Core.Path.{◌≡◌, refl, ap, sym, ◌∙◌}
use mathlib.Core.Bool.{false}
use mathlib.Core.List.{[], ◌∷◌, ◌++◌}
use native.Mathlib.Omega.{arith}
use secu_scan.Prelude.Tests.{ltb, if◌then◌else◌}
use secu_scan.Prelude.Texts.{Text, has_char}

-- The digits of `n`, of which there are at most as many as the fuel.
unfoldable pub show_fuel : ℕ → ℕ → Text
show_fuel zero n = []
show_fuel (suc f) n =
    let more = show_fuel f (n / 10) ++ (48 + n % 10) ∷ [] in
    if ltb n 10 then (48 + n) ∷ [] else more

unfoldable pub show : ℕ → Text
unfolding show_fuel
show n = show_fuel (suc n) n

unfoldable pub read_from : ℕ → Text → ℕ
read_from acc [] = acc
read_from acc (c ∷ s) = read_from (acc * 10 + (c - 48)) s

pub read_from-append :
    (acc d : ℕ) (s : Text) → read_from acc (s ++ (48 + d) ∷ []) ≡ read_from acc s * 10 + d
unfolding read_from
read_from-append acc d [] = omega arith
read_from-append acc d (c ∷ s) = read_from-append (acc * 10 + (c - 48)) d s

-- Fuel above `n` shows `n` whole.
pub read_from-show_fuel : (f n : ℕ) → n < f → read_from 0 (show_fuel f n) ≡ n
unfolding read_from show_fuel
read_from-show_fuel zero n h = absurd (omega arith)
read_from-show_fuel (suc f) n h =
    ground
      (arith, read_from-append 0 (n % 10) (show_fuel f (n / 10)), read_from-show_fuel f (n / 10))

pub show-injective : (m n : ℕ) → show m ≡ show n → m ≡ n
unfolding show
show-injective m n e =
    sym (read_from-show_fuel (suc m) m (omega arith))
    ∙ ap (read_from 0) e
    ∙ read_from-show_fuel (suc n) n (omega arith)

has_char-snoc :
    (c d : ℕ) (s : Text) → has_char c s ≡ false → d < c → has_char c (s ++ d ∷ []) ≡ false
unfolding has_char
has_char-snoc c d [] h lt = ground arith
has_char-snoc c d (x ∷ s) h lt = ground (arith, has_char-snoc c d s)

show_fuel-no_colon : (f n : ℕ) → has_char b':' (show_fuel f n) ≡ false
unfolding show_fuel has_char
show_fuel-no_colon zero n = refl
show_fuel-no_colon (suc f) n =
    ground (
      arith,
      has_char-snoc b':' (48 + n % 10) (show_fuel f (n / 10)) (show_fuel-no_colon f (n / 10)),
    )

pub show-no_colon : (n : ℕ) → has_char b':' (show n) ≡ false
unfolding show
show-no_colon n = show_fuel-no_colon (suc n) n
