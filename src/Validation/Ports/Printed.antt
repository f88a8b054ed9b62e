-- ===== src/Validation/Ports/Printed.antt =====
-- `validate_port_range` on the texts of lists of ports.
use secu_scan.Prelude.{
  is_digit_char, is_plain, all-append, strip-plain, show-digits, all_digits, has_char-all,
  has_char-join, read-show, show-cons, read_from, show, ℕ, ◌+◌, ◌-◌, ◌*◌, ◌≡◌, refl, sym, ap, ◌∙◌,
  Bool, true, false, not, ◌&&◌, some, List, [], ◌∷◌, ◌++◌, map, arith, ltb, leb, if◌then◌else◌, all,
  Text, is_space, has_char,
}
use secu_scan.Ratelimit.Identity.{split_on, cons_head}
use secu_scan.Validation.Ports.{
  bad_number, bad_port, PortReason, PortValidity, port_valid, port_invalid, validate_port,
  read_digits, int, validate_hyphen, validate_number, validate_part, validate_parts,
  validate_port_range,
}

-- One port, or a range of ports.
pub data Ports : Type 0 where
  port : ℕ → Ports
  range : ℕ → ℕ → Ports

abbrev pub print_one : Ports → Text
print_one (port n) = show n
print_one (range a b) = show a ++ b'-' ∷ show b

-- `",".join(…)`
abbrev pub print : Ports → List Ports → Text
print p [] = print_one p
print p (q ∷ ps) = print_one p ++ b',' ∷ print q ps

abbrev is_port : ℕ → Bool
is_port n = ltb 0 n && ltb n 65536

-- Every port lies between 1 and 65535, and no range is reversed.
abbrev pub is_good : Ports → Bool
is_good (port n) = is_port n
is_good (range a b) = leb a b && is_port a && is_port b

module _ (c : ℕ) where
  pub split_on-plain : (s : Text) → has_char c s ≡ false → split_on c s ≡ s ∷ []
  unfolding split_on has_char cons_head
  split_on-plain [] h = refl
  split_on-plain (x ∷ s) h = ground (arith, split_on-plain s, h)

  pub split_on-join :
      (s t : Text) → has_char c s ≡ false → split_on c (s ++ c ∷ t) ≡ s ∷ split_on c t
  unfolding split_on has_char cons_head
  split_on-join [] t h = ground arith
  split_on-join (x ∷ s) t h = ground (arith, split_on-join s t, h)

abbrev OfDigits : (ℕ → Bool) → Type 0
OfDigits p = (c : ℕ) → is_digit_char c ≡ true → p c ≡ true

-- A number holds no comma, no hyphen and no space.
show-lacks : (c n : ℕ) → is_digit_char c ≡ false → has_char c (show n) ≡ false
show-lacks c n h = has_char-all c is_digit_char h (show n) (show-digits n)

digit-not_space : (c : ℕ) → is_digit_char c ≡ true → not (is_space c) ≡ true
unfolding is_space
digit-not_space c h = ground (arith, h)

show-is_plain : (n : ℕ) → is_plain (show n) ≡ true
show-is_plain n = all_digits (λ c. not (is_space c)) digit-not_space (show n) (show-digits n)

read_digits-digits :
    (acc c : ℕ) (t : Text)
    → all is_digit_char (c ∷ t) ≡ true
    → read_digits acc (c ∷ t) ≡ some (read_from acc (c ∷ t))
unfolding read_digits read_from
read_digits-digits acc c [] h = ground (arith, h)
read_digits-digits acc c (d ∷ t) h = ground (arith, h, read_digits-digits (acc * 10 + (c - 48)) d t)

-- `int(str(n)) == n`
pub int-show : (n : ℕ) → int (show n) ≡ some n
unfolding int
int-show n =
    let (c, t, e) = show-cons n in
    let digits = ap (all is_digit_char) (sym e) ∙ show-digits n in
    let value = ap (read_from 0) (sym e) ∙ read-show n in
    rw (strip-plain (show n) (show-is_plain n) ∙ e, int)
      (ground (arith, digits, read_digits-digits 0 c t digits, value))

abbrev pub is_port_valid : PortValidity → Bool
is_port_valid port_valid = true
is_port_valid (port_invalid reason) = false

validate_number-show :
    (n : ℕ) (reason : PortReason) → is_port_valid (validate_number reason (show n)) ≡ is_port n
unfolding validate_number validate_port
validate_number-show n reason = rw (int-show n, validate_number) (ground arith)

validate_hyphen-print :
    (a b : ℕ)
    → is_port_valid (validate_hyphen (show a ++ b'-' ∷ show b))
      ≡ (leb a b && is_port a && is_port b)
unfolding validate_hyphen validate_port
validate_hyphen-print a b =
    let parts : split_on b'-' (show a ++ b'-' ∷ show b) ≡ show a ∷ show b ∷ [] =
      split_on-join b'-' (show a) (show b) (show-lacks b'-' a refl)
      ∙ ap (λ r. show a ∷ r) (split_on-plain b'-' (show b) (show-lacks b'-' b refl)) in
    rw (parts, validate_hyphen, int-show a, int-show b) (ground arith)

hyphen-range : (a b : ℕ) → has_char b'-' (show a ++ b'-' ∷ show b) ≡ true
unfolding has_char
hyphen-range a b = has_char-join b'-' (show a) (b'-' ∷ show b) ∙ ground arith

validate_part-print : (x : Ports) → is_port_valid (validate_part (print_one x)) ≡ is_good x
unfolding validate_part
validate_part-print (port n) = rw (show-lacks b'-' n refl) (validate_number-show n bad_port)
validate_part-print (range a b) = rw (hyphen-range a b) (validate_hyphen-print a b)

print_one-no_comma : (x : Ports) → has_char b',' (print_one x) ≡ false
unfolding has_char
print_one-no_comma (port n) = show-lacks b',' n refl
print_one-no_comma (range a b) =
    has_char-join b',' (show a) (b'-' ∷ show b)
    ∙ ground (arith, show-lacks b',' a refl, show-lacks b',' b refl)

print_one-is_plain : (x : Ports) → is_plain (print_one x) ≡ true
unfolding is_space
print_one-is_plain (port n) = show-is_plain n
print_one-is_plain (range a b) =
    all-append (λ c. not (is_space c)) (show a) (b'-' ∷ show b)
    ∙ ground (arith, show-is_plain a, show-is_plain b)

split_on-print : (p : Ports) (ps : List Ports) → split_on b',' (print p ps) ≡ map print_one (p ∷ ps)
split_on-print p [] = split_on-plain b',' (print_one p) (print_one-no_comma p)
split_on-print p (q ∷ ps) =
    split_on-join b',' (print_one p) (print q ps) (print_one-no_comma p)
    ∙ ap (λ r. print_one p ∷ r) (split_on-print q ps)

-- A part of a list is read as it would be by itself.
part_of_list-print :
    (x : Ports)
    → is_port_valid (
        if has_char b'-' (print_one x)
        then validate_part (print_one x)
        else validate_number bad_number (print_one x))
      ≡ is_good x
part_of_list-print (port n) = rw (show-lacks b'-' n refl) (validate_number-show n bad_number)
part_of_list-print (range a b) = rw (hyphen-range a b) (validate_part-print (range a b))

validate_parts-print :
    (ps : List Ports) → is_port_valid (validate_parts (map print_one ps)) ≡ all is_good ps
unfolding validate_parts
validate_parts-print [] = refl
validate_parts-print (x ∷ ps) =
    rw (strip-plain (print_one x) (print_one-is_plain x), is_port_valid, validate_parts)
      (ground (arith, part_of_list-print x, validate_parts-print ps))

comma-print : (p q : Ports) (ps : List Ports) → has_char b',' (print p (q ∷ ps)) ≡ true
unfolding has_char
comma-print p q ps =
    has_char-join b',' (print_one p) (b',' ∷ print q ps) ∙ ground (arith, print_one-no_comma p)

-- `validate_port_range` on the text of any list of ports and ranges, joined by commas, accepts exactly
-- when every port lies between 1 and 65535 and no range is reversed.
pub validate_port_range-print :
    (p : Ports) (ps : List Ports)
    → is_port_valid (validate_port_range (print p ps)) ≡ all is_good (p ∷ ps)
unfolding validate_port_range
validate_port_range-print p [] =
    rw (print_one-no_comma p, validate_port_range) (ground (arith, validate_part-print p))
validate_port_range-print p (q ∷ ps) =
    rw (comma-print p q ps, validate_port_range, split_on-print p (q ∷ ps))
      (validate_parts-print (p ∷ q ∷ ps))
