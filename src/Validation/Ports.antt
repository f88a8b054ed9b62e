-- ===== src/Validation/Ports.antt =====
-- `validate_port` and `validate_port_range`.
pub mod Printed
use secu_scan.Prelude.{
  is_digit_char, ℕ, ◌+◌, ◌-◌, ◌*◌, ◌||◌, Option, none, some, List, [], ◌∷◌, ltb, ◌==◌,
  if◌then◌else◌, Text, strip, has_char,
}
use secu_scan.Ratelimit.Identity.{split_on}

pub data PortReason : Type 0 where
  out_of_range reversed bad_range bad_number bad_port : PortReason

pub data PortValidity : Type 0 where
  port_valid : PortValidity
  port_invalid : PortReason → PortValidity

-- `validate_port` of an `int` that is not negative; a negative one is out of range as 0 is
unfoldable pub validate_port : ℕ → PortValidity
validate_port port = if ltb port 1 || ltb 65535 port then port_invalid out_of_range else port_valid

-- Decimal digits, between which single underscores may stand
unfoldable pub read_digits : ℕ → Text → Option ℕ
read_digits acc [] = none
read_digits acc (c ∷ []) = if is_digit_char c then some (acc * 10 + (c - 48)) else none
read_digits acc (c ∷ d ∷ t) =
    let next = read_digits (acc * 10 + (c - 48)) (d ∷ t) in
    let over = read_digits (acc * 10 + (c - 48)) t in
    if is_digit_char c then if d == b'_' then over else next else none

-- `int(s)` on an ASCII text without a minus sign, `none` where it raises `ValueError`
unfoldable pub int : Text → Option ℕ
int s = elim (strip s) [
  | [] ↦ none
  | c ∷ t ↦ if c == b'+' then read_digits 0 t else read_digits 0 (c ∷ t)
]

-- The branch for a text with a hyphen and no comma
abbrev check_bounds : ℕ → ℕ → PortValidity
check_bounds start end =
    if ltb end start then port_invalid reversed else elim (validate_port start) [
      | port_valid ↦ validate_port end
      | port_invalid reason ↦ port_invalid reason
    ]

unfoldable pub validate_hyphen : Text → PortValidity
validate_hyphen t = elim (split_on b'-' t) [
  | [] ↦ port_invalid bad_range
  | a ∷ r ↦ elim r [
    | [] ↦ port_invalid bad_range
    | b ∷ r' ↦ elim r' [
      | [] ↦ elim (int a) [
        | none ↦ port_invalid bad_range
        | some start ↦ elim (int b) [
          | none ↦ port_invalid bad_range
          | some end ↦ check_bounds start end
        ]
      ]
      | c ∷ r'' ↦ port_invalid bad_range
    ]
  ]
]

-- `int(s)` and then `validate_port`
unfoldable pub validate_number : PortReason → Text → PortValidity
validate_number reason t = elim (int t) [ none ↦ port_invalid reason | some n ↦ validate_port n ]

-- `validate_port_range` of a text without a comma
unfoldable pub validate_part : Text → PortValidity
validate_part t = if has_char b'-' t then validate_hyphen t else validate_number bad_port t

-- The loop over the parts. The call of `validate_port_range` is on a part, which has no comma.
unfoldable pub validate_parts : List Text → PortValidity
validate_parts [] = port_valid
validate_parts (part ∷ parts) =
    let rest = validate_parts parts in
    let t = strip part in
    elim (if has_char b'-' t then validate_part t else validate_number bad_number t) [
      | port_valid ↦ rest
      | port_invalid reason ↦ port_invalid reason
    ]

unfoldable pub validate_port_range : Text → PortValidity
validate_port_range port_range =
    if has_char b',' port_range
    then validate_parts (split_on b',' port_range)
    else validate_part port_range
