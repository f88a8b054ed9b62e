-- ===== src/Plugins/Template.antt =====
-- The rendering of command templates: `_interpolate`, `_evaluate_conditional_token` and
-- `_render_command_tokens`.
pub mod Kept
use secu_scan.Prelude.{
  ℕ, ◌+◌, ◌-◌, Bool, true, false, not, ◌&&◌, Option, none, some, List, [], ◌∷◌, ◌++◌, map, ◌==◌,
  if◌then◌else◌, all, take, drop, Text, codes, text_eq, lower, starts_with, has_char, Dict, lookup,
}
use secu_scan.Ratelimit.Identity.{split_on}
use secu_scan.Validation.Sanitize.{sanitize_input}
use secu_scan.Plugins.{InputValue, nothing, str, truth, other, printed, is_blank}

-- What `re.sub` finds in a token: a character that stays, or a variable with the default that its
-- placeholder gives.
pub data Piece : Type 0 where
  char : ℕ → Piece
  variable : Text → Option Text → Piece

-- Where the search for `{name}` or `{name:default}` is: outside, behind `{` and part of a name, or behind
-- `{name:` and part of a default.
pub data Search : Type 0 where
  outside : Search
  in_name : Text → Search
  in_default : Text → Text → Search

-- The text that the search has read and not yet given out.
unfoldable pub pending : Search → Text
pending outside = []
pending (in_name name) = b'{' ∷ name
pending (in_default name t) = b'{' ∷ name ++ b':' ∷ t

abbrev pub is_empty : Text → Bool
is_empty [] = true
is_empty (c ∷ t) = false

-- Behind `{` and a name, a character that is no part of a name
unfoldable pub end_name : Text → ℕ → List Piece × Search
unfolding pending
end_name name c =
    if c == b'}' && not (is_empty name)
    then (variable name none ∷ [], outside)
    else if c == b':' && not (is_empty name)
    then ([], in_default name [])
    else if c == b'{'
    then (map char (pending (in_name name)), in_name [])
    else (map char (pending (in_name name) ++ c ∷ []), outside)

-- The next character
unfoldable pub read_char : (ℕ → Bool) → Search → ℕ → List Piece × Search
unfolding end_name pending
read_char is_word outside c = if c == b'{' then ([], in_name []) else (char c ∷ [], outside)
read_char is_word (in_name name) c =
    if is_word c then ([], in_name (name ++ c ∷ [])) else end_name name c
read_char is_word (in_default name t) c =
    if c == b'}'
    then if is_empty t
      then (map char (pending (in_default name t) ++ c ∷ []), outside)
      else (variable name (some t) ∷ [], outside)
    else ([], in_default name (t ++ c ∷ []))

unfoldable pub pieces_from : (ℕ → Bool) → Search → Text → List Piece
unfolding read_char pending
pieces_from is_word s [] = map char (pending s)
pieces_from is_word s (c ∷ t) =
    let (ps, s') = read_char is_word s c in ps ++ pieces_from is_word s' t

-- `inputs.get(var_name, actual_default)`
unfoldable pub value_of : Dict InputValue → Text → Option Text → InputValue
value_of inputs name default_value = elim (lookup name inputs) [
  | some value ↦ value
  | none ↦ elim default_value [ none ↦ nothing | some t ↦ str t ]
]

-- The first loop of `_interpolate`: no variable is without a value.
unfoldable pub has_value : Dict InputValue → Piece → Bool
unfolding is_blank value_of
has_value inputs (char c) = true
has_value inputs (variable name default_value) = not (is_blank (value_of inputs name default_value))

-- `_replacer`, and the characters that stay
unfoldable pub replace : Dict InputValue → List Piece → Text
unfolding value_of printed
replace inputs [] = []
replace inputs (char c ∷ ps) = c ∷ replace inputs ps
replace inputs (variable name default_value ∷ ps) =
    sanitize_input (printed (value_of inputs name default_value)) ++ replace inputs ps

-- `_interpolate`
unfoldable pub interpolate : (ℕ → Bool) → Text → Dict InputValue → Option Text
unfolding has_value replace pieces_from
interpolate is_word token inputs =
    let ps = pieces_from is_word outside token in
    if has_char b'{' token && has_char b'}' token
    then if all (has_value inputs) ps then some (replace inputs ps) else none
    else some token

-- The arguments that a list of parts gives: those that are interpolated and not empty.
unfoldable pub render_parts : (ℕ → Bool) → Dict InputValue → List Text → List Text
unfolding interpolate
render_parts is_word inputs [] = []
render_parts is_word inputs (part ∷ parts) =
    let rest = render_parts is_word inputs parts in
    elim (interpolate is_word part inputs) [
      | none ↦ rest
      | some t ↦ if is_empty t then rest else t ∷ rest
    ]

-- `parts.index(t)`
unfoldable pub index_of : Text → List Text → Option ℕ
index_of t [] = none
index_of t (s ∷ ss) =
    let rest = index_of t ss in
    if text_eq t s then some 0 else elim rest [ none ↦ none | some i ↦ some (i + 1) ]

unfoldable pub is_true : InputValue → Bool
is_true nothing = false
is_true (str t) = not (is_empty t) && not (text_eq (lower t) (codes "false"))
is_true (truth b) = b
is_true (other t counts is_int) = counts

-- `condition` in `_evaluate_conditional_token`
unfoldable pub holds : Dict InputValue → Text → Bool
unfolding is_true
holds inputs name = elim (lookup name inputs) [ none ↦ false | some value ↦ is_true value ]

-- `active_parts`
unfoldable pub active_parts : Bool → List Text → List Text
unfolding index_of
active_parts condition parts = elim (index_of (codes "else") parts) [
  | some i ↦ if condition then take (i - 3) (drop 3 parts) else drop (i + 1) parts
  | none ↦ if condition then drop 3 parts else []
]

-- The parts of a conditional token, with the name of its condition, if it has the form
unfoldable pub conditional : List Text → Option Text
conditional [] = none
conditional (p0 ∷ []) = none
conditional (p0 ∷ p1 ∷ []) = none
conditional (p0 ∷ p1 ∷ p2 ∷ []) = none
conditional (p0 ∷ p1 ∷ p2 ∷ p3 ∷ ps) = if text_eq p2 (codes "then") then some p1 else none

-- `_evaluate_conditional_token`
unfoldable pub evaluate_conditional_token : (ℕ → Bool) → Text → Dict InputValue → List Text
unfolding render_parts active_parts conditional holds
evaluate_conditional_token is_word token inputs =
    let parts = split_on b':' token in
    elim (conditional parts) [
      | none ↦ []
      | some name ↦ render_parts is_word inputs (active_parts (holds inputs name) parts)
    ]

-- What one token of the template gives
unfoldable pub render_token : (ℕ → Bool) → Dict InputValue → Text → List Text
unfolding evaluate_conditional_token render_parts
render_token is_word inputs token =
    if starts_with token (codes "--if:")
    then evaluate_conditional_token is_word token inputs
    else render_parts is_word inputs (token ∷ [])

-- `_render_command_tokens`
unfoldable pub render_command_tokens : (ℕ → Bool) → List Text → Dict InputValue → List Text
unfolding render_token
render_command_tokens is_word [] inputs = []
render_command_tokens is_word (token ∷ tokens) inputs =
    render_token is_word inputs token ++ render_command_tokens is_word tokens inputs
