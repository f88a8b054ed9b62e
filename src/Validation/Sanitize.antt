-- ===== src/Validation/Sanitize.antt =====
-- `sanitize_input`, `is_safe_path` and `validate_preset_name`.
pub mod Clean
use secu_scan.Prelude.{
  ℕ, Bool, true, false, not, Option, none, some, List, [], ◌∷◌, map, ◌==◌, if◌then◌else◌, filter,
  Text, strip, starts_with, text_in,
}

abbrev pub slash : ℕ → ℕ
slash c = if c == 92 then b'/' else c

-- `dangerous_chars`: `; | & $ \` ( ) < >`, line feed, carriage return, both quotes, `!`, tab and NUL
abbrev pub dangerous_chars : List ℕ
dangerous_chars =
    b';' ∷ b'|' ∷ b'&' ∷ b'$' ∷ 96 ∷ b'(' ∷ b')' ∷ b'<' ∷ b'>' ∷ 10 ∷ 13 ∷ 39 ∷ 34 ∷ b'!' ∷ 9 ∷ 0
    ∷ []

-- `value.replace(char, '')`
unfoldable pub remove_char : ℕ → Text → Text
remove_char char t = filter (λ c. not (c == char)) t

unfoldable pub remove_all : List ℕ → Text → Text
unfolding remove_char
remove_all [] t = t
remove_all (char ∷ chars) t = remove_all chars (remove_char char t)

-- `value.lstrip("-")`
unfoldable pub lstrip_dashes : Text → Text
lstrip_dashes [] = []
lstrip_dashes (c ∷ t) = let rest = lstrip_dashes t in if c == b'-' then rest else c ∷ t

unfoldable pub sanitize_input : Text → Text
unfolding remove_all lstrip_dashes
sanitize_input value = strip (lstrip_dashes (remove_all dangerous_chars (map slash value)))

-- `os.path`: `realpath` and `join`, `none` where one raises
unfoldable pub is_safe_path : (Text → Option Text) → (Text → Text → Text) → Text → Text → Bool
is_safe_path realpath join path base_dir = elim (realpath base_dir) [
  | none ↦ false
  | some real_base ↦ elim (realpath (join base_dir path)) [
    | none ↦ false
    | some real_path ↦ starts_with real_path real_base
  ]
]

-- `validate_preset_name` by the names of the presets
unfoldable pub validate_preset_name : Option Text → Option (List Text) → Bool
validate_preset_name none presets = true
validate_preset_name (some preset) presets = elim preset [
  | [] ↦ true
  | c ∷ t ↦ elim presets [ none ↦ false | some available ↦ text_in (c ∷ t) available ]
]
