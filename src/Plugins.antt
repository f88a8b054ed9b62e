-- ===== src/Plugins.antt =====
-- The commands of plugins, `build_command` of backend/secuscan/plugins.py: the inputs and the fields they
-- are declared by.
pub mod Template
pub mod Schema
pub mod Command
use secu_scan.Prelude.{ℕ, Bool, true, false, Option, List, [], ◌∷◌, Text, codes, if◌then◌else◌}

-- The value of an input: `None`, a text, a Boolean, or another object by its text, whether it counts as
-- true and whether `int` takes it.
pub data InputValue : Type 0 where
  nothing : InputValue
  str : Text → InputValue
  truth : Bool → InputValue
  other : Text → Bool → Bool → InputValue

-- `str(value)`
unfoldable pub printed : InputValue → Text
printed nothing = codes "None"
printed (str t) = t
printed (truth b) = if b then codes "True" else codes "False"
printed (other t counts is_int) = t

-- `value is None or value == ""`
unfoldable pub is_blank : InputValue → Bool
is_blank nothing = true
is_blank (str []) = true
is_blank (str (c ∷ t)) = false
is_blank (truth b) = false
is_blank (other t counts is_int) = false

pub data PluginFieldType : Type 0 where
  string text integer boolean select multiselect file keyvalue : PluginFieldType

-- A field, with what `build_command` reads of its `validation`, and the values of its `options`
pub record PluginField : Type 0 where
  pub id : Text
  pub field_type : PluginFieldType
  pub default_value : InputValue
  pub validation_type : Option Text
  pub pattern : Option Text
  pub options : List (Option Text)

pub record Plugin : Type 0 where
  pub fields : List PluginField
  pub command_template : List Text

-- What the code reads of Python's text tables, of regular expressions and of the file system: `\w` and
-- `\d`, whether `int` takes a text, `re.match`, `none` where the pattern is no regular expression, the
-- preset patterns by their names, and `_resolve_wordlist_path`, `none` where it raises.
pub record Outside : Type 0 where
  pub is_word : ℕ → Bool
  pub is_digit : ℕ → Bool
  pub reads_int : Text → Bool
  pub matches : Text → Text → Option Bool
  pub matches_preset : Text → Text → Bool
  pub resolve_wordlist_path : Text → Option Text
