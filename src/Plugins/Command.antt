-- ===== src/Plugins/Command.antt =====
-- `build_command`.
pub mod Clean
pub mod Declared
mod Tests
use secu_scan.Prelude.{
  Bool, not, ◌&&◌, ◌||◌, none, some, List, [], ◌∷◌, if◌then◌else◌, Text, codes, starts_with,
  text_in, Dict, lookup, is_some,
}
use secu_scan.Plugins.{InputValue, PluginField, Plugin, Outside}
use secu_scan.Plugins.Template.{render_command_tokens}
use secu_scan.Plugins.Schema.{
  internal_control_fields, accepted, value_error, pattern_error, find_field,
  validate_inputs_against_schema, normalize_inputs,
}

-- What `build_command` returns or raises
pub data Built : Type 0 where
  no_plugin raised_value_error raised_pattern_error : Built
  built : List Text → Built

-- The inputs that are looked at
unfoldable pub is_kept : List PluginField → Text → Bool
unfolding find_field
is_kept fields key =
    (not (text_in key internal_control_fields) || is_some (find_field key fields))
    && not (starts_with key (codes "__"))

unfoldable pub kept_inputs : List PluginField → Dict InputValue → Dict InputValue
unfolding is_kept
kept_inputs fields [] = []
kept_inputs fields ((key, value) ∷ inputs) =
    let rest = kept_inputs fields inputs in if is_kept fields key then (key, value) ∷ rest else rest

-- The part behind the look-up of the plugin
unfoldable pub build_from : Outside → Plugin → Dict InputValue → Built
unfolding validate_inputs_against_schema normalize_inputs render_command_tokens
build_from o p inputs = elim (validate_inputs_against_schema o p.fields inputs) [
  | value_error ↦ raised_value_error
  | pattern_error ↦ raised_pattern_error
  | accepted ↦ elim (normalize_inputs o p.fields inputs) [
    | none ↦ raised_value_error
    | some normalized ↦ built (render_command_tokens o.is_word p.command_template normalized)
  ]
]

-- `build_command`
unfoldable pub build_command : Outside → Dict Plugin → Text → Dict InputValue → Built
unfolding build_from kept_inputs
build_command o plugins plugin_id inputs = elim (lookup plugin_id plugins) [
  | none ↦ no_plugin
  | some p ↦ build_from o p (kept_inputs p.fields inputs)
]
