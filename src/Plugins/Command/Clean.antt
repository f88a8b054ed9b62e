-- ===== src/Plugins/Command/Clean.antt =====
-- What the arguments of a built command cannot hold.
use secu_scan.Validation.Sanitize.{dangerous_chars}
use secu_scan.Validation.Sanitize.Clean.{lacks, sanitize_input-lacks}
use secu_scan.Plugins.{InputValue, Plugin, Outside}
use secu_scan.Plugins.Schema.{
  Check, accepted, value_error, pattern_error, validate_inputs_against_schema, normalize_inputs,
}
use secu_scan.Plugins.Command.{
  Built, no_plugin, raised_value_error, raised_pattern_error, built, build_from, build_command,
  kept_inputs,
}
use secu_scan.Prelude.{
  ℕ, ◌≡◌, refl, sym, ap, ◌∙◌, true, not, Option, none, some, List, [], ◌==◌, any, all, Text, Dict,
  lookup,
}
use secu_scan.Plugins.Template.Kept.{render_command-keeps}

-- The arguments of what `build_command` answers
abbrev arguments : Built → List Text
arguments no_plugin = []
arguments raised_value_error = []
arguments raised_pattern_error = []
arguments (built command) = command

build_from-lacks :
    (o : Outside) (pl : Plugin) (inputs : Dict InputValue) (c : ℕ)
    → any (λ d. d == c) dangerous_chars ≡ true
    → all (lacks c) pl.command_template ≡ true
    → all (lacks c) (arguments (build_from o pl inputs)) ≡ true
unfolding build_from
build_from-lacks o pl inputs c d h =
    split (validate_inputs_against_schema o pl.fields inputs) (normalize_inputs o pl.fields inputs)
      refl refl
  where
    split :
        (r : Check) (n : Option (Dict InputValue))
        → validate_inputs_against_schema o pl.fields inputs ≡ r
        → normalize_inputs o pl.fields inputs ≡ n
        → all (lacks c) (arguments (build_from o pl inputs)) ≡ true
    split value_error n q e = rw (q, build_from) refl
    split pattern_error n q e = rw (q, build_from) refl
    split accepted none q e = rw (q, e, build_from) refl
    split accepted (some normalized) q e =
        rw (q, e, build_from)
          (render_command-keeps (λ x. not (x == c)) (λ value. sanitize_input-lacks value c d)
            o.is_word pl.command_template normalized h)

-- A character that `sanitize_input` removes, such as `;`, `|`, `$` or a quote, is in no argument of a built command,
-- whatever the inputs are, their defaults and the wordlist's path included, unless the template of the plugin
-- itself holds it.
pub build_command-lacks :
    (o : Outside) (plugins : Dict Plugin) (plugin_id : Text) (pl : Plugin)
    (inputs : Dict InputValue) (c : ℕ) (command : List Text)
    → any (λ d. d == c) dangerous_chars ≡ true
    → lookup plugin_id plugins ≡ some pl
    → all (lacks c) pl.command_template ≡ true
    → build_command o plugins plugin_id inputs ≡ built command
    → all (lacks c) command ≡ true
unfolding build_command
build_command-lacks o plugins plugin_id pl inputs c command d found h e =
    let same : build_command o plugins plugin_id inputs
        ≡ build_from o pl (kept_inputs pl.fields inputs) =
      rw (found, build_command) refl in
    ap (λ r. all (lacks c) (arguments r)) (sym e ∙ same)
    ∙ build_from-lacks o pl (kept_inputs pl.fields inputs) c d h
