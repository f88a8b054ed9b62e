-- ===== src/Plugins/Command/Tests.antt =====
-- The building of commands at concrete inputs.
use secu_scan.Prelude.{
  string, is_digit_char, ◌≡◌, refl, true, false, ◌&&◌, ◌||◌, none, some, [], ◌∷◌, leb, ◌==◌, all,
  Text, codes, text_eq, is_space, lstrip, strip, lower, starts_with, has_char, text_in, Dict,
  lookup,
}
use secu_scan.Validation.Sanitize.{sanitize_input}
use secu_scan.Validation.Sanitize.Clean.{lacks}
use secu_scan.Plugins.{is_blank, InputValue, nothing, str, string, PluginField, Plugin, Outside}
use secu_scan.Plugins.Schema.{is_control, find_field}
use secu_scan.Plugins.Command.{built, raised_value_error, build_command}
use secu_scan.Plugins.Command.Clean.{build_command-lacks}
use secu_scan.Plugins.Command.Declared.{conforms, build_command-conforms}
use secu_scan.Ratelimit.Identity.{split_on, truthy}

abbrev python : Outside
python = record {
  is_word = λ c. (leb b'a' c && leb c b'z') || c == b'_';
  is_digit = is_digit_char;
  reads_int = λ t. false;
  matches = λ p t. some true;
  matches_preset = λ name t. true;
  resolve_wordlist_path = λ t. none;
}

abbrev plain_field : Text → PluginField
plain_field name = record {
  id = name;
  field_type = string;
  default_value = nothing;
  validation_type = none;
  pattern = none;
  options = [];
}

abbrev scanner : Plugin
scanner = record {
  fields = plain_field (codes "target") ∷ plain_field (codes "ports") ∷ [];
  command_template =
      codes "nmap" ∷ codes "--if:ports:then:-p:{ports}:else:-F" ∷ codes "{target}" ∷ [];
}

abbrev installed : Dict Plugin
installed = (codes "nmap", scanner) ∷ []

abbrev aimed_at : Text → Dict InputValue
aimed_at target = (codes "target", str target) ∷ []

-- Without ports the other branch of the conditional token is taken.
builds :
    build_command python installed (codes "nmap") (aimed_at (codes "a b;c"))
    ≡ built (codes "nmap" ∷ codes "-F" ∷ codes "a bc" ∷ [])
unfolding build_command lookup text_eq text_in starts_with truthy lstrip is_space split_on has_char
    sanitize_input strip
builds = refl

builds_ports :
    build_command python installed
      (codes "nmap")
      ((codes "ports", str (codes "1-9,80")) ∷ aimed_at (codes "h"))
    ≡ built (codes "nmap" ∷ codes "-p" ∷ codes "1-9,80" ∷ codes "h" ∷ [])
unfolding build_command lookup text_eq text_in starts_with truthy split_on lstrip is_space has_char
    lower sanitize_input strip
builds_ports = refl

refuses_flag :
    build_command python installed (codes "nmap") (aimed_at (codes "-oN")) ≡ raised_value_error
unfolding build_command lookup text_eq text_in starts_with truthy lstrip is_space
refuses_flag = refl

-- What is removed after the test can leave what the test refuses.
rebuilds_flag :
    build_command python installed (codes "nmap") (aimed_at (codes "; -oN"))
    ≡ built (codes "nmap" ∷ codes "-F" ∷ codes "-oN" ∷ [])
unfolding build_command lookup text_eq text_in starts_with truthy lstrip is_space split_on has_char
    sanitize_input strip
rebuilds_flag = refl

rebuilds_traversal :
    build_command python installed (codes "nmap") (aimed_at (codes ".;./x"))
    ≡ built (codes "nmap" ∷ codes "-F" ∷ codes "../x" ∷ [])
unfolding build_command lookup text_eq text_in starts_with truthy lstrip is_space split_on has_char
    sanitize_input strip
rebuilds_traversal = refl

build_command-lacks_example :
    all (lacks b';') (codes "nmap" ∷ codes "-F" ∷ codes "a bc" ∷ []) ≡ true
unfolding lookup text_eq
build_command-lacks_example =
    build_command-lacks python installed (codes "nmap") scanner (aimed_at (codes "a b;c")) b';'
      (codes "nmap" ∷ codes "-F" ∷ codes "a bc" ∷ []) refl refl refl builds

build_command-conforms_example :
    (f : PluginField) × (find_field (codes "target") scanner.fields ≡ some f)
    × (conforms python f (codes "target") (str (codes "a b;c")) ≡ true)
unfolding lookup text_eq is_control text_in starts_with is_blank
build_command-conforms_example =
    build_command-conforms python installed (codes "nmap") scanner (aimed_at (codes "a b;c"))
      (codes "target") (str (codes "a b;c")) (codes "nmap" ∷ codes "-F" ∷ codes "a bc" ∷ []) refl
      refl refl refl builds
