-- ===== src/Redaction/Tests.antt =====
-- The theorems of redaction.py at concrete inputs.
use secu_scan.Prelude.{
  Json, string, array, object, nil, cons, Fields, end, field, ◌≡◌, refl, true, some, [], ◌∷◌, arith,
  take, drop, Text, codes, text_eq, lower, text_in,
}
use secu_scan.Redaction.{
  apply_all, redact, matched, Pattern, redact_value, redact_inputs, apply_pattern, is_sensitive,
}
use secu_scan.Redaction.Secrecy.{redact_inputs-secret}

-- A pattern with the label `k=` and the rest of the text as its secret
abbrev after_label : Pattern
after_label = record { groups = 2; segments = λ t. some (matched (take 2 t) (drop 2 t) [] ∷ []) }

redacts : apply_pattern after_label (codes "k=abc") ≡ codes "k=[REDACTED]"
unfolding apply_pattern
redacts = refl

abbrev finding : Json
finding = object (field (codes "proof") (array (cons (string (codes "k=abc")) nil)) end)

abbrev inputs : Text → Fields
inputs secret =
    field (codes "Password") (string secret) (field (codes "target") (string (codes "host")) end)

password_sensitive : is_sensitive (codes "Password") ≡ true
unfolding is_sensitive text_in text_eq lower
password_sensitive = refl

redact_inputs-secret_example :
    redact_inputs (after_label ∷ []) (inputs (codes "abc"))
    ≡ redact_inputs (after_label ∷ []) (inputs (codes "xyz"))
redact_inputs-secret_example =
    redact_inputs-secret (after_label ∷ []) (inputs (codes "abc")) (inputs (codes "xyz")) (
      refl,
      (λ plain. absurd (ground (arith, plain, password_sensitive))),
      (refl, (λ plain. refl), tt),
    )

-- A sensitive key inside another value is not looked for.
nested_kept :
    redact_inputs []
      (field (codes "login") (object (field (codes "password") (string (codes "abc")) end)) end)
    ≡ field (codes "login") (object (field (codes "password") (string (codes "abc")) end)) end
unfolding redact_inputs is_sensitive text_in text_eq lower redact_value redact apply_all
nested_kept = refl
