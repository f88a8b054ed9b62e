-- ===== src/Auth/Token.antt =====
-- A session token, from its making to its end.
use secu_scan.Prelude.{
  ℕ, zero, suc, ◌+◌, ◌*◌, ◌/◌, ◌%◌, ◌≤◌, ◌≡◌, refl, sym, ap, ◌∙◌, false, not, some, [], ◌∷◌, ◌++◌,
  arith, ltb, length, take, Text, codes, text_eq_refl, has_char,
}
use secu_scan.Ratelimit.Identity.{split_on, truthy}
use secu_scan.Validation.Ports.Printed.{split_on-plain, split_on-join}
use mathlib.Core.List.{append-nil}
use secu_scan.Auth.{
  Crypto, session_ttl_seconds, rstrip_padding, make_signed_token, with_padding, verify_parts,
  verify_signed_token,
}

-- What is documented of the standard library: Base64 text is padded to groups of four by at most two
-- signs `=`, which stand at its end only, holds no full stop and is decoded to what was encoded; a
-- hexadecimal digest holds no full stop; and the moment is read back.
pub record IsLawful (k : Crypto) : Type 0 where
  pub body : Text → Text
  pub padding : Text → ℕ
  pub encoded : (p : Text) → k.b64encode p ≡ body p ++ take (padding p) (codes "====")
  pub short : (p : Text) → padding p ≤ 2
  pub whole : (p : Text) → (length (body p) + padding p) % 4 ≡ 0
  pub no_sign : (p : Text) → has_char b'=' (body p) ≡ false
  pub no_stop : (p : Text) → has_char b'.' (body p) ≡ false
  pub decoded : (p : Text) → k.b64decode (k.b64encode p) ≡ some p
  pub digest_no_stop : (p : Text) → has_char b'.' (k.hexdigest p) ≡ false
  pub loaded : (secret : Text) (e : ℕ) → k.loads (k.dumps secret e) ≡ some e

rstrip_padding-signs : (n : ℕ) → n ≤ 2 → rstrip_padding (take n (codes "====")) ≡ []
unfolding rstrip_padding
rstrip_padding-signs zero h = refl
rstrip_padding-signs (suc zero) h = refl
rstrip_padding-signs (suc (suc zero)) h = refl
rstrip_padding-signs (suc (suc (suc n))) h = absurd (omega arith)

rstrip_padding-body :
    (n : ℕ) (t : Text)
    → n ≤ 2
    → has_char b'=' t ≡ false
    → rstrip_padding (t ++ take n (codes "====")) ≡ t
unfolding rstrip_padding has_char
rstrip_padding-body n [] le h = rstrip_padding-signs n le
rstrip_padding-body n (c ∷ []) le h =
    rw (rstrip_padding-signs n le, rstrip_padding) (ground (arith, h))
rstrip_padding-body n (c ∷ d ∷ t) le h =
    let rest = rstrip_padding-body n (d ∷ t) le (ground (arith, h)) in
    rw (rest, rstrip_padding) refl

with_padding-body :
    (n : ℕ) (t : Text)
    → n ≤ 2
    → (length t + n) % 4 ≡ 0
    → with_padding t ≡ t ++ take n (codes "====")
unfolding with_padding
with_padding-body zero t le h =
    let none_left : length t % 4 ≡ 0 = omega (arith, h) in rw none_left (sym (append-nil t))
with_padding-body (suc zero) t le h = let left : length t % 4 ≡ 3 = omega (arith, h) in rw left refl
with_padding-body (suc (suc zero)) t le h =
    let left : length t % 4 ≡ 2 = omega (arith, h) in rw left refl
with_padding-body (suc (suc (suc n))) t le h = absurd (omega arith)

module _ (k : Crypto) (law : IsLawful k) where
  -- A payload is decoded after its padding was stripped and put back.
  stripped : (p : Text) → rstrip_padding (k.b64encode p) ≡ law.body p
  stripped p =
      ap rstrip_padding (law.encoded p)
      ∙ rstrip_padding-body (law.padding p) (law.body p) (law.short p) (law.no_sign p)

  restored : (p : Text) → k.b64decode (with_padding (law.body p)) ≡ some p
  restored p =
      ap k.b64decode (
        with_padding-body (law.padding p) (law.body p) (law.short p) (law.whole p)
        ∙ sym (law.encoded p))
      ∙ law.decoded p

  parts_of :
      (p : Text)
      → split_on b'.' (rstrip_padding (k.b64encode p) ++ b'.' ∷ k.hexdigest p)
        ≡ law.body p ∷ k.hexdigest p ∷ []
  parts_of p =
      ap (λ s. split_on b'.' (s ++ b'.' ∷ k.hexdigest p)) (stripped p)
      ∙ split_on-join b'.' (law.body p) (k.hexdigest p) (law.no_stop p)
      ∙ ap (λ r. law.body p ∷ r) (split_on-plain b'.' (k.hexdigest p) (law.digest_no_stop p))

  verify_parts-made :
      (secret : Text) (e later : ℕ)
      → verify_parts k later (law.body (k.dumps secret e)) (k.hexdigest (k.dumps secret e))
        ≡ not (ltb (e * 1_000_000) later)
  unfolding verify_parts
  verify_parts-made secret e later =
      rw
        (
          restored (k.dumps secret e),
          verify_parts,
          text_eq_refl (k.hexdigest (k.dumps secret e)),
          law.loaded secret e,
        )
        refl

-- The last instant at which a token is valid, by the instant at which it was made: the token holds whole seconds.
abbrev pub expires_at : ℕ → ℕ
expires_at now = (now / 1_000_000 + session_ttl_seconds) * 1_000_000

-- A token is valid from its making to `expires_at`, and no longer.
pub token-lifetime :
    (k : Crypto) (now later : ℕ) (secret : Text)
    → IsLawful k
    → verify_signed_token k later (make_signed_token k now secret)
      ≡ not (ltb (expires_at now) later)
unfolding verify_signed_token make_signed_token
token-lifetime k now later secret law =
    rw
      (parts_of k law (k.dumps secret (now / 1_000_000 + session_ttl_seconds)), verify_signed_token)
      (verify_parts-made k law secret (now / 1_000_000 + session_ttl_seconds) later)

pub make_signed_token-truthy :
    (k : Crypto) (now : ℕ) (secret : Text)
    → truthy (some (make_signed_token k now secret)) ≡ some (make_signed_token k now secret)
unfolding make_signed_token truthy
make_signed_token-truthy k now secret = held _ (k.hexdigest _)
  where
    held : (s t : Text) → truthy (some (s ++ b'.' ∷ t)) ≡ some (s ++ b'.' ∷ t)
    held [] t = refl
    held (c ∷ s) t = refl
