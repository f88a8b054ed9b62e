-- ===== src/Cache/Bound.antt =====
-- The size of the cache over any sequence of calls.
use secu_scan.Prelude.{
  erase_key, keys-erase, length-erase-le, length-erase-lt, ℕ, ◌≤◌, ◌<◌, ◌≡◌, sym, ap, ◌∙◌, true,
  List, [], ◌∷◌, arith, length, All, Text, text_in, keys,
}
use secu_scan.Cache.{Cache, pop, pop_all, sweep_expired, expired_keys}

module _ {V : Type 0} where
  -- The three dictionaries hold the same keys in the same order, at most `n` of them.
  pub record IsValid (n : ℕ) (s : Cache V) : Type 0 where
    pub same_expires : keys s.expires ≡ keys s.values
    pub same_access : keys s.access_order ≡ keys s.values
    pub cap : s.max_entries ≡ n
    pub bounded : length s.values ≤ n

  pub pop-IsValid : {n : ℕ} (k : Text) {s : Cache V} → IsValid n s → IsValid n (pop k s)
  unfolding pop
  pop-IsValid k {s} v = record {
    same_expires =
        keys-erase k s.expires ∙ ap (erase_key k) v.same_expires ∙ sym (keys-erase k s.values);
    same_access =
        keys-erase k s.access_order ∙ ap (erase_key k) v.same_access ∙ sym (keys-erase k s.values);
    cap = v.cap;
    bounded = omega (arith, v.bounded, length-erase-le k s.values);
  }

  pub pop_all-IsValid :
      {n : ℕ} (ks : List Text) {s : Cache V} → IsValid n s → IsValid n (pop_all ks s)
  unfolding pop_all
  pop_all-IsValid [] v = v
  pop_all-IsValid (k ∷ ks) v = pop_all-IsValid ks (pop-IsValid k v)

  pub length-pop_all-le :
      (ks : List Text) (s : Cache V) → length (pop_all ks s).values ≤ length s.values
  unfolding pop_all pop
  length-pop_all-le [] s = omega arith
  length-pop_all-le (k ∷ ks) s =
      omega (arith, length-pop_all-le ks (pop k s), length-erase-le k s.values)

  -- To pop some keys of which the first is there makes room.
  pub length-pop_all-lt :
      (ks : List Text) (s : Cache V)
      → 0 < length ks
      → All (λ k. text_in k (keys s.values) ≡ true) ks
      → length (pop_all ks s).values < length s.values
  unfolding pop_all pop
  length-pop_all-lt [] s pos h = absurd (omega arith)
  length-pop_all-lt (k ∷ ks) s pos h =
      omega (arith, length-pop_all-le ks (pop k s), length-erase-lt k s.values h.0)

  pub sweep_expired-IsValid :
      {n : ℕ} (now : ℕ) {s : Cache V} → IsValid n s → IsValid n (sweep_expired now s)
  unfolding sweep_expired
  sweep_expired-IsValid now {s} v =
      let w = pop_all-IsValid (expired_keys now s.expires) v in
      record {
        same_expires = w.same_expires;
        same_access = w.same_access;
        cap = w.cap;
        bounded = w.bounded;
      }
