-- ===== src/Cache/Steps.antt =====
-- The calls of the cache keep it valid and within its size, the eviction included.
use secu_scan.Prelude.{
  insert_key, keys-insert, length-keys, length-insert, ℕ, zero, suc, ◌+◌, ◌≤◌, ◌<◌, ◌≡◌, sym, ap,
  ◌∙◌, subst, inl, inr, true, List, [], ◌∷◌, arith, ltb, if◌then◌else◌, ltb→lt, Bool-cases, length,
  take, All, Text, text_eq_refl, text_in, lookup, is_some, keys,
}
use secu_scan.Cache.{Cache, evict_lru, evict_count, accessed, sorted, write}
use secu_scan.Cache.Order.{All-sorted, length-sorted}
use secu_scan.Cache.Bound.{IsValid, pop_all-IsValid, length-pop_all-lt}

All-in_more :
    (k : Text) (xs ks : List Text)
    → All (λ x. text_in x ks ≡ true) xs
    → All (λ x. text_in x (k ∷ ks) ≡ true) xs
unfolding text_in
All-in_more k [] ks h = tt
All-in_more k (x ∷ xs) ks h = (ground arith, All-in_more k xs ks h.1)

All-in_self : (ks : List Text) → All (λ x. text_in x ks ≡ true) ks
unfolding text_in
All-in_self [] = tt
All-in_self (k ∷ ks) = (ground (arith, text_eq_refl k), All-in_more k ks ks (All-in_self ks))

All-take : (P : Text → Type 0) (n : ℕ) (xs : List Text) → All P xs → All P (take n xs)
All-take P zero xs h = tt
All-take P (suc n) [] h = tt
All-take P (suc n) (x ∷ xs) h = (h.0, All-take P n xs h.1)

take-pos : (n : ℕ) (xs : List Text) → 0 < n → 0 < length xs → 0 < length (take n xs)
take-pos zero xs p q = absurd (omega arith)
take-pos (suc n) [] p q = absurd (omega arith)
take-pos (suc n) (x ∷ xs) p q = omega arith

module _ {V : Type 0} where
  evicted : Cache V → List Text
  evicted s = take (evict_count s) (sorted (accessed s) (keys s.access_order))

  evicted-present :
      {n : ℕ} {s : Cache V} → IsValid n s → All (λ k. text_in k (keys s.values) ≡ true) (evicted s)
  unfolding evicted
  evicted-present {s = s} v =
      All-take (λ k. text_in k (keys s.values) ≡ true) (evict_count s)
        (sorted (accessed s) (keys s.access_order))
        (All-sorted (λ k. text_in k (keys s.values) ≡ true) (accessed s) (keys s.access_order)
          (subst (λ ks. All (λ k. text_in k ks ≡ true) (keys s.access_order)) v.same_access
            (All-in_self (keys s.access_order))))

  evicted-some : {n : ℕ} {s : Cache V} → IsValid n s → 0 < length s.values → 0 < length (evicted s)
  unfolding evicted
  evicted-some {s = s} v pos =
      take-pos (evict_count s) (sorted (accessed s) (keys s.access_order)) (omega arith) (
        omega (
          arith,
          length-sorted (accessed s) (keys s.access_order),
          ap length v.same_access,
          length-keys s.values,
        ))

  pub evict_lru-IsValid : {n : ℕ} {s : Cache V} → IsValid n s → IsValid n (evict_lru s)
  unfolding evict_lru evicted
  evict_lru-IsValid {s = s} v =
      let w = pop_all-IsValid (evicted s) v in
      elim (Bool-cases (ltb (length s.values) s.max_entries)) [
        | inl small ↦ rw small v
        | inr large ↦ rw large (record {
          same_expires = w.same_expires;
          same_access = w.same_access;
          cap = w.cap;
          bounded = w.bounded;
        })
      ]

  pub evict_lru_room : {n : ℕ} {s : Cache V} → 0 < n → IsValid n s → length (evict_lru s).values < n
  unfolding evict_lru evicted
  evict_lru_room {s = s} pos v = elim (Bool-cases (ltb (length s.values) s.max_entries)) [
    | inl small ↦ rw small (omega (arith, v.cap, ltb→lt _ _ small))
    | inr large ↦ rw large (
        ground (
          arith,
          v.cap,
          v.bounded,
          length-pop_all-lt (evicted s) s (evicted-some v (ground (arith, v.cap)))
              (evicted-present v),
        ))
  ]

  pub write-IsValid :
      {n : ℕ} (now ttl : ℕ) (key : Text) (x : V) {s : Cache V}
      → IsValid n s
      → (if is_some (lookup key s.values) then 0 else 1) + length s.values ≤ n
      → IsValid n (write now ttl key x s)
  unfolding write
  write-IsValid now ttl key x {s} v room = record {
    same_expires =
        keys-insert key _ s.expires
        ∙ ap (insert_key key) v.same_expires
        ∙ sym (keys-insert key x s.values);
    same_access =
        keys-insert key now s.access_order
        ∙ ap (insert_key key) v.same_access
        ∙ sym (keys-insert key x s.values);
    cap = v.cap;
    bounded = ground (arith, length-insert key x s.values);
  }
