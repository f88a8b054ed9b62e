-- ===== src/Cache/Values.antt =====
-- The values that the cache gives back, the entries that a prefix deletes, and what is evicted.
use secu_scan.Prelude.{
  text_in-keys, ℕ, ◌+◌, ◌*◌, ◌%◌, ◌≤◌, ◌<◌, ◌≡◌, refl, ap, ◌∙◌, inl, inr, Bool, false, not, ◌&&◌,
  Option, none, some, List, [], ◌∷◌, arith, leb, ◌==◌, if◌then◌else◌, Bool-cases, length, filter,
  take, drop, All, Text, text_eq, text_eq_refl, text_eq_iff, starts_with, text_in, lookup, is_some,
  lookup-insert, lookup-erase, keys,
}
use secu_scan.Cache.{
  sweepable, Cache, pop, pop_all, evict_lru, evict_count, accessed, sorted, get_json, write,
  set_json, delete_prefix, actual_ttl, is_expired, sweep_expired, expired_keys, sweep_interval,
  second,
}
use secu_scan.Cache.Order.{sorted-Rising, take-le-drop}

text_in-filter :
    (p : Text → Bool) (k : Text) (ks : List Text) → text_in k (filter p ks) ≡ (p k && text_in k ks)
unfolding text_in
text_in-filter p k [] = ground arith
text_in-filter p k (j ∷ ks) = elim (Bool-cases (text_eq k j)) [
  | inl same ↦
      rw same
        (ground (arith, ap p ((text_eq_iff k j).0 same), text_in-filter p k ks, text_eq_iff k j))
  | inr other ↦ ground (arith, other, text_in-filter p k ks)
]

module _ {V : Type 0} where
  lookup-pop_all :
      (k : Text) (ks : List Text) (s : Cache V)
      → lookup k (pop_all ks s).values ≡ (if text_in k ks then none else lookup k s.values)
  unfolding pop_all pop text_in
  lookup-pop_all k [] s = refl
  lookup-pop_all k (j ∷ ks) s =
      ground (arith, lookup-pop_all k ks (pop j s), lookup-erase k j s.values)

  expires-pop_all :
      (k : Text) (ks : List Text) (s : Cache V)
      → lookup k (pop_all ks s).expires ≡ (if text_in k ks then none else lookup k s.expires)
  unfolding pop_all pop text_in
  expires-pop_all k [] s = refl
  expires-pop_all k (j ∷ ks) s =
      ground (arith, expires-pop_all k ks (pop j s), lookup-erase k j s.expires)

  -- `delete_prefix` deletes exactly the entries whose key has the prefix.
  pub delete_prefix-lookup :
      (prefix k : Text) (s : Cache V)
      → lookup k (delete_prefix prefix s).values
        ≡ (if starts_with k prefix then none else lookup k s.values)
  unfolding delete_prefix
  delete_prefix-lookup prefix k s = ground (
    arith,
    lookup-pop_all k (filter (λ x. starts_with x prefix) (keys s.values)) s,
    text_in-filter (λ x. starts_with x prefix) k (keys s.values),
    text_in-keys k s.values,
  )

  -- The dictionaries after the write of `set_json`, before a sweep.
  write-lookup :
      (now ttl : ℕ) (key : Text) (x : V) (s : Cache V)
      → (lookup key (write now ttl key x s).values ≡ some x)
        × (lookup key (write now ttl key x s).expires ≡ some (now + ttl * second))
  unfolding write
  write-lookup now ttl key x s = (
    lookup-insert key key x s.values ∙ rw (text_eq_refl key),
    lookup-insert key key (now + ttl * second) s.expires ∙ rw (text_eq_refl key),
  )

  -- A sweep spares an entry that expires later than `now`.
  sweep_expired-lookup :
      (now e : ℕ) (key : Text) (x : V) (s : Cache V)
      → lookup key s.values ≡ some x
      → lookup key s.expires ≡ some e
      → now < e
      → (lookup key (sweep_expired now s).values ≡ some x)
        × (lookup key (sweep_expired now s).expires ≡ some e)
  unfolding sweep_expired expired_keys sweepable
  sweep_expired-lookup now e key x s held expiry later =
      let ks = filter (λ k. sweepable now (lookup k s.expires)) (keys s.expires) in
      let spared : text_in key ks ≡ false =
        text_in-filter (λ k. sweepable now (lookup k s.expires)) key (keys s.expires)
        ∙ rw expiry (ground arith) in
      (lookup-pop_all key ks s ∙ rw spared held, expires-pop_all key ks s ∙ rw spared expiry)

  set_json-lookup :
      (now default : ℕ) (key : Text) (x : V) (ttl : Option ℕ) (s : Cache V)
      → 0 < actual_ttl ttl default
      → (lookup key (set_json now default key x ttl s).values ≡ some x)
        × (lookup key (set_json now default key x ttl s).expires
            ≡ some (now + actual_ttl ttl default * second))
  unfolding set_json
  set_json-lookup now default key x ttl s pos =
      swept (write now t key x room) (write-lookup now t key x room)
    where
      t : ℕ
      t = actual_ttl ttl default

      room : Cache V
      room =
          if leb s.max_entries (length s.values) && not (is_some (lookup key s.values))
          then evict_lru s
          else s

      swept :
          (u : Cache V)
          → (lookup key u.values ≡ some x) × (lookup key u.expires ≡ some (now + t * second))
          → let u' = if u.write_count % sweep_interval == 0 then sweep_expired now u else u in
            (lookup key u'.values ≡ some x) × (lookup key u'.expires ≡ some (now + t * second))
      swept u h = elim (Bool-cases (u.write_count % sweep_interval == 0)) [
        | inl b ↦
            rw b (sweep_expired-lookup now (now + t * second) key x u h.0 h.1 (omega (arith, pos)))
        | inr b ↦ rw b h
      ]

  -- A value that was set is given back up to its expiry, also by a call that swept or evicted before,
  -- and is gone after it, where nothing happens in between and its time to live is positive: a `ttl`
  -- that is missing or 0 stands for the default.
  pub get_json-set_json :
      (now later default : ℕ) (key : Text) (x : V) (ttl : Option ℕ) (s : Cache V)
      → 0 < actual_ttl ttl default
      → (get_json later key (set_json now default key x ttl s)).0
        ≡ (if leb later (now + actual_ttl ttl default * second) then some x else none)
  unfolding get_json is_expired
  get_json-set_json now later default key x ttl s pos =
      let (held, expiry) = set_json-lookup now default key x ttl s pos in
      rw expiry (ground (arith, held))

  -- Where the cache is full, what is evicted was accessed no later than anything that stays.
  pub evict_lru-oldest :
      (s : Cache V)
      → s.max_entries ≤ length s.values
      → let order = sorted (accessed s) (keys s.access_order) in
        let victims = take (evict_count s) order in
        (s' : Cache V) × (evict_lru s
          ≡ record s' { eviction_count = s'.eviction_count + evict_count s })
        × (s' ≡ pop_all victims s)
        × All (λ v. All (λ k. accessed s v ≤ accessed s k) (drop (evict_count s) order)) victims
  unfolding evict_lru
  evict_lru-oldest s full =
      let order = sorted (accessed s) (keys s.access_order) in
      (
        pop_all (take (evict_count s) order) s,
        ground (arith, full),
        refl,
        take-le-drop (accessed s) (evict_count s) order
            (sorted-Rising (accessed s) (keys s.access_order)),
      )
