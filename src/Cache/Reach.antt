-- ===== src/Cache/Reach.antt =====
-- Every state of a cache, over any sequence of calls at any instants.
use secu_scan.Prelude.{
  insert_key, keys-insert, text_in-keys, ℕ, ◌+◌, ◌%◌, ◌≤◌, ◌<◌, ◌≡◌, refl, ap, ◌∙◌, inl, inr, Bool,
  true, not, ◌&&◌, Option, List, [], ◌∷◌, arith, leb, ◌==◌, if◌then◌else◌, Bool-cases, length,
  filter, Text, starts_with, text_in, lookup, is_some, keys,
}
use secu_scan.Cache.{
  Cache, init, disconnect, evict_lru, get_json, write, set_json, delete_prefix, actual_ttl,
  is_expired, sweep_expired, sweep_interval,
}
use secu_scan.Cache.Bound.{IsValid, pop-IsValid, pop_all-IsValid, sweep_expired-IsValid}
use secu_scan.Cache.Steps.{evict_lru-IsValid, evict_lru_room, write-IsValid}

pub data Step {V : Type 0} : Cache V → Cache V → Type 0 where
  gets : (s : Cache V) (now : ℕ) (key : Text) → Step s (get_json now key s).1
  sets :
      (s : Cache V) (now default : ℕ) (key : Text) (x : V) (ttl : Option ℕ)
      → Step s (set_json now default key x ttl s)
  deletes : (s : Cache V) (prefix : Text) → Step s (delete_prefix prefix s)
  disconnects : (s : Cache V) → Step s (disconnect s)

pub data Reach {V : Type 0} (s : Cache V) : Cache V → Type 0 where
  here : Reach s s
  next : {t u : Cache V} → Reach s t → Step t u → Reach s u

insert_key-present : (k : Text) (ks : List Text) → text_in k ks ≡ true → insert_key k ks ≡ ks
unfolding insert_key text_in
insert_key-present k [] h = cc
insert_key-present k (j ∷ ks) h = ground (arith, insert_key-present k ks)

module _ {V : Type 0} where
  get_json-IsValid :
      {n : ℕ} (now : ℕ) (key : Text) (s : Cache V) → IsValid n s → IsValid n (get_json now key s).1
  unfolding get_json
  get_json-IsValid now key s v = elim (Bool-cases (is_expired (lookup key s.expires) now)) [
    | inl old ↦ rw old (pop-IsValid key v)
    | inr live ↦ elim (Bool-cases (is_some (lookup key s.values))) [
      | inr miss ↦ rw (live, miss) v
      | inl hit ↦
          rw (live, hit)
            (record {
              same_expires = v.same_expires;
              same_access =
                  keys-insert key now s.access_order
                  ∙ insert_key-present key (keys s.access_order)
                      (ap (text_in key) v.same_access ∙ text_in-keys key s.values ∙ hit)
                  ∙ v.same_access;
              cap = v.cap;
              bounded = v.bounded;
            })
    ]
  ]

  set_json-IsValid :
      {n : ℕ} (now default : ℕ) (key : Text) (x : V) (ttl : Option ℕ) (s : Cache V)
      → 0 < n
      → IsValid n s
      → IsValid n (set_json now default key x ttl s)
  unfolding set_json
  set_json-IsValid {n} now default key x ttl s pos v =
      swept (write now (actual_ttl ttl default) key x room) written
    where
      full : Bool
      full = leb s.max_entries (length s.values) && not (is_some (lookup key s.values))

      room : Cache V
      room = if full then evict_lru s else s

      room-IsValid : IsValid n room
      room-IsValid = elim (Bool-cases full) [ inl f ↦ rw f (evict_lru-IsValid v) | inr f ↦ rw f v ]

      space : (if is_some (lookup key room.values) then 0 else 1) + length room.values ≤ n
      space = elim (Bool-cases full) [
        | inl f ↦ rw f (ground (arith, evict_lru_room pos v))
        | inr f ↦ rw f (ground (arith, v.cap, v.bounded))
      ]

      written : IsValid n (write now (actual_ttl ttl default) key x room)
      written = write-IsValid now (actual_ttl ttl default) key x room-IsValid space

      swept :
          (t : Cache V)
          → IsValid n t
          → IsValid n (if t.write_count % sweep_interval == 0 then sweep_expired now t else t)
      swept t w = elim (Bool-cases (t.write_count % sweep_interval == 0)) [
        | inl b ↦ rw b (sweep_expired-IsValid now w)
        | inr b ↦ rw b w
      ]

  Step-IsValid : {n : ℕ} {s t : Cache V} → 0 < n → Step s t → IsValid n s → IsValid n t
  unfolding delete_prefix disconnect keys
  Step-IsValid pos (gets s now key) v = get_json-IsValid now key s v
  Step-IsValid pos (sets s now default key x ttl) v = set_json-IsValid now default key x ttl s pos v
  Step-IsValid pos (deletes s prefix) v =
      pop_all-IsValid (filter (λ k. starts_with k prefix) (keys s.values)) v
  Step-IsValid pos (disconnects s) v = record {
    same_expires = refl;
    same_access = refl;
    cap = v.cap;
    bounded = omega arith;
  }

  init-IsValid : (n : ℕ) → IsValid {V = V} n (init n)
  unfolding init keys
  init-IsValid n = record {
    same_expires = refl;
    same_access = refl;
    cap = refl;
    bounded = omega arith;
  }

  Reach-IsValid_from : {n : ℕ} {s t : Cache V} → 0 < n → IsValid n s → Reach s t → IsValid n t
  Reach-IsValid_from pos v here = v
  Reach-IsValid_from pos v (next r st) = Step-IsValid pos st (Reach-IsValid_from pos v r)

  -- A cache for `n` entries, `n` at least 1, holds at most `n` after any calls of `get_json`,
  -- `set_json`, `delete_prefix` and `disconnect` at any instants, and each value keeps one expiry and
  -- one access time.
  pub Reach-IsValid : (n : ℕ) {s : Cache V} → 0 < n → Reach (init n) s → IsValid n s
  Reach-IsValid n pos r = Reach-IsValid_from pos (init-IsValid n) r
