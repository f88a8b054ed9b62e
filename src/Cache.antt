-- ===== src/Cache.antt =====
-- backend/secuscan/cache.py: `CacheClient`, over values of any type. `now` is `time.time()` in
-- microseconds, one instant for the whole of a call.
pub mod Order
pub mod Bound
pub mod Steps
pub mod Reach
pub mod Values
mod Tests
use secu_scan.Prelude.{
  show, show-injective, show-no_colon, ℕ, zero, suc, ◌+◌, ◌-◌, ◌*◌, ◌/◌, ◌%◌, ◌^◌, ◌≤◌, ◌<◌, min,
  max, ◌≡◌, refl, sym, ap, ◌∙◌, subst, ◌≢◌, ◌↔◌, ◌⊎◌, inl, inr, Bool, true, false, not, ◌&&◌, ◌||◌,
  Option, none, some, List, [], ◌∷◌, ◌++◌, map, arith, ltb, leb, ◌==◌, if◌then◌else◌, ltb→lt,
  lt→ltb, leb→le, ==_iff, Bool-cases, Option-cases, length, length-append, filter, any, all, take,
  drop, All, length-filter-le, filter-append, filter_idem, length-drop, Text, codes, text_eq,
  text_eq_refl, text_eq_iff, is_space, lstrip, strip, lower, starts_with, ends_with, has_char,
  text_in, ends_with-append, split_last_unique, Dict, lookup, is_some, or_default, insert, erase,
  lookup-insert, lookup-erase, keys,
}

-- `OPPORTUNISTIC_SWEEP_INTERVAL`
abbrev pub sweep_interval : ℕ
sweep_interval = 50

abbrev pub second : ℕ
second = 1_000_000

-- `sorted(keys, key=f)`: stable, smallest first
unfoldable pub insert_sorted : (Text → ℕ) → Text → List Text → List Text
insert_sorted f x [] = x ∷ []
insert_sorted f x (y ∷ ys) = if leb (f x) (f y) then x ∷ y ∷ ys else y ∷ insert_sorted f x ys

unfoldable pub sorted : (Text → ℕ) → List Text → List Text
sorted f [] = []
sorted f (x ∷ xs) = insert_sorted f x (sorted f xs)

-- `[k for k, exp in expires.items() if exp <= now]`
unfoldable pub sweepable : ℕ → Option ℕ → Bool
sweepable now none = false
sweepable now (some e) = leb e now

unfoldable pub expired_keys : ℕ → Dict ℕ → List Text
expired_keys now d = filter (λ k. sweepable now (lookup k d)) (keys d)

-- `expiry and now > expiry`
unfoldable pub is_expired : Option ℕ → ℕ → Bool
is_expired none now = false
is_expired (some e) now = not (e == 0) && ltb e now

-- `ttl or settings.cache_ttl_seconds`
unfoldable pub actual_ttl : Option ℕ → ℕ → ℕ
actual_ttl none default = default
actual_ttl (some ttl) default = if ttl == 0 then default else ttl

pub record Cache (V : Type 0) : Type 0 where
  pub values : Dict V
  pub expires : Dict ℕ
  pub access_order : Dict ℕ
  pub max_entries : ℕ
  pub eviction_count : ℕ
  pub sweep_count : ℕ
  pub write_count : ℕ

module _ {V : Type 0} where
  -- `CacheClient(max_entries=n)`
  pub init : ℕ → Cache V
  init n = record {
    values = [];
    expires = [];
    access_order = [];
    max_entries = n;
    eviction_count = 0;
    sweep_count = 0;
    write_count = 0;
  }

  -- `disconnect`
  pub disconnect : Cache V → Cache V
  disconnect s = record s { values = []; expires = []; access_order = [] }

  -- One key goes from the three dictionaries.
  unfoldable pub pop : Text → Cache V → Cache V
  pop k s = record s {
    values = erase k s.values;
    expires = erase k s.expires;
    access_order = erase k s.access_order;
  }

  unfoldable pub pop_all : List Text → Cache V → Cache V
  pop_all [] s = s
  pop_all (k ∷ ks) s = pop_all ks (pop k s)

  -- `_sweep_expired`
  unfoldable pub sweep_expired : ℕ → Cache V → Cache V
  sweep_expired now s =
      let ks = expired_keys now s.expires in
      let s' = pop_all ks s in record s' { sweep_count = s'.sweep_count + length ks }

  -- `self._access_order[k]`
  abbrev pub accessed : Cache V → Text → ℕ
  accessed s k = or_default 0 (lookup k s.access_order)

  -- `max(1, int(max_entries * SWEEP_EVICT_FRACTION))`, the fraction a quarter
  abbrev pub evict_count : Cache V → ℕ
  evict_count s = max 1 (s.max_entries / 4)

  -- `_evict_lru`
  unfoldable pub evict_lru : Cache V → Cache V
  evict_lru s =
      if ltb (length s.values) s.max_entries
      then s
      else let sorted_keys = sorted (accessed s) (keys s.access_order) in
        let s' = pop_all (take (evict_count s) sorted_keys) s in
        record s' { eviction_count = s'.eviction_count + evict_count s }

  -- `get_json(key)`: the value, and the cache with the access noted or the expired entry gone
  pub get_json : ℕ → Text → Cache V → Option V × Cache V
  get_json now key s = if is_expired (lookup key s.expires) now then (none, pop key s) else (
    lookup key s.values,
    (if is_some (lookup key s.values)
        then record s { access_order = insert key now s.access_order }
        else s),
  )

  -- The write of `set_json` itself
  unfoldable pub write : ℕ → ℕ → Text → V → Cache V → Cache V
  write now ttl key value s = record s {
    values = insert key value s.values;
    expires = insert key (now + ttl * second) s.expires;
    access_order = insert key now s.access_order;
    write_count = s.write_count + 1;
  }

  -- `set_json(key, value, ttl)`, with `settings.cache_ttl_seconds`
  pub set_json : ℕ → ℕ → Text → V → Option ℕ → Cache V → Cache V
  set_json now default key value ttl s =
      let room =
        if leb s.max_entries (length s.values) && not (is_some (lookup key s.values))
        then evict_lru s
        else s in
      let s' = write now (actual_ttl ttl default) key value room in
      if s'.write_count % sweep_interval == 0 then sweep_expired now s' else s'

  -- `delete_prefix(prefix)`
  pub delete_prefix : Text → Cache V → Cache V
  delete_prefix prefix s = pop_all (filter (λ k. starts_with k prefix) (keys s.values)) s
