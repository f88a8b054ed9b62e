-- ===== src/Cache/Tests.antt =====
-- The theorems of the cache at concrete inputs.
use secu_scan.Prelude.{ℕ, ◌+◌, ◌*◌, ◌≡◌, none, some, [], ◌∷◌, arith, leb, if◌then◌else◌, codes}
use secu_scan.Cache.{Cache, init, get_json, set_json, actual_ttl, second}
use secu_scan.Cache.Bound.{IsValid}
use secu_scan.Cache.Reach.{Reach-IsValid, here, next, sets}
use secu_scan.Cache.Values.{get_json-set_json}

abbrev twice_set : Cache ℕ
twice_set = set_json 20 60 (codes "b") 8 none (set_json 10 60 (codes "a") 7 none (init 1))

Reach-IsValid_example : IsValid 1 twice_set
Reach-IsValid_example = Reach-IsValid 1 (omega arith) (
    next (next here (sets (init 1) 10 60 (codes "a") 7 none))
      (sets (set_json 10 60 (codes "a") 7 none (init 1)) 20 60 (codes "b") 8 none))

-- Two entries in a cache for two, `a` used first.
abbrev held : Cache ℕ
held = record {
  values = (codes "a", 7) ∷ (codes "b", 8) ∷ [];
  expires = (codes "a", 500) ∷ (codes "b", 600) ∷ [];
  access_order = (codes "a", 10) ∷ (codes "b", 20) ∷ [];
  max_entries = 2;
  eviction_count = 0;
  sweep_count = 0;
  write_count = 2;
}

get_json-set_json_example :
    (get_json 100 (codes "c") (set_json 30 60 (codes "c") 9 (some 5) held)).0
    ≡ (if leb 100 (30 + actual_ttl (some 5) 60 * second) then some 9 else none)
unfolding actual_ttl
get_json-set_json_example = get_json-set_json 30 100 60 (codes "c") 9 (some 5) held (omega arith)
