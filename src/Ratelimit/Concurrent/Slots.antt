-- ===== src/Ratelimit/Concurrent/Slots.antt =====
-- The slots over any interleaving of calls, and the tasks that hold them as a bag.
use secu_scan.Prelude.{
  ℕ, suc, ◌+◌, ◌-◌, ◌≤◌, ◌<◌, ◌≡◌, ◌↔◌, true, List, [], ◌∷◌, ◌++◌, arith, if◌then◌else◌, length,
  length-append, Text, text_eq, text_eq_iff, text_in,
}
use secu_scan.Ratelimit.Concurrent.{Limiter, init, acquire, remove, release, get_available_slots}

-- A call of any task, from the routes, the scheduler or the executor's `finally`.
pub data Step : Limiter → Limiter → Type 0 where
  acquires : (s : Limiter) (t : Text) → Step s (acquire s t).2
  releases : (s : Limiter) (t : Text) → Step s (release s t)

pub data Reach (s : Limiter) : Limiter → Type 0 where
  here : Reach s s
  next : {t u : Limiter} → Reach s t → Step t u → Reach s u

-- How many slots task `t` holds.
abbrev pub held : Text → List Text → ℕ
held t [] = 0
held t (x ∷ xs) = if text_eq t x then suc (held t xs) else held t xs

length-remove-le : (t : Text) (xs : List Text) → length (remove t xs) ≤ length xs
unfolding remove
length-remove-le t [] = omega arith
length-remove-le t (x ∷ xs) = ground (arith, length-remove-le t xs)

length-remove :
    (t : Text) (xs : List Text) → text_in t xs ≡ true → length (remove t xs) + 1 ≡ length xs
unfolding remove text_in
length-remove t [] h = cc
length-remove t (x ∷ xs) h = ground (arith, length-remove t xs)

held-append : (t u : Text) (xs : List Text) → held t (xs ++ u ∷ []) ≡ held t xs + held t (u ∷ [])
held-append t u [] = ground arith
held-append t u (x ∷ xs) = ground (arith, held-append t u xs)

held-remove :
    (t u : Text) (xs : List Text)
    → text_in u xs ≡ true
    → held t (remove u xs) + held t (u ∷ []) ≡ held t xs
unfolding remove text_in
held-remove t u [] h = cc
held-remove t u (x ∷ xs) h =
    ground (arith, held-remove t u xs, text_eq_iff u x, text_eq_iff t x, text_eq_iff t u)

pub record Fits (n : ℕ) (s : Limiter) : Type 0 where
  pub cap : s.max_concurrent ≡ n
  pub fits : length s.running_tasks ≤ n

Step-Fits : {n : ℕ} {s t : Limiter} → Step s t → Fits n s → Fits n t
unfolding acquire release
Step-Fits (acquires s t) v = ground (arith, length-append s.running_tasks (t ∷ []))
Step-Fits (releases s t) v = ground (arith, length-remove-le t s.running_tasks)

Reach-Fits : {n : ℕ} {s t : Limiter} → Fits n s → Reach s t → Fits n t
Reach-Fits v here = v
Reach-Fits v (next r st) = Step-Fits st (Reach-Fits v r)

init-Fits : (n : ℕ) → Fits n (init n)
unfolding init
init-Fits n = omega arith

-- After any interleaving of `acquire` and `release` calls, of tasks that hold a slot or not, at most
-- `n` slots are taken, the free ones and the taken ones are `n` together, and a call of `acquire`
-- is granted exactly when a slot is free.
pub Reach-slots :
    (n : ℕ) (s : Limiter) (t : Text)
    → Reach (init n) s
    → (length s.running_tasks ≤ n)
      × (get_available_slots s + length s.running_tasks ≡ n)
      × (((acquire s t).0 ≡ true) ↔ (0 < get_available_slots s))
unfolding get_available_slots acquire
Reach-slots n s t r = let v = Reach-Fits (init-Fits n) r in ground (arith, v.cap, v.fits)

-- As a bag of slot holders: a granted `acquire` adds one slot of `u` and changes no other count, a
-- refused one changes nothing, and `release` takes one slot from `u` if it holds any.
pub holders :
    (s : Limiter) (t u : Text)
    → let taken = s.running_tasks in
      (held t (acquire s u).2.running_tasks
        ≡ held t taken + (if (acquire s u).0 then held t (u ∷ []) else 0))
      × (held t (release s u).running_tasks
          ≡ held t taken - (if text_in u taken then held t (u ∷ []) else 0))
unfolding acquire release
holders s t u = ground (arith, held-append t u s.running_tasks, held-remove t u s.running_tasks)
