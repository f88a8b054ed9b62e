-- ===== src/Executor/Lifecycle/Once.antt =====
-- Each time that a task is put in the queue, it is executed at most once.
use secu_scan.Prelude.{
  ℕ, ◌+◌, ◌≤◌, ◌<◌, ◌≡◌, refl, sym, ap, subst, inl, inr, true, ◌&&◌, Option, none, some, List, [],
  ◌∷◌, ◌++◌, arith, if◌then◌else◌, Bool-cases, Text, text_eq, text_eq_iff, text_in, lookup,
  lookup-insert,
}
use secu_scan.Workflow.Runs.{Status, queued, running, completed, failed, cancelled}
use secu_scan.Ratelimit.Concurrent.Slots.{held}
use secu_scan.Executor.Lifecycle.{
  State, start, same_status, set_status, set_status_from, create_task, can_retry, retry_task, enter,
  claim, interrupt, settle, mark_task_failed, ask_to_cancel, cancel_task, unwind, leave, Step,
  creates, retries, acquires, enters, claims, interrupts, completes, fails, rejects, asks, cancels,
  unwinds, leaves, Reach, here, next,
}
use secu_scan.Executor.Lifecycle.Rows.{lookup-set_status, lookup-set_status_from}

pub held-append :
    (t u : Text) (xs : List Text) → held t (xs ++ u ∷ []) ≡ held t xs + held t (u ∷ [])
held-append t u [] = ground arith
held-append t u (x ∷ xs) = ground (arith, held-append t u xs)

pub held-own : (t u : Text) → held t (u ∷ []) ≡ (if text_eq t u then 1 else 0)
held-own t u = ground arith

-- A task in the queue has one execution to come.
abbrev waiting : Option Status → ℕ
waiting none = 0
waiting (some queued) = 1
waiting (some running) = 0
waiting (some completed) = 0
waiting (some failed) = 0
waiting (some cancelled) = 0

-- The claims of a task, and the one to come, are no more than its queuings.
abbrev IsSound : Text → State → Type 0
IsSound id s = held id s.claims + waiting (lookup id s.tasks) ≤ held id s.queuings

module _ (id : Text) (s : State) (k : IsSound id s) where
  create-IsSound : (j : Text) → lookup j s.tasks ≡ none → IsSound id (create_task j s)
  unfolding create_task
  create-IsSound j fresh =
      rw (lookup-insert id j queued s.tasks, held-append id j s.queuings, held-own id j)
        (ground (arith, k))

  retry-IsSound : (j : Text) → IsSound id (retry_task j s)
  unfolding retry_task
  retry-IsSound j = elim (Bool-cases (can_retry (lookup j s.tasks))) [
    | inl over ↦
        rw (over, lookup-insert id j queued s.tasks, held-append id j s.queuings, held-own id j)
          (ground (arith, k))
    | inr other ↦ rw other k
  ]

  -- A final status takes a task out of the queue.
  set-IsSound :
      (j : Text) (status : Status)
      → waiting (some status) ≡ 0
      → held id s.claims + waiting (lookup id (set_status j status s.tasks)) ≤ held id s.queuings
  set-IsSound j status final = rw (lookup-set_status id j status s.tasks) (ground (arith, k, final))

  cancel-IsSound :
      (j : Text)
      → held id s.claims + waiting (lookup id (set_status_from j running cancelled s.tasks))
        ≤ held id s.queuings
  cancel-IsSound j = rw (lookup-set_status_from id j running cancelled s.tasks) (ground (arith, k))

  claim-IsSound : (j : Text) → IsSound id (claim j s)
  unfolding claim leave
  claim-IsSound j = elim (Bool-cases (same_status queued (lookup j s.tasks))) [
    | inl was ↦
        rw
          (
            was,
            lookup-set_status_from id j queued running s.tasks,
            held-append id j s.claims,
            held-own id j,
          )
          (claimed was)
    | inr other ↦ rw other k
  ]
    where
      claimed :
          same_status queued (lookup j s.tasks) ≡ true
          → held id s.claims
              + (if text_eq id j then 1 else 0)
              + waiting (
                  if text_eq id j && same_status queued (lookup j s.tasks)
                  then some running
                  else lookup id s.tasks)
            ≤ held id s.queuings
      claimed was = elim (Bool-cases (text_eq id j)) [
        | inl same ↦ rw (same, was) (own (lookup id s.tasks) refl (same_task same was))
        | inr ne ↦ rw ne (omega (arith, k))
      ]
        where
          same_task :
              text_eq id j ≡ true
              → same_status queued (lookup j s.tasks) ≡ true
              → same_status queued (lookup id s.tasks) ≡ true
          same_task same w =
              subst (λ i. same_status queued (lookup i s.tasks) ≡ true)
                (sym ((text_eq_iff id j).0 same)) w

          own :
              (o : Option Status)
              → lookup id s.tasks ≡ o
              → same_status queued (lookup id s.tasks) ≡ true
              → held id s.claims + 1 + 0 ≤ held id s.queuings
          own o q w = ground (arith, k, w, q)

Step-IsSound : {s t : State} (id : Text) → Step s t → IsSound id s → IsSound id t
unfolding settle mark_task_failed ask_to_cancel cancel_task unwind enter interrupt leave
Step-IsSound id (creates s j fresh) k = create-IsSound id s k j fresh
Step-IsSound id (retries s j) k = retry-IsSound id s k j
Step-IsSound id (acquires s j) k = k
Step-IsSound id (enters s j) k = k
Step-IsSound id (claims s j call) k = claim-IsSound id s k j
Step-IsSound id (interrupts s j call) k = k
Step-IsSound id (completes s j act) k = set-IsSound id s k j completed refl
Step-IsSound id (fails s j act) k = set-IsSound id s k j failed refl
Step-IsSound id (rejects s j) k = set-IsSound id s k j failed refl
Step-IsSound id (asks s j) k = elim (Bool-cases (text_in j s.running_tasks)) [
  | inl there ↦ rw there k
  | inr gone ↦ rw gone k
]
Step-IsSound id (cancels s j call) k = cancel-IsSound id s k j
Step-IsSound id (unwinds s j act) k = cancel-IsSound id s k j
Step-IsSound id (leaves s j act) k = k

start-IsSound : (n : ℕ) (id : Text) → IsSound id (start n)
unfolding lookup
start-IsSound n id = omega arith

Reach-IsSound : {s t : State} (id : Text) → Reach s t → IsSound id s → IsSound id t
Reach-IsSound id here k = k
Reach-IsSound id (next r st) k = Step-IsSound id st (Reach-IsSound id r k)

-- In every order of the writes, whatever calls of `execute_task`, retries and cancellations there are, a task is
-- claimed for execution no more often than it was put in the queue, by its creation or by a retry of a failed or
-- cancelled task; and while its row says `queued` it has been claimed less often than that.
pub Reach-once :
    (n : ℕ) (id : Text) {s : State}
    → Reach (start n) s
    → (held id s.claims ≤ held id s.queuings)
      × (lookup id s.tasks ≡ some queued → held id s.claims < held id s.queuings)
Reach-once n id {s} r =
    let k : IsSound id s = Reach-IsSound id r (start-IsSound n id) in
    (omega (arith, k), λ h. ground (arith, k, h, ap waiting h))
