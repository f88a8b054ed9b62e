-- ===== src/Executor/Lifecycle/Over.antt =====
-- What happens to a task that is over.
use secu_scan.Prelude.{
  ℕ, ◌+◌, ◌≤◌, ◌<◌, ◌≡◌, refl, sym, subst, inl, inr, true, false, ◌&&◌, none, some, arith,
  if◌then◌else◌, Bool-cases, Text, text_eq, text_eq_iff, text_in, lookup, lookup-insert,
}
use secu_scan.Workflow.Runs.{Status, queued, running, completed, failed, cancelled}
use secu_scan.Ratelimit.Concurrent.Slots.{held}
use secu_scan.Executor.Lifecycle.{
  State, same_status, create_task, can_retry, retry_task, enter, claim, interrupt, settle,
  mark_task_failed, ask_to_cancel, cancel_task, unwind, leave, Step, creates, retries, acquires,
  enters, claims, interrupts, completes, fails, rejects, asks, cancels, unwinds, leaves, Reach,
  here, next,
}
use secu_scan.Executor.Lifecycle.Rows.{is_over, lookup-set_status, lookup-set_status_from}
use secu_scan.Executor.Lifecycle.Once.{held-append, held-own}

-- A task is over, or it has been put in the queue more often than `n` times.
abbrev IsDone : ℕ → Text → State → Type 0
IsDone n id s =
    (n ≤ held id s.queuings) × (is_over (lookup id s.tasks) ≡ false → n < held id s.queuings)

module _ (n : ℕ) (id : Text) (s : State) (k : IsDone n id s) where
  settle-IsDone :
      (j : Text) (status : Status) → is_over (some status) ≡ true → IsDone n id (settle j status s)
  unfolding settle
  settle-IsDone j status final =
      (k.0, rw (lookup-set_status id j status s.tasks) (λ h. k.1 (ground (arith, h, final))))

  unwind-IsDone : (j : Text) → IsDone n id (unwind j s)
  unfolding unwind
  unwind-IsDone j = (
    k.0,
    rw (lookup-set_status_from id j running cancelled s.tasks) (λ h. k.1 (ground (arith, h))),
  )

  create_task-IsDone : (j : Text) → lookup j s.tasks ≡ none → IsDone n id (create_task j s)
  unfolding create_task
  create_task-IsDone j fresh =
      rw (lookup-insert id j queued s.tasks, held-append id j s.queuings, held-own id j)
        (ground (arith, k.0), λ h. queued_again h)
    where
      queued_again :
          is_over (if text_eq id j then some queued else lookup id s.tasks) ≡ false
          → n < held id s.queuings + (if text_eq id j then 1 else 0)
      queued_again h = elim (Bool-cases (text_eq id j)) [
        | inl same ↦ rw same (omega (arith, k.0))
        | inr ne ↦ rw ne (ground (arith, k.1 (ground (arith, h, ne))))
      ]

  retry_task-IsDone : (j : Text) → IsDone n id (retry_task j s)
  unfolding retry_task
  retry_task-IsDone j = elim (Bool-cases (can_retry (lookup j s.tasks))) [
    | inl over ↦
        rw (over, lookup-insert id j queued s.tasks, held-append id j s.queuings, held-own id j)
          (ground (arith, k.0), λ h. queued_again h)
    | inr other ↦ rw other k
  ]
    where
      queued_again :
          is_over (if text_eq id j then some queued else lookup id s.tasks) ≡ false
          → n < held id s.queuings + (if text_eq id j then 1 else 0)
      queued_again h = elim (Bool-cases (text_eq id j)) [
        | inl same ↦ rw same (omega (arith, k.0))
        | inr ne ↦ rw ne (ground (arith, k.1 (ground (arith, h, ne))))
      ]

  claim-IsDone : (j : Text) → IsDone n id (claim j s)
  unfolding claim leave
  claim-IsDone j = elim (Bool-cases (same_status queued (lookup j s.tasks))) [
    | inl was ↦
        rw (was, lookup-set_status_from id j queued running s.tasks) (k.0, λ h. waited was h)
    | inr other ↦ rw other k
  ]
    where
      waited :
          same_status queued (lookup j s.tasks) ≡ true
          → is_over (
              if text_eq id j && same_status queued (lookup j s.tasks)
              then some running
              else lookup id s.tasks)
            ≡ false
          → n < held id s.queuings
      waited was h = elim (Bool-cases (text_eq id j)) [
        | inl same ↦ k.1 (
            not_over (
              subst (λ i. same_status queued (lookup i s.tasks) ≡ true)
                (sym ((text_eq_iff id j).0 same)) was))
        | inr ne ↦ k.1 (ground (arith, h, ne))
      ]
        where
          not_over :
              same_status queued (lookup id s.tasks) ≡ true → is_over (lookup id s.tasks) ≡ false
          not_over w = ground (arith, w)

Step-IsDone : {s t : State} (n : ℕ) (id : Text) → Step s t → IsDone n id s → IsDone n id t
unfolding settle mark_task_failed ask_to_cancel cancel_task unwind enter interrupt leave
Step-IsDone n id (creates s j fresh) k = create_task-IsDone n id s k j fresh
Step-IsDone n id (retries s j) k = retry_task-IsDone n id s k j
Step-IsDone n id (acquires s j) k = k
Step-IsDone n id (enters s j) k = k
Step-IsDone n id (claims s j call) k = claim-IsDone n id s k j
Step-IsDone n id (interrupts s j call) k = k
Step-IsDone n id (completes s j act) k = settle-IsDone n id s k j completed refl
Step-IsDone n id (fails s j act) k = settle-IsDone n id s k j failed refl
Step-IsDone n id (rejects s j) k = settle-IsDone n id s k j failed refl
Step-IsDone n id (asks s j) k = elim (Bool-cases (text_in j s.running_tasks)) [
  | inl there ↦ rw there k
  | inr gone ↦ rw gone k
]
Step-IsDone n id (cancels s j call) k = unwind-IsDone n id s k j
Step-IsDone n id (unwinds s j act) k = unwind-IsDone n id s k j
Step-IsDone n id (leaves s j act) k = k

Reach-IsDone : {s t : State} (n : ℕ) (id : Text) → Reach s t → IsDone n id s → IsDone n id t
Reach-IsDone n id here k = k
Reach-IsDone n id (next r st) k = Step-IsDone n id st (Reach-IsDone n id r k)

-- A task that has a final status leaves it only by a retry: in whatever order the writes come, as long as it has
-- not been put in the queue again it has a final status still. Which one may change.
pub Reach-over :
    {s t : State} (id : Text)
    → Reach s t
    → is_over (lookup id s.tasks) ≡ true
    → held id t.queuings ≡ held id s.queuings
    → is_over (lookup id t.tasks) ≡ true
Reach-over {s} {t} id r over same =
    let k =
      Reach-IsDone (held id s.queuings) id r (omega arith, λ h. absurd (ground (arith, over, h))) in
    elim (Bool-cases (is_over (lookup id t.tasks))) [
      | inl done ↦ done
      | inr other ↦ absurd (omega (arith, k.1 other, same))
    ]
