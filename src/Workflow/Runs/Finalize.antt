-- ===== src/Workflow/Runs/Finalize.antt =====
-- How the loop of `_finalize_workflow_run` ends.
use secu_scan.Prelude.{
  ℕ, zero, suc, ◌+◌, ◌<◌, ◌≡◌, refl, sym, ap, ◌∙◌, true, Option, none, some, arith, if◌then◌else◌,
  Text, text_eq_refl, lookup, is_some, lookup-insert,
}
use secu_scan.Workflow.Runs.{
  Status, failed, Run, Tables, check_workflow_run_tasks, finalize_workflow_run, finalize, timed_out,
}

-- The status and the message of a run that is over.
abbrev pub ended : Option Run → Option (Status × Option Text)
ended none = none
ended (some run) = if run.is_complete then some (run.status, run.error_message) else none

-- The `k` polls from poll `i` on: none raises, and in none is there a verdict.
abbrev pub Quiet : (ℕ → Option Tables) → Text → ℕ → ℕ → Type 0
Quiet read run_id i zero = Unit {0}
Quiet read run_id i (suc k) =
    ((t : Tables) × (read i ≡ some t) × (check_workflow_run_tasks run_id t ≡ none))
    × Quiet read run_id (i + 1) k

finalize_workflow_run-ended :
    (run_id : Text) (status : Status) (message : Option Text) (t : Tables)
    → ended (lookup run_id (finalize_workflow_run run_id status message t).runs)
      ≡ (if is_some (lookup run_id t.runs) then some (status, message) else none)
unfolding finalize_workflow_run
finalize_workflow_run-ended run_id status message t = split (lookup run_id t.runs) refl
  where
    split :
        (o : Option Run)
        → lookup run_id t.runs ≡ o
        → ended (lookup run_id (finalize_workflow_run run_id status message t).runs)
          ≡ (if is_some o then some (status, message) else none)
    split none q = rw (finalize_workflow_run, q) (ap ended q)
    split (some run) q =
        rw (finalize_workflow_run, q)
          (ap ended (lookup-insert run_id run_id _ t.runs) ∙ rw (text_eq_refl run_id) refl)

checked_run :
    (run_id : Text) (status : Status) (t : Tables)
    → check_workflow_run_tasks run_id t ≡ some status
    → is_some (lookup run_id t.runs) ≡ true
unfolding check_workflow_run_tasks
checked_run run_id status t h = ground (arith, h)

read_at :
    (read : ℕ → Option Tables) (i j : ℕ) {k : ℕ} {o : Option Tables}
    → j ≡ k
    → k ≡ i
    → read j ≡ o
    → read i ≡ o
read_at read i j e f r = ap read (sym (e ∙ f)) ∙ r

settled_from :
    (read : ℕ → Option Tables) (run_id : Text) (status : Status) (t : Tables) (j i k polls : ℕ)
    → Quiet read run_id i k
    → read j ≡ some t
    → check_workflow_run_tasks run_id t ≡ some status
    → j ≡ i + k
    → k < polls
    → finalize read run_id i polls ≡ some (finalize_workflow_run run_id status none t)
unfolding finalize
settled_from read run_id status t j i k zero q r v e h = absurd (omega arith)
settled_from read run_id status t j i zero (suc polls) q r v e h =
    rw (finalize, read_at read i j e (omega arith) r, v) refl
settled_from read run_id status t j i (suc k) (suc polls) ((t', r', v'), q) r v e h =
    rw (finalize, r', v')
      (settled_from read run_id status t j (i + 1) k polls q r v (e ∙ omega arith) (omega arith))

timed_out_from :
    (read : ℕ → Option Tables) (run_id : Text) (t : Tables) (j i polls : ℕ)
    → Quiet read run_id i polls
    → read j ≡ some t
    → j ≡ i + polls
    → finalize read run_id i polls ≡ some (finalize_workflow_run run_id failed (some timed_out) t)
unfolding finalize
timed_out_from read run_id t j i zero q r e = rw (finalize, read_at read i j e (omega arith) r) refl
timed_out_from read run_id t j i (suc polls) ((t', r', v'), q) r e =
    rw (finalize, r', v') (timed_out_from read run_id t j (i + 1) polls q r (e ∙ omega arith))

-- If no poll before poll `k` raises or finds the run settled, and poll `k`, one of the `polls`, finds
-- it settled, then the loop ends there: the run is over with that verdict and no message.
pub finalize_settled :
    (read : ℕ → Option Tables) (run_id : Text) (status : Status) (t : Tables) (k polls : ℕ)
    → Quiet read run_id 0 k
    → read k ≡ some t
    → check_workflow_run_tasks run_id t ≡ some status
    → k < polls
    → (t' : Tables) × (finalize read run_id 0 polls ≡ some t')
      × (ended (lookup run_id t'.runs) ≡ some (status, none))
finalize_settled read run_id status t k polls q r v h = (
  finalize_workflow_run run_id status none t,
  settled_from read run_id status t k 0 k polls q r v (omega arith) h,
  finalize_workflow_run-ended run_id status none t ∙ rw (checked_run run_id status t v) refl,
)

-- If no poll raises or finds it settled, then a run that has a row is over all the same: it has failed,
-- with the message that finalization timed out.
pub finalize-timed_out :
    (read : ℕ → Option Tables) (run_id : Text) (t : Tables) (polls : ℕ)
    → Quiet read run_id 0 polls
    → read polls ≡ some t
    → is_some (lookup run_id t.runs) ≡ true
    → (t' : Tables) × (finalize read run_id 0 polls ≡ some t')
      × (ended (lookup run_id t'.runs) ≡ some (failed, some timed_out))
finalize-timed_out read run_id t polls q r there = (
  finalize_workflow_run run_id failed (some timed_out) t,
  timed_out_from read run_id t polls 0 polls q r (omega arith),
  finalize_workflow_run-ended run_id failed (some timed_out) t ∙ rw there refl,
)

abandoned_from :
    (read : ℕ → Option Tables) (run_id : Text) (j i k polls : ℕ)
    → Quiet read run_id i k
    → read j ≡ none
    → j ≡ i + k
    → k < polls
    → finalize read run_id i polls ≡ none
unfolding finalize
abandoned_from read run_id j i k zero q r e h = absurd (omega arith)
abandoned_from read run_id j i zero (suc polls) q r e h =
    rw (finalize, read_at read i j e (omega arith) r) refl
abandoned_from read run_id j i (suc k) (suc polls) ((t', r', v'), q) r e h =
    rw (finalize, r', v')
      (abandoned_from read run_id j (i + 1) k polls q r (e ∙ omega arith) (omega arith))

-- One exception is enough to leave the run as it is, for good: the loop ends, and no status is written.
pub finalize_abandoned :
    (read : ℕ → Option Tables) (run_id : Text) (k polls : ℕ)
    → Quiet read run_id 0 k
    → read k ≡ none
    → k < polls
    → finalize read run_id 0 polls ≡ none
finalize_abandoned read run_id k polls q r h =
    abandoned_from read run_id k 0 k polls q r (omega arith) h
