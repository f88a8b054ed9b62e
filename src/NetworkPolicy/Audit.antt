-- ===== src/NetworkPolicy/Audit.antt =====
-- The audit trail: what a decision writes, and what the bounded list keeps.
use secu_scan.Prelude.{
  newest_short, newest, length-newest-le, newest-append, size, ℕ, ◌≤◌, ◌<◌, ◌≡◌, refl, sym, ap, ◌∙◌,
  subst, inl, inr, Bool, true, false, Option, List, [], ◌∷◌, ◌++◌, arith, ltb, if◌then◌else◌,
  Bool-cases, length, Text,
}
use mathlib.Core.List.{append-nil, append_assoc}
use secu_scan.NetworkPolicy.Host.{
  Address, Environment, Resolver, target_host, Located, literal, resolved, unresolved, locate,
}
use secu_scan.NetworkPolicy.Engine.{
  Action, allow, deny, Entry, Engine, init, last_entries, log_audit_entry, Access, Answer, Decision,
  decide, check_access, conclude, named,
}

abbrev pub action_of : Bool → Action
action_of true = allow
action_of false = deny

-- The entry of an answer to an access.
pub record Records (a : Access) (answer : Answer) (entry : Entry) : Type 0 where
  pub action : entry.action ≡ action_of answer.allowed
  pub reason : entry.reason ≡ answer.reason
  pub plugin_id : entry.plugin_id ≡ a.plugin_id
  pub task_id : entry.task_id ≡ a.task_id
  pub dest_port : entry.dest_port ≡ a.dest_port

abbrev Consistent : Decision → Type 0
Consistent (answer, action, matched) = action ≡ action_of answer.allowed

decide-Consistent : (now : ℕ) (ip : Address) (e : Engine) → Consistent (decide now ip e)
unfolding decide
decide-Consistent now ip e = ground arith

conclude-Records :
    (now : ℕ) (a : Access) (ip : Text) (host : Option Text) (d : Decision) (e : Engine)
    → Consistent d
    → let (answer, e') = conclude now a ip host d e in
      (entry : Entry) × (e' ≡ log_audit_entry entry e) × Records a answer entry
unfolding conclude
conclude-Records now a ip host (answer, action, matched) e h = (
  record {
    timestamp = now;
    plugin_id = a.plugin_id;
    task_id = a.task_id;
    action = action;
    dest_ip = ip;
    dest_port = a.dest_port;
    dest_hostname = host;
    policy_matched = matched;
    reason = answer.reason;
  },
  refl,
  record { action = h; reason = refl; plugin_id = refl; task_id = refl; dest_port = refl },
)

-- Every call of `check_access`, whatever it decides, writes one entry to the trail, which records the
-- answer's action and reason for the caller's plugin, task and port, and changes nothing else of the
-- engine.
pub check_access-Records :
    (env : Environment) (resolve : Resolver) (now : ℕ) (a : Access) (e : Engine)
    → let (answer, e') = check_access env resolve now a e in
      (entry : Entry) × (e' ≡ log_audit_entry entry e) × Records a answer entry
unfolding check_access
check_access-Records env resolve now a e =
    split (locate env resolve (target_host env a.dest_ip)) refl
  where
    split :
        (l : Located)
        → locate env resolve (target_host env a.dest_ip) ≡ l
        → let (answer, e') = check_access env resolve now a e in
          (entry : Entry) × (e' ≡ log_audit_entry entry e) × Records a answer entry
    split (literal ip) q =
        rw (q, check_access)
          (conclude-Records now a (env.str_address ip) a.dest_hostname (decide now ip e) e
            (decide-Consistent now ip e))
    split (resolved answer ip) q =
        rw (q, check_access)
          (conclude-Records now a answer (named a.dest_hostname (target_host env a.dest_ip))
            (decide now ip e) e (decide-Consistent now ip e))
    split unresolved q =
        rw (q, check_access) (conclude-Records now a a.dest_ip a.dest_hostname _ e refl)

-- The entries that are logged one after another.
pub log_all : List Entry → Engine → Engine
log_all [] e = e
log_all (x ∷ xs) e = log_all xs (log_audit_entry x e)

last_entries-pos : (n : ℕ) (es : List Entry) → 0 < n → last_entries n es ≡ newest n es
unfolding last_entries
last_entries-pos n es h = ground arith

-- What is cut is the newest of what is there, and what fits is not cut.
cut-newest :
    (n : ℕ) (es : List Entry)
    → 0 < n
    → (if ltb n (length es) then last_entries n es else es) ≡ newest n es
cut-newest n es pos = elim (Bool-cases (ltb n (length es))) [
  | inl over ↦ rw over (last_entries-pos n es pos)
  | inr fits ↦ rw fits (sym (newest_short n es (ground (arith, fits))))
]

log_audit_entry-newest :
    (n : ℕ) (x : Entry) (es : List Entry) (e : Engine)
    → 0 < n
    → e.max_audit_entries ≡ n
    → e.audit_entries ≡ newest n es
    → (log_audit_entry x e).audit_entries ≡ newest n (es ++ x ∷ [])
unfolding log_audit_entry
log_audit_entry-newest n x es e pos size held = rw size (
    cut-newest n (e.audit_entries ++ x ∷ []) pos
    ∙ ap (λ ys. newest n (ys ++ x ∷ [])) held
    ∙ newest-append n es (x ∷ []))

log_all-newest_from :
    (n : ℕ) (xs es : List Entry) (e : Engine)
    → 0 < n
    → e.max_audit_entries ≡ n
    → e.audit_entries ≡ newest n es
    → (log_all xs e).audit_entries ≡ newest n (es ++ xs)
unfolding log_all
log_all-newest_from n [] es e pos size held = rw (append-nil es) held
log_all-newest_from n (x ∷ xs) es e pos size held =
    log_all-newest_from n xs (es ++ x ∷ []) (log_audit_entry x e) pos (kept_size x e size)
      (log_audit_entry-newest n x es e pos size held)
    ∙ ap (newest n) (append_assoc es (x ∷ []) xs)
  where
    kept_size :
        (x : Entry) (e : Engine)
        → e.max_audit_entries ≡ n
        → (log_audit_entry x e).max_audit_entries ≡ n
    kept_size x e h = unfold log_audit_entry in h

-- With a cap `n` of at least 1, the trail of a new engine after any entries is the newest `n` of them,
-- in order; and so never more than `n`.
pub log_all-newest :
    (n : ℕ) (xs : List Entry)
    → 0 < n
    → ((log_all xs (init n)).audit_entries ≡ newest n xs)
      × (length (log_all xs (init n)).audit_entries ≤ n)
unfolding init
log_all-newest n xs pos =
    let same =
      log_all-newest_from n xs [] (init n) pos refl (sym (newest_short n [] (omega arith))) in
    (same, subst (λ es. length es ≤ n) (sym same) (length-newest-le n xs))

log_all_uncapped_from :
    (xs : List Entry) (e : Engine)
    → e.max_audit_entries ≡ 0
    → (log_all xs e).audit_entries ≡ e.audit_entries ++ xs
unfolding log_all log_audit_entry last_entries
log_all_uncapped_from [] e h = sym (append-nil e.audit_entries)
log_all_uncapped_from (x ∷ xs) e h =
    log_all_uncapped_from xs (log_audit_entry x e) h
    ∙ ap (λ es. es ++ xs) kept
    ∙ append_assoc e.audit_entries (x ∷ []) xs
  where
    kept : (log_audit_entry x e).audit_entries ≡ e.audit_entries ++ x ∷ []
    kept = rw h (ground arith)

-- A cap of 0 does not bound the trail: `entries[-0:]` is the whole list, and nothing is ever evicted.
pub log_all_uncapped : (xs : List Entry) → (log_all xs (init 0)).audit_entries ≡ xs
unfolding init
log_all_uncapped xs = log_all_uncapped_from xs (init 0) refl
