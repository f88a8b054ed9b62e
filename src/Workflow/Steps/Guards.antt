-- ===== src/Workflow/Steps/Guards.antt =====
-- What a step has passed that has become a task.
use secu_scan.Prelude.{
  ◌≡◌, refl, sym, ap, ◌∙◌, Bool, true, false, not, ◌&&◌, ◌||◌, Option, none, some, [], arith,
  if◌then◌else◌, Text, codes, text_eq, or_default,
}
use secu_scan.Ratelimit.Identity.{truthy}
use secu_scan.NetworkPolicy.Host.{Resolver, target_host, locate}
use secu_scan.NetworkPolicy.Engine.{Engine}
use secu_scan.NetworkPolicy.Decision.{permitted_at, address_of, check_access-permitted}
use secu_scan.Workflow.Steps.{
  Settings, Plugin, Step, World, State, Gate, go, stop, raise, Outcome, created, skipped, raised,
  TargetPolicy, safe_mode, allows_exploit, requires_exploit_policy, check_network, check_target,
  launch, run_plugin, run_step,
}

abbrev is_go : Gate → Bool
is_go go = true
is_go stop = false
is_go raise = false

abbrev is_created : Outcome → Bool
is_created created = true
is_created skipped = false
is_created raised = false

-- The network policy permits the target, or is not enforced.
abbrev pub network_ok : Settings → World → Text → Step → Engine → Bool
network_ok c w target step e = not c.enforce_network_policy || elim w.resolver [
  | none ↦ false
  | some resolve ↦
      permitted_at step.now e
        (address_of (locate w.environment resolve (target_host w.environment target)))
]

-- There is no target, the plugin reads code, or the target is valid in time and the network policy has
-- nothing against it.
abbrev pub target_ok : Settings → World → Plugin → Bool → Step → Engine → Bool
target_ok c w plugin safe step e = elim (truthy step.target) [
  | none ↦ true
  | some target ↦
      text_eq plugin.category (codes "code")
      || (or_default false (w.validate_target target safe) && network_ok c w target step e)
]

check_network-ok :
    (c : Settings) (w : World) (plugin_id : Text) (step : Step) (target : Text) (e : Engine)
    → is_go (check_network c w plugin_id step target e).0 ≡ network_ok c w target step e
unfolding check_network
check_network-ok c w plugin_id step target e = split c.enforce_network_policy w.resolver refl refl
  where
    split :
        (b : Bool) (o : Option Resolver)
        → c.enforce_network_policy ≡ b
        → w.resolver ≡ o
        → is_go (check_network c w plugin_id step target e).0 ≡ network_ok c w target step e
    split false o p q = rw (check_network, p) refl
    split true none p q = rw (check_network, p, q) refl
    split true (some r) p q =
        rw (check_network, p, q)
          (ground (
            arith,
            check_access-permitted w.environment r step.now
                (record {
                  dest_ip = target;
                  dest_port = 0;
                  plugin_id = plugin_id;
                  task_id = [];
                  dest_hostname = none;
                })
                e,
          ))

check_target-ok :
    (c : Settings) (w : World) (plugin_id : Text) (plugin : Plugin) (safe : Bool) (step : Step)
    (e : Engine)
    → is_go (check_target c w plugin_id plugin safe step e).0 ≡ target_ok c w plugin safe step e
unfolding check_target
check_target-ok c w plugin_id plugin safe step e = split (truthy step.target) refl
  where
    split :
        (o : Option Text)
        → truthy step.target ≡ o
        → is_go (check_target c w plugin_id plugin safe step e).0 ≡ target_ok c w plugin safe step e
    split none q = rw (check_target, target_ok, q) refl
    split (some t) q =
        rw (check_target, target_ok, q) (ground (arith, check_network-ok c w plugin_id step t e))

run_plugin-guards :
    (c : Settings) (w : World) (owner_id plugin_id : Text) (plugin : Plugin) (step : Step)
    (s : State)
    → (run_plugin c w owner_id plugin_id plugin step s).0 ≡ created
    → let policy = w.get_target_policy step.target_policy_id in
      ((not (requires_exploit_policy plugin step) || allows_exploit policy) ≡ true)
      × (target_ok c w plugin (safe_mode c policy) step s.engine ≡ true)
unfolding run_plugin
run_plugin-guards c w owner_id plugin_id plugin step s h =
    split (requires_exploit_policy plugin step)
      (allows_exploit (w.get_target_policy step.target_policy_id))
      (check_target c w plugin_id plugin (safe_mode c (w.get_target_policy step.target_policy_id))
        step s.engine)
      (check_target-ok c w plugin_id plugin
        (safe_mode c (w.get_target_policy step.target_policy_id)) step s.engine)
      h
  where
    ok : Bool
    ok =
        target_ok c w plugin (safe_mode c (w.get_target_policy step.target_policy_id)) step s.engine

    end : Bool → Bool → Gate × Engine → Outcome × State
    end needs allows (gate, e) = if needs && not allows then (skipped, s) else elim gate [
      | go ↦ launch c owner_id plugin_id plugin step (record s { engine = e })
      | stop ↦ (skipped, record s { engine = e })
      | raise ↦ (raised, record s { engine = e })
    ]

    split :
        (needs allows : Bool) (g : Gate × Engine)
        → is_go g.0 ≡ ok
        → (end needs allows g).0 ≡ created
        → ((not needs || allows) ≡ true) × (ok ≡ true)
    split true false g k e = absurd (ground (arith, ap is_created e))
    split true true (go, x) k e = (refl, sym k)
    split true true (stop, x) k e = absurd (ground (arith, ap is_created e))
    split true true (raise, x) k e = absurd (ground (arith, ap is_created e))
    split false allows (go, x) k e = (refl, sym k)
    split false allows (stop, x) k e = absurd (ground (arith, ap is_created e))
    split false allows (raise, x) k e = absurd (ground (arith, ap is_created e))

-- A step becomes a task only if its plugin is there, an exploit it may need is allowed by its target
-- policy, and its target has passed the checks, the network policy's as the rules stand at that moment.
pub run_step-guards :
    (c : Settings) (w : World) (owner_id : Text) (step : Step) (s : State)
    → (run_step c w owner_id step s).0 ≡ created
    → let policy = w.get_target_policy step.target_policy_id in
      (plugin_id : Text) × (plugin : Plugin) × (truthy step.plugin_id ≡ some plugin_id)
      × (w.get_plugin plugin_id ≡ some plugin)
      × ((not (requires_exploit_policy plugin step) || allows_exploit policy) ≡ true)
      × (target_ok c w plugin (safe_mode c policy) step s.engine ≡ true)
unfolding run_step
run_step-guards c w owner_id step s h = named (truthy step.plugin_id) refl
  where
    policy : Option TargetPolicy
    policy = w.get_target_policy step.target_policy_id

    same :
        (plugin_id : Text) (plugin : Plugin)
        → truthy step.plugin_id ≡ some plugin_id
        → w.get_plugin plugin_id ≡ some plugin
        → run_step c w owner_id step s ≡ run_plugin c w owner_id plugin_id plugin step s
    same plugin_id plugin q r = rw (run_step, q, r) refl

    never : (run_step c w owner_id step s).0 ≡ skipped → ⊥
    never k = ground (arith, ap is_created (sym k ∙ h))

    found :
        (plugin_id : Text) (o : Option Plugin)
        → truthy step.plugin_id ≡ some plugin_id
        → w.get_plugin plugin_id ≡ o
        → (pid : Text) × (plugin : Plugin) × (truthy step.plugin_id ≡ some pid)
          × (w.get_plugin pid ≡ some plugin)
          × ((not (requires_exploit_policy plugin step) || allows_exploit policy) ≡ true)
          × (target_ok c w plugin (safe_mode c policy) step s.engine ≡ true)
    found plugin_id none q r = absurd (never (rw (run_step, q, r) refl))
    found plugin_id (some plugin) q r =
        let (allowed, ok) =
          run_plugin-guards c w owner_id plugin_id plugin step s
            (sym (ap (λ x. x.0) (same plugin_id plugin q r)) ∙ h) in
        (plugin_id, plugin, q, r, allowed, ok)

    named :
        (o : Option Text)
        → truthy step.plugin_id ≡ o
        → (pid : Text) × (plugin : Plugin) × (truthy step.plugin_id ≡ some pid)
          × (w.get_plugin pid ≡ some plugin)
          × ((not (requires_exploit_policy plugin step) || allows_exploit policy) ≡ true)
          × (target_ok c w plugin (safe_mode c policy) step s.engine ≡ true)
    named none q = absurd (never (rw (run_step, q) refl))
    named (some pid) q = found pid (w.get_plugin pid) q refl
