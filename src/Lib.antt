-- ===== src/Lib.antt =====
-- SecuScan runs security scanners as plugins behind an HTTP API. This library models the parts of its
-- backend that decide whether work may be done and what is kept about it, and the theorems that make
-- those decisions correct.
--
-- Parts, and the files that model them:
--   backend/secuscan/ratelimit.py -- Ratelimit. A request is counted for the identity that
--     `resolve_client_identity` gives it (Ratelimit/Identity); `EndpointRateLimiter` bounds the requests
--     of an identity (Endpoint), `RateLimiter` the tasks of a client and plugin in an hour (Hourly),
--     `ConcurrentTaskLimiter` the tasks that run at once (Concurrent), and `WorkflowRateLimiter` how
--     often a workflow runs (Interval).
--   backend/secuscan/rate_limiter.py -- ScanLimiter: `ScanRateLimiter` counts in Redis (Redis) and falls
--     back to memory (the parent) when Redis is missing or down.
--   backend/secuscan/capabilities.py -- Capabilities: what a plugin needs against what is denied.
--   backend/secuscan/cache.py -- Cache: `CacheClient`, a bounded cache with expiry and LRU eviction.
--   backend/secuscan/network_policy.py and the mandatory denylist of backend/secuscan/config.py --
--     NetworkPolicy: the egress rules (Engine, over the addresses of Host), the defaults (Defaults) and
--     the audit trail.
--   backend/secuscan/workflows.py and the workflow tables of backend/secuscan/database.py -- Workflow: the
--     tick (Scheduler), the guards a step passes before it becomes a task (Steps, over the limiters and
--     the network policy above), the runs and their end (Runs) and the versions (Versions).
--   backend/secuscan/executor.py -- Executor: the life of a task's row under every order of the writes,
--     the retry of backend/secuscan/routes.py included (Lifecycle), what a task passes before its scanner
--     starts (Guardrails), the queues of the listeners to a task (Streams), and the timeout and result of a command (Result).
--   backend/secuscan/validation.py -- Validation: the networks that targets are compared with (Networks,
--     Allowed), the resolution of names and its cache (Dns), `validate_target` (Target), the arguments of
--     a command (Egress), ports, payloads, webhooks and the cleaning of texts (Ports, Payload, Webhook,
--     Sanitize). The egress check consults the network policy above, and Executor/Guardrails/Scope puts
--     `validate_target` in the place that the guardrails leave open for it.
--   backend/secuscan/plugins.py -- Plugins: the rendering of a command template (Template), the validation
--     and defaults of inputs (Schema) and `build_command` (Command), which cleans values with
--     `sanitize_input` of Validation.
--   backend/secuscan/auth.py -- Auth: signed session tokens, the API key and the owner of a request.
--   backend/secuscan/saved_views.py -- SavedViews: the saved filters of the owners. A handler decides on what it
--     reads and writes later, in any order with the others (Service); the table has the constraints of the
--     migration 009.
--   backend/secuscan/redaction.py -- Redaction: the walk over nested values and the sensitive inputs.
--   backend/secuscan/finding_intelligence.py -- Findings: the severities, the groups of findings, the summary
--     of assets and the comparison of two scans.
-- Each class is a record of its fields, each method a function from the state and the arguments to the
-- answer and the new state, with the method's name. Errors are constructors of the answer.
--
-- Instants are natural numbers of microseconds, and so are durations but where the code has seconds; an instant
-- that a method reads is an argument. The methods of the limiters run under a lock or without a wait, so that an
-- interleaving is a sequence of whole calls. Texts are lists of code points, dictionaries association lists
-- in order of insertion (Prelude); `lower` and `isdigit` are those of ASCII text. Where a workflow's loop awaits
-- between its steps, what other tasks do meanwhile is an argument (Workflow/Steps). All loops are structural
-- recursion, but for the number of polls that `_finalize_workflow_run` is given, 720 in the code, and the fuel of `validate_target`: it calls itself once
-- at most, on the host of a URL, and Validation/Target/Accepted shows that a fuel of 2 is enough.
--
-- Parameters, with what is assumed of them: the Redis client (INCR adds one to its own key's count,
-- ScanLimiter.Redis.Breaker.Lawful), `ipaddress`, `urlparse` and the DNS (the text of an address is
-- read back, NetworkPolicy.Pinning.IsLawful and Validation.Target.Accepted.IsLawful), the HMAC, JSON and
-- base64 of the session tokens (Auth.Token), `json.loads`, and regular expressions (those of Redaction by the segments
-- they find, those of plugin metadata by whether they match). The plugins, target policies and target
-- validation that steps and guardrails consult are fields of Workflow.Steps.World and
-- Executor.Guardrails.World. The resolution of wordlist paths, which reads the disk, is an argument of
-- `build_command`.
--
-- Not modelled: log lines, message texts beyond the figures they show, the audit file on disk and the HTTP
-- layer; the routes, but for the write of `retry_task`; the rest of the executor (the running of processes and sandboxes) and of the database;
-- the loading of plugins and the checks of their metadata; the merging of evidence in
-- `normalize_and_correlate_findings`; the risk scores, the triage; the notifications; the
-- reports; the scanners and the plugins' parsers, which read the text of external tools.
pub mod Prelude
pub mod Ratelimit
pub mod ScanLimiter
pub mod Auth
pub mod Capabilities
pub mod Cache
pub mod NetworkPolicy
pub mod Findings
pub mod Redaction
pub mod Plugins
pub mod SavedViews
pub mod Validation
pub mod Workflow
pub mod Executor
