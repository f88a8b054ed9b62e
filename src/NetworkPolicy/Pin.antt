-- ===== src/NetworkPolicy/Pin.antt =====
-- `resolve_and_pin`.
use secu_scan.Prelude.{ℕ, Bool, none, some, Text}
use secu_scan.NetworkPolicy.Host.{Environment, Resolver}
use secu_scan.NetworkPolicy.Engine.{Engine, check_access}

-- `resolve_and_pin`: the pinned address, and whether it is allowed. It resolves once, `at_pin`; what the
-- resolver says in the call of `check_access` is `at_check`. `none` is a host that the DNS does not
-- know; an answer that is no address raises.
pub data Pinned : Type 0 where
  pinned : Text → Bool → Engine → Pinned
  unresolvable : Engine → Pinned
  value_error : Pinned

unfoldable pub pin : Environment → Resolver → ℕ → Text → Text → Text → Text → Engine → Pinned
pin env at_check now plugin_id task_id target address e =
    let (answer, e') =
      check_access env at_check now
        (record {
          dest_ip = address;
          dest_port = 0;
          plugin_id = plugin_id;
          task_id = task_id;
          dest_hostname = some target;
        })
        e in
    pinned address answer.allowed e'

unfoldable pub resolve_and_pin :
    Environment → Resolver → Resolver → ℕ → Text → Text → Text → Engine → Pinned
unfolding pin
resolve_and_pin env at_pin at_check now target plugin_id task_id e = elim (env.ip_address target) [
  | some ip ↦ pin env at_check now plugin_id task_id target (env.str_address ip) e
  | none ↦ elim (at_pin target) [
    | none ↦ unresolvable e
    | some answer ↦ elim (env.ip_address answer) [
      | none ↦ value_error
      | some ip ↦ pin env at_check now plugin_id task_id target answer e
    ]
  ]
]
