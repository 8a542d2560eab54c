-- ===== src/Tests/Startup.antt =====
-- A runtime whose operations all succeed, and the entry points in it.
use k8slan.Base.{Bool, true, false, [], refl}
use k8slan.Base.Text.{bytes}
use k8slan.Base.Io.{pure}
use k8slan.Startup.Options.{default_flags}
use k8slan.Startup.Runtime.{Runtime}
use k8slan.Startup.Operator.{
  operator_main, operator_manager, init_scheme, register, enable_webhooks,
  setup_lan_webhook_with_manager, setup_with_manager, registr_resource,
}
use k8slan.Startup.Node.{node_main, node_manager, node_scheme, daemon_setup_with_manager}
use k8slan.Startup.Order.{StartsLast}
use k8slan.Startup.Up.{IsOperatorUp, operator_main-IsOperatorUp, IsNodeUp, node_main-IsNodeUp}

-- The state says whether a manager was started.
abbrev switch_runtime : Runtime
switch_runtime = record {
  State = Bool;
  Scheme = Unit {0};
  Config = Unit {0};
  Manager = Unit {0};
  new_scheme = tt;
  add_to_scheme = λ types scheme. pure scheme;
  get_config = pure tt;
  new_manager = λ config scheme options. pure tt;
  complete_webhook = λ mgr defaulter. pure tt;
  index_field = λ mgr field key. pure tt;
  complete_operator = λ mgr name. pure tt;
  complete_daemon = λ mgr host. pure tt;
  add_healthz_check = λ mgr name. pure tt;
  add_readyz_check = λ mgr name. pure tt;
  start = λ mgr was. pure tt true;
  getenv = λ name s. [];
  hostname = pure (bytes "worker");
  spawn_plugins = λ ns devices s. s;
}

abbrev is_on : Bool → Bool
is_on s = s

switch_runtime-StartsLast : StartsLast switch_runtime is_on
switch_runtime-StartsLast = record {
  schemes = λ types scheme s. refl;
  configs = λ s. refl;
  managers = λ config scheme options s. refl;
  webhooks = λ mgr defaulter s. refl;
  indexes = λ mgr field key s. refl;
  operators = λ mgr name s. refl;
  daemons = λ mgr host s. refl;
  healthz = λ mgr name s. refl;
  readyz = λ mgr name s. refl;
  hosts = λ s. refl;
  spawns = λ ns devices s. refl;
}

operator_main-IsOperatorUp_example :
    IsOperatorUp switch_runtime default_flags false
      (operator_main switch_runtime default_flags false).1
unfolding operator_main operator_manager init_scheme register enable_webhooks
    setup_lan_webhook_with_manager setup_with_manager registr_resource
operator_main-IsOperatorUp_example =
    operator_main-IsOperatorUp switch_runtime is_on switch_runtime-StartsLast default_flags false
      refl refl

node_main-IsNodeUp_example : IsNodeUp switch_runtime false (node_main switch_runtime false).1
unfolding node_main node_manager node_scheme daemon_setup_with_manager
node_main-IsNodeUp_example =
    node_main-IsNodeUp switch_runtime is_on switch_runtime-StartsLast false refl refl
