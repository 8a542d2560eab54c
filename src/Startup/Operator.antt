-- ===== src/Startup/Operator.antt =====
-- `main` of the operator (cmd/main.go), with what registers the webhook
-- (internal/webhook/v1beta1/lan_webhook.go) and the controller (internal/controller/lan_controller.go).

use k8slan.Base.{not, ◌==◌, list_eq, nat_eq, if◌then◌else◌}
use k8slan.Base.Text.{bytes}
use k8slan.Base.Io.{Io, ◌>>=◌, ◌>>◌, pure}
use k8slan.Webhook.{lan_defaulter}
use k8slan.Controller.{extract_key}
use k8slan.Startup.Options.{Flags, manager_options}
use k8slan.Startup.Runtime.{Runtime, Exit, exit_of, must, client_go_types, nad_types, lan_types}

module _ (rt : Runtime) where
  -- `init`: the scheme of the program
  unfoldable pub init_scheme : Io rt.State rt.Scheme
  init_scheme = do
    a ← must (rt.add_to_scheme client_go_types rt.new_scheme)
    b ← must (rt.add_to_scheme nad_types a)
    must (rt.add_to_scheme lan_types b)

  unfoldable pub setup_lan_webhook_with_manager : rt.Manager → Io rt.State (Unit {0})
  setup_lan_webhook_with_manager mgr = rt.complete_webhook mgr lan_defaulter

  unfoldable pub registr_resource : rt.Manager → Io rt.State (Unit {0})
  registr_resource mgr = rt.index_field mgr (bytes ".metadata.controller") extract_key

  unfoldable pub setup_with_manager : rt.Manager → Io rt.State (Unit {0})
  setup_with_manager mgr = do registr_resource mgr; rt.complete_operator mgr (bytes "lan")

  -- The webhook, unless the environment turns it off.
  unfoldable pub enable_webhooks : rt.Manager → Io rt.State (Unit {0})
  unfolding list_eq nat_eq
  enable_webhooks mgr s =
      (if not (rt.getenv (bytes "ENABLE_WEBHOOKS") s == bytes "false")
          then setup_lan_webhook_with_manager mgr
          else pure tt)
        s

  -- What is registered with the manager before it starts.
  unfoldable pub register : rt.Manager → Io rt.State (Unit {0})
  register mgr = do
    enable_webhooks mgr
    setup_with_manager mgr
    rt.add_healthz_check mgr (bytes "healthz")
    rt.add_readyz_check mgr (bytes "readyz")

  unfoldable pub operator_manager : Flags → Io rt.State rt.Manager
  operator_manager flags = do
    scheme ← init_scheme
    config ← rt.get_config
    mgr ← rt.new_manager config scheme (manager_options flags)
    register mgr
    pure mgr

  unfoldable pub operator_main : Flags → rt.State → Exit × rt.State
  operator_main flags s = let (r, t) = (operator_manager flags >>= rt.start) s in (exit_of r, t)
