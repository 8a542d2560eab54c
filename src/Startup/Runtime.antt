-- ===== src/Startup/Runtime.antt =====
-- controller-runtime, the device plugin manager and the process, as the entry points call them.
use k8slan.Base.{List, Result, ok, err, panic}
use k8slan.Base.Text.{Text}
use k8slan.Base.Io.{Io, Error}
use k8slan.Lan.Nads.{Nad}
use k8slan.Webhook.{LanCustomDefaulter}
use k8slan.DevicePlugin.Lister.{DeviceList}
use k8slan.Startup.Options.{ManagerOptions}

-- The types that a scheme is told of: those of client-go, of the attachments, and of the LAN.
pub data Types : Type 0 where
  client_go_types nad_types lan_types : Types

pub record Runtime : Type 1 where
  pub State : Type 0
  -- `runtime.Scheme`, `*rest.Config` and `ctrl.Manager`
  pub Scheme : Type 0
  pub Config : Type 0
  pub Manager : Type 0
  pub new_scheme : Scheme
  pub add_to_scheme : Types → Scheme → Io State Scheme
  -- `ctrl.GetConfigOrDie`: it ends the process with 1 in place of an error.
  pub get_config : Io State Config
  pub new_manager : Config → Scheme → ManagerOptions → Io State Manager
  -- `NewWebhookManagedBy(mgr).For(&LAN{}).WithValidator(…).WithDefaulter(…).Complete()`
  pub complete_webhook : Manager → LanCustomDefaulter → Io State (Unit {0})
  -- `mgr.GetFieldIndexer().IndexField` on network attachments
  pub index_field : Manager → Text → (Nad → List Text) → Io State (Unit {0})
  -- `NewControllerManagedBy(mgr).For(&LAN{})….Complete(r)`, of the operator and of the daemon
  pub complete_operator : Manager → Text → Io State (Unit {0})
  pub complete_daemon : Manager → Text → Io State (Unit {0})
  pub add_healthz_check : Manager → Text → Io State (Unit {0})
  pub add_readyz_check : Manager → Text → Io State (Unit {0})
  pub start : Manager → Io State (Unit {0})
  pub getenv : Text → State → Text
  pub hostname : Io State Text
  -- `go dpm.NewManager(lister).Run()`, by the resource namespace and the devices of the lister
  pub spawn_plugins : Text → DeviceList → State → State

-- How a process ends.
pub data Exit : Type 0 where
  returned : Exit
  exit_1 : Error → Exit
  panicked : Exit

-- Every error of `main` is printed and ends the process by `os.Exit(1)`.
abbrev pub exit_of : Result Error (Unit {0}) → Exit
exit_of (ok u) = returned
exit_of (err e) = exit_1 e
exit_of panic = panicked

-- `utilruntime.Must`, and `panic(err)`
abbrev pub no_error {ℓ} : {A : Type ℓ} → Result Error A → Result Error A
no_error (ok a) = ok a
no_error (err e) = panic
no_error panic = panic

abbrev pub must {ℓ κ} : {S : Type ℓ} {A : Type κ} → Io S A → Io S A
must m s = let (r, t) = m s in (no_error r, t)
