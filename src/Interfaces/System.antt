-- ===== src/Interfaces/System.antt =====
-- The operating system as pkg/interfaces and the CNI plugin call it, over an unknown state: `os`,
-- `golang.org/x/sys/unix` and `ns` of the CNI plugins. No `Io` field panics.
use k8slan.Base.{ℕ}
use k8slan.Base.Text.{Text}
use k8slan.Base.Io.{Io}

pub record System : Type 1 where
  pub State : Type 0
  -- `ns.NetNS`
  pub NetNs : Type 0
  pub mkdir_all : Text → Io State (Unit {0})
  -- `unix.Mount(source, target, "none", flags, "")`
  pub mount : Text → Text → ℕ → Io State (Unit {0})
  pub unmount : Text → ℕ → Io State (Unit {0})
  -- `os.Create` and the `Close` of what it opens
  pub create_file : Text → Io State (Unit {0})
  pub remove : Text → Io State (Unit {0})
  pub remove_all : Text → Io State (Unit {0})
  -- `os.Stat`, for its error
  pub stat : Text → Io State (Unit {0})
  -- `ns.GetNS`, and the methods of `ns.NetNS`
  pub get_ns : Text → Io State NetNs
  pub set_ns : NetNs → Io State (Unit {0})
  pub close_ns : NetNs → Io State (Unit {0})
  pub ns_path : NetNs → Text
  -- `os.Getpid()` and `unix.Gettid()` of the goroutine's thread
  pub thread_ns : State → Text
  -- `unix.Unshare(unix.CLONE_NEWNET)`
  pub unshare_net : Io State (Unit {0})
