-- ===== src/Interfaces/Namespace.antt =====
-- Named network namespaces (pkg/interfaces/ns.go and del.go). The goroutine of `NewNS` runs to its
-- end while `NewNS` waits, so it is a part of the function; locking it to its thread is left out.
pub mod Made
pub mod Open
pub mod Paths
pub mod Thread
use k8slan.Base.{ℕ, ◌+◌, Bool, false, Result, ok, err, panic, [], ◌==◌, nat_eq, if◌then◌else◌}
use k8slan.Base.Text.{Text, bytes, has_prefix}
use k8slan.Base.FilePath.{join}
use k8slan.Base.Io.{Io, Error, errno, message, ◌>>=◌, ◌>>◌, printing, ignoring, attempt, deferring}
use k8slan.Interfaces.System.{System}

unfoldable pub get_ns_run_dir : Text
get_ns_run_dir = bytes "/var/run/netns"

-- Flags and an error number of Linux
abbrev pub ms_bind : ℕ
ms_bind = 0x1000

abbrev pub ms_rec : ℕ
ms_rec = 0x4000

abbrev pub ms_shared : ℕ
ms_shared = 0x100000

abbrev pub mnt_detach : ℕ
mnt_detach = 2

abbrev pub einval : ℕ
einval = 22

-- `path.Join(getNsRunDir(), name)`
unfoldable pub named_path : Text → Text
unfolding get_ns_run_dir join
named_path name = join get_ns_run_dir name

-- `err == number`, with no unwrapping
unfoldable pub same_errno : Error → ℕ → Bool
unfolding nat_eq
same_errno (errno k) n = k == n
same_errno e n = false

module _ (sys : System) where
  -- The directory is bound to itself and made shared again, if it was no mount point.
  remount : Result Error (Unit {0}) → Io sys.State (Unit {0})
  unfolding same_errno
  remount (ok u) s = (ok tt, s)
  remount panic s = (panic, s)
  remount (err e) s =
      if same_errno e einval
      then (do
        printing (bytes "mount --rbind failed")
            (sys.mount get_ns_run_dir get_ns_run_dir (ms_bind + ms_rec))
        printing (bytes "mount --make-rshared failed")
            (sys.mount [] get_ns_run_dir (ms_shared + ms_rec)))
          s
      else (err (message (bytes "mount --make-rshared failed")), s)

  -- `getCurrentThreadNetNSPath`
  current_thread_net_ns_path : Io sys.State Text
  current_thread_net_ns_path s = (ok (sys.thread_ns s), s)

  -- The goroutine: a new namespace, kept by a bind mount. The thread goes back to its own.
  persist_ns : Text → Io sys.State (Unit {0})
  unfolding current_thread_net_ns_path
  persist_ns path = do
    thread ← current_thread_net_ns_path
    orig ← sys.get_ns thread
    deferring (sys.close_ns orig) (do
      sys.unshare_net
      deferring (sys.set_ns orig) (do
        thread' ← current_thread_net_ns_path
        printing (bytes "failed to bind mount ns") (sys.mount thread' path ms_bind)))

  unfoldable pub new_ns : Text → Io sys.State sys.NetNs
  unfolding remount persist_ns
  new_ns nsname = do
    sys.mkdir_all get_ns_run_dir
    first ← attempt (sys.mount [] get_ns_run_dir (ms_shared + ms_rec))
    remount first
    sys.create_file (named_path nsname)
    deferring (sys.remove_all (named_path nsname)) (do
      printing (bytes "failed to create namespace") (persist_ns (named_path nsname))
      sys.get_ns (named_path nsname))

  -- Only what was mounted under the directory is unmounted.
  unfoldable pub unmount_ns : sys.NetNs → Io sys.State (Unit {0})
  unmount_ns ns s =
      if has_prefix (sys.ns_path ns) get_ns_run_dir
      then (do
        printing (bytes "failed to unmount NS") (sys.unmount (sys.ns_path ns) 0)
        printing (bytes "failed to remove ns path") (sys.remove (sys.ns_path ns)))
          s
      else (ok tt, s)

  unfoldable pub delete_named : Text → Io sys.State (Unit {0})
  delete_named name = do sys.unmount (named_path name) mnt_detach; sys.remove (named_path name)

  -- `Remove` (del.go): the error is dropped.
  unfoldable pub remove_ns : Text → Io sys.State (Unit {0})
  unfolding delete_named
  remove_ns nsname = ignoring (delete_named nsname)
