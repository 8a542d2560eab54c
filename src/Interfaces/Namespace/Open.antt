-- ===== src/Interfaces/Namespace/Open.antt =====
-- Making and removing a named namespace (pkg/interfaces/ns.go) ends with a result or an error.
use k8slan.Base.{refl, ◌+◌, ◌≢◌, Bool-cases, inl, inr, Result, ok, err, panic, []}
use k8slan.Base.Text.{Text, bytes}
use k8slan.Base.Io.{Io, ◌>>=◌, ◌>>◌, deferring, Error, printing}
use k8slan.Base.Returns.{Returns, returns_bind, returns_printing, returns_deferring, attempt_then}
use k8slan.Interfaces.System.{System}
use k8slan.Interfaces.Returns.{SystemReturns}
use k8slan.Interfaces.Namespace.{
  get_ns_run_dir, named_path, ms_bind, ms_rec, ms_shared, mnt_detach, einval, same_errno, remount,
  current_thread_net_ns_path, persist_ns, new_ns, delete_named,
}

module _ (sys : System) (r : SystemReturns sys) where
  remount_returns : (x : Result Error (Unit {0})) → x ≢ panic → Returns (remount sys x)
  unfolding remount
  remount_returns (ok u) h = record { at = λ s p. cc }
  remount_returns panic h = absurd (h refl)
  remount_returns (err e) h = record {
    at = λ s.
        let bind = sys.mount get_ns_run_dir get_ns_run_dir (ms_bind + ms_rec) in
        let share = sys.mount [] get_ns_run_dir (ms_shared + ms_rec) in
        elim (Bool-cases (same_errno e einval)) [
          | inl invalid ↦
              rw (invalid, remount)
                ((returns_bind (printing (bytes "mount --rbind failed") bind) _
                    (returns_printing bind (r.mounts _ _ _) _)
                    (λ _. returns_printing share (r.mounts _ _ _) _)).at
                  s)
          | inr other ↦ rw (other, remount) (λ p. cc)
        ];
  }

  thread_returns : Returns (current_thread_net_ns_path sys)
  unfolding current_thread_net_ns_path
  thread_returns = record { at = λ s p. cc }

  -- What the goroutine does in its new namespace
  abbrev bind_thread : Text → Io sys.State (Unit {0})
  bind_thread path = do
    thread ← current_thread_net_ns_path sys
    printing (bytes "failed to bind mount ns") (sys.mount thread path ms_bind)

  bind_thread_returns : (path : Text) → Returns (bind_thread path)
  bind_thread_returns path =
      returns_bind (current_thread_net_ns_path sys) _ thread_returns λ thread.
        returns_printing (sys.mount thread path ms_bind) (r.mounts thread path ms_bind)
          (bytes "failed to bind mount ns")

  persist_ns_returns : (path : Text) → Returns (persist_ns sys path)
  unfolding persist_ns
  persist_ns_returns path = returns_bind (current_thread_net_ns_path sys) _ thread_returns λ thread.
      returns_bind (sys.get_ns thread) _ (r.opens thread) λ orig.
        returns_deferring (sys.unshare_net >> deferring (sys.set_ns orig) (bind_thread path))
          (returns_bind sys.unshare_net _ r.unshares
            λ _. returns_deferring (bind_thread path) (bind_thread_returns path) (sys.set_ns orig))
          (sys.close_ns orig)

  pub new_ns_returns : (name : Text) → Returns (new_ns sys name)
  unfolding new_ns
  new_ns_returns name =
      let path = named_path name in
      let share = sys.mount [] get_ns_run_dir (ms_shared + ms_rec) in
      returns_bind (sys.mkdir_all get_ns_run_dir) _ (r.makes_dir get_ns_run_dir) λ _.
        attempt_then share _ (r.mounts _ _ _) λ first s u ne e.
          (returns_bind (remount sys first) _ (remount_returns first ne) (λ _.
              returns_bind (sys.create_file path) _ (r.creates path) λ _.
                returns_deferring
                  (printing (bytes "failed to create namespace") (persist_ns sys path)
                    >> sys.get_ns path)
                  (returns_bind
                    (printing (bytes "failed to create namespace") (persist_ns sys path)) _
                    (returns_printing (persist_ns sys path) (persist_ns_returns path) _)
                    (λ _. r.opens path))
                  (sys.remove_all path))).at
            u

  pub delete_named_returns : (name : Text) → Returns (delete_named sys name)
  unfolding delete_named
  delete_named_returns name =
      returns_bind (sys.unmount (named_path name) mnt_detach) _
        (r.unmounts (named_path name) mnt_detach) (λ _. r.removes (named_path name))
