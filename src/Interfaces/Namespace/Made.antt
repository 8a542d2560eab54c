-- ===== src/Interfaces/Namespace/Made.antt =====
-- What `NewNS` (pkg/interfaces/ns.go) gives: the namespace as it was opened at its path.
use k8slan.Base.{◌+◌, ◌≡◌, ◌⊎◌, inr, ok, []}
use k8slan.Base.FilePath.{join}
use k8slan.Base.Text.{Text, bytes}
use k8slan.Base.Io.{attempt, printing, io_bind_ok, deferring_ok, ◌>>◌}
use k8slan.Interfaces.System.{System}
use k8slan.Interfaces.Namespace.{
  get_ns_run_dir, named_path, ms_rec, ms_shared, remount, persist_ns, new_ns,
}

module _ (sys : System) where
  -- The namespace was opened at this path; if it had just been made, the call of `RemoveAll` that is
  -- meant for failures came last.
  abbrev pub OpenedAt : Text → sys.NetNs → sys.State → Type 0
  OpenedAt path ns t =
      (u v : sys.State) × (sys.get_ns path u ≡ (ok ns, v))
      × ((v ≡ t) ⊎ ((sys.remove_all path v).1 ≡ t))

  pub new_ns-OpenedAt :
      (name : Text) (s : sys.State) {ns : sys.NetNs} {t : sys.State}
      → new_ns sys name s ≡ (ok ns, t)
      → OpenedAt (join (bytes "/var/run/netns") name) ns t
  unfolding new_ns named_path get_ns_run_dir
  new_ns-OpenedAt name s h =
      let path = named_path name in
      let share = sys.mount [] get_ns_run_dir (ms_shared + ms_rec) in
      let (x₁, s₁, e₁, h₁) = io_bind_ok (sys.mkdir_all get_ns_run_dir) _ s h in
      let (first, s₂, e₂, h₂) = io_bind_ok (attempt share) _ s₁ h₁ in
      let (x₃, s₃, e₃, h₃) = io_bind_ok (remount sys first) _ s₂ h₂ in
      let (x₄, s₄, e₄, h₄) = io_bind_ok (sys.create_file path) _ s₃ h₃ in
      let fill = printing (bytes "failed to create namespace") (persist_ns sys path) in
      let enter = sys.get_ns path in
      let (v, e₅, last) = deferring_ok (sys.remove_all path) (◌>>◌ fill enter) s₄ h₄ in
      let (x₆, u, e₆, h₆) = io_bind_ok fill (λ x. enter) s₄ e₅ in (u, v, h₆, inr last)
