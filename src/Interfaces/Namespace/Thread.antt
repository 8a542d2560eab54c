-- ===== src/Interfaces/Namespace/Thread.antt =====
-- The thread on which `NewNS` makes a namespace (pkg/interfaces/ns.go), and whether it goes back to its own.
use mathlib.Core.Path.{subst, subst₂}
use k8slan.Base.{
  ℕ, ◌+◌, ◌≡◌, ◌≢◌, refl, sym, ap, ◌∙◌, ◌⊎◌, inl, inr, true, false, [], Result, ok, err, panic,
  if◌then◌else◌, Bool,
}
use k8slan.Base.Text.{Text, bytes}
use k8slan.Base.Io.{Io, Error, ◌>>=◌, ◌>>◌, then_run, attempt, deferring, printing}
use k8slan.Base.Keeps.{Keeps, keeps_bind}
use k8slan.Interfaces.System.{System}
use k8slan.Interfaces.Namespace.{
  get_ns_run_dir, named_path, einval, ms_bind, ms_rec, ms_shared, same_errno, remount,
  current_thread_net_ns_path, persist_ns, new_ns,
}

module _ (sys : System) {Place : Type 0} (current : sys.State → Place)
    (target : sys.NetNs → Place) where
  -- What is documented of the calls: which of them change the namespace that the thread is in.
  -- `Set` goes to the namespace that was opened, or ends with an error and goes nowhere.
  pub record IsThreaded : Type 0 where
    pub opens_own :
        (s t : sys.State) {ns : sys.NetNs}
        → sys.get_ns (sys.thread_ns s) s ≡ (ok ns, t)
        → target ns ≡ current s
    pub sets :
        (ns : sys.NetNs) (s : sys.State)
        → (current (sys.set_ns ns s).1 ≡ target ns)
          ⊎ (((sys.set_ns ns s).0 ≢ ok tt) × (current (sys.set_ns ns s).1 ≡ current s))
    pub unshares :
        (s : sys.State)
        → ((sys.unshare_net s).0 ≡ ok tt) ⊎ (current (sys.unshare_net s).1 ≡ current s)
    pub opens : (path : Text) → Keeps current (sys.get_ns path)
    pub closes : (ns : sys.NetNs) → Keeps current (sys.close_ns ns)
    pub mounts : (source dest : Text) (flags : ℕ) → Keeps current (sys.mount source dest flags)
    pub makes : (path : Text) → Keeps current (sys.mkdir_all path)
    pub creates : (path : Text) → Keeps current (sys.create_file path)
    pub removes : (path : Text) → Keeps current (sys.remove_all path)

  -- The thread is at `from` again, or it is where `Set` has failed that was to bring it there.
  abbrev pub Back : Place → Place → Type 0
  Back from at =
      (at ≡ from)
      ⊎ ((orig : sys.NetNs) × (u : sys.State) × (target orig ≡ from)
          × (current u ≡ at)
          × ((sys.set_ns orig u).0 ≢ ok tt))

  Back-then :
      {A B : Type 0} (m : Io sys.State A) (k : A → Io sys.State B) (s : sys.State)
      → Back (current s) (current (m s).1)
      → ((a : A) → Keeps current (k a))
      → Back (current s) (current (◌>>=◌ m k s).1)
  Back-then {A} m k s h keeps = go (m s) h
    where
      go :
          (r : Result Error A × sys.State)
          → Back (current s) (current r.1)
          → Back (current s) (current (then_run k r).1)
      go (ok a, u) b = subst (Back (current s)) (sym (keeps a u)) b
      go (err e, u) b = b
      go (panic, u) b = b

  then-Back :
      {A B : Type 0} (m : Io sys.State A) (k : A → Io sys.State B) (s : sys.State)
      → Keeps current m
      → ((a : A) (u : sys.State) → Back (current u) (current (k a u).1))
      → Back (current s) (current (◌>>=◌ m k s).1)
  then-Back {A} m k s keeps next = go (m s) (keeps s)
    where
      go :
          (r : Result Error A × sys.State)
          → current r.1 ≡ current s
          → Back (current s) (current (then_run k r).1)
      go (ok a, u) e = subst (λ p. Back p (current (k a u).1)) e (next a u)
      go (err x, u) e = inl e
      go (panic, u) e = inl e

  module _ (l : IsThreaded) where
    -- From the unsharing on, with the namespace `orig` to go back to
    unshared-Back :
        (orig : sys.NetNs) (m : Io sys.State (Unit {0})) (s : sys.State)
        → target orig ≡ current s
        → ((u : sys.State) → current (m u).1 ≡ current u)
        → Back (current s) (current (◌>>◌ sys.unshare_net (deferring (sys.set_ns orig) m) s).1)
    unshared-Back orig m s own keeps = go (sys.unshare_net s) (l.unshares s)
      where
        go :
            (r : Result Error (Unit {0}) × sys.State)
            → (r.0 ≡ ok tt) ⊎ (current r.1 ≡ current s)
            → Back (current s) (current (then_run (λ x. deferring (sys.set_ns orig) m) r).1)
        go (ok x, u) h = elim (l.sets orig (m u).1) [
          | inl there ↦ inl (there ∙ own)
          | inr (failed, stays) ↦ inr (orig, (m u).1, own, sym stays, failed)
        ]
        go (err e, u) (inl h) = cc
        go (err e, u) (inr h) = inl h
        go (panic, u) (inl h) = cc
        go (panic, u) (inr h) = inl h

    persist_ns-Back :
        (path : Text) (s : sys.State) → Back (current s) (current (persist_ns sys path s).1)
    unfolding persist_ns current_thread_net_ns_path
    persist_ns-Back path s = go (sys.get_ns (sys.thread_ns s) s) refl
      where
        mounted : Io sys.State (Unit {0})
        mounted = do
          thread ← current_thread_net_ns_path sys
          printing (bytes "failed to bind mount ns") (sys.mount thread path ms_bind)

        rest : sys.NetNs → Io sys.State (Unit {0})
        rest orig =
            deferring (sys.close_ns orig)
              (◌>>◌ sys.unshare_net (deferring (sys.set_ns orig) mounted))

        go :
            (r : Result Error sys.NetNs × sys.State)
            → sys.get_ns (sys.thread_ns s) s ≡ r
            → Back (current s) (current (then_run rest r).1)
        go (ok orig, u) e =
            let kept : current u ≡ current s =
              ap (λ r. current r.1) (sym e) ∙ l.opens (sys.thread_ns s) s in
            let inner =
              unshared-Back orig mounted u (l.opens_own s u e ∙ sym kept)
                (λ w. l.mounts (sys.thread_ns w) path ms_bind w) in
            subst₂ Back kept (sym (l.closes orig _)) inner
        go (err x, u) e = inl (ap (λ r. current r.1) (sym e) ∙ l.opens (sys.thread_ns s) s)
        go (panic, u) e = inl (ap (λ r. current r.1) (sym e) ∙ l.opens (sys.thread_ns s) s)

    remount-keeps : (r : Result Error (Unit {0})) → Keeps current (remount sys r)
    unfolding remount
    remount-keeps (ok x) s = refl
    remount-keeps panic s = refl
    remount-keeps (err e) s = again (same_errno e einval)
      where
        first : Io sys.State (Unit {0})
        first =
            printing (bytes "mount --rbind failed")
              (sys.mount get_ns_run_dir get_ns_run_dir (ms_bind + ms_rec))

        second : Io sys.State (Unit {0})
        second =
            printing (bytes "mount --make-rshared failed")
              (sys.mount [] get_ns_run_dir (ms_shared + ms_rec))

        again :
            (b : Bool)
            → current
                (if b
                  then ◌>>◌ first second s
                  else (err (Error.message (bytes "mount --make-rshared failed")), s)).1
              ≡ current s
        again true =
            keeps_bind current first (λ x. second)
              (l.mounts get_ns_run_dir get_ns_run_dir (ms_bind + ms_rec))
              (λ x. l.mounts [] get_ns_run_dir (ms_shared + ms_rec)) s
        again false = refl

    -- The file is made, the namespace is kept by it, and the file is opened.
    filled-Back :
        (path : Text) (s : sys.State)
        → Back (current s) (
            current
              (deferring
                (sys.remove_all path)
                (do
                  printing (bytes "failed to create namespace") (persist_ns sys path)
                  sys.get_ns path)
                s).1)
    filled-Back path s = subst (Back (current s)) (sym (l.removes path _)) (
        Back-then (printing (bytes "failed to create namespace") (persist_ns sys path))
          (λ x. sys.get_ns path) s (persist_ns-Back path s) (λ x. l.opens path))

    -- Over a system that changes the namespace of the thread only where it is documented: whatever
    -- the outcome of `NewNS`, the thread that it ran on is in the namespace that it was in before,
    -- unless a call of `Set` that was to bring it back there has failed, and then it is where it
    -- was at that call.
    pub new_ns-returns :
        (name : Text) (s : sys.State) → Back (current s) (current (new_ns sys name s).1)
    unfolding new_ns
    new_ns-returns name s =
        let path = named_path name in
        let share = sys.mount [] get_ns_run_dir (ms_shared + ms_rec) in
        then-Back (sys.mkdir_all get_ns_run_dir) _ s (l.makes get_ns_run_dir) λ x₁ s₁.
          then-Back (attempt share) _ s₁ (l.mounts [] get_ns_run_dir (ms_shared + ms_rec))
            λ first s₂.
              then-Back (remount sys first) _ s₂ (remount-keeps first) λ x₂ s₃.
                then-Back (sys.create_file path) _ s₃ (l.creates path) λ x₃. filled-Back path
