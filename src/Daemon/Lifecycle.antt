-- ===== src/Daemon/Lifecycle.antt =====
-- The life of a LAN on one node, from its registration to its withdrawal.
use mathlib.Core.Path.{subst, subst₂}
use k8slan.Base.{
  ℕ, ◌≡◌, ◌≢◌, ap, ◌∙◌, ◌⊎◌, inl, inr, true, false, none, some, List, [], ◌∷◌, ◌++◌, contains,
  contains-append, refl, Result, ok, err, panic, arith, ◌==◌, ==_refl, list_eq, nat_eq,
  if◌then◌else◌,
}
use k8slan.Base.Text.{Text, bytes}
use k8slan.Lan.{Lan}
use k8slan.Interfaces.System.{System}
use k8slan.Interfaces.Namespace.{remove_ns, named_path, get_ns_run_dir}
use k8slan.Base.FilePath.{join}
use k8slan.Base.Io.{Error, then_run}
use k8slan.Daemon.Api.{Client, found, not_found, IsLawful, without, after_update}
use k8slan.Daemon.{Daemon, my_finalizer_name, withdraw, reconcile_lan, reconcile}

pub contains-without :
    (fin f : Text) (fins : List Text)
    → contains (without fin fins) f ≡ (if f == fin then false else contains fins f)
contains-without fin f [] = ground arith
contains-without fin f (g ∷ fins) = ground (arith, contains-without fin f fins)

contains_self : (fin : Text) (fins : List Text) → contains (fins ++ (fin ∷ [])) fin ≡ true
contains_self fin fins = contains-append fins (fin ∷ []) fin ∙ rw (==_refl fin) (ground arith)

pub after_update_cases :
    (lan : Lan) → (after_update lan ≡ not_found) ⊎ (after_update lan ≡ found lan)
after_update_cases lan = ground arith

after_update_live : (lan : Lan) → lan.deletion_timestamp ≡ none → after_update lan ≡ found lan
after_update_live lan live = ground arith

module _ (sys : System) where
  -- The namespace at this path was unmounted, and then the file was removed; or it could not be
  -- unmounted, and nothing else was done.
  abbrev pub Removal : Text → sys.State → sys.State → Type 0
  Removal path s t =
      ((u : sys.State) × (sys.unmount path 2 s ≡ (ok tt, u)) × ((sys.remove path u).1 ≡ t))
      ⊎ (((sys.unmount path 2 s).0 ≢ ok tt) × ((sys.unmount path 2 s).1 ≡ t))

  removal_cases :
      (path : Text) (r : Result Error (Unit {0}) × sys.State)
      → ((u : sys.State) × (r ≡ (ok tt, u))
          × ((sys.remove path u).1 ≡ (then_run (λ x. sys.remove path) r).1))
        ⊎ ((r.0 ≢ ok tt) × (r.1 ≡ (then_run (λ x. sys.remove path) r).1))
  removal_cases path (ok x, u) = inl (u, refl, refl)
  removal_cases path (err e, u) = inr (λ h. cc, refl)
  removal_cases path (panic, u) = inr (λ h. cc, refl)

  remove_ns-Removal :
      (ns : Text) (s : sys.State)
      → Removal (join (bytes "/var/run/netns") ns) s (remove_ns sys ns s).1
  unfolding remove_ns named_path get_ns_run_dir
  remove_ns-Removal ns s =
      let path = join (bytes "/var/run/netns") ns in removal_cases path (sys.unmount path 2 s)

module _ (c : Client) (l : IsLawful c) (sys : System) where
  reconcile_found :
      (host ns name : Text) (d : Daemon c sys) {lan : Lan}
      → c.get_lan d.api ns name ≡ found lan
      → reconcile c sys host ns name d ≡ reconcile_lan c sys (my_finalizer_name host) lan d
  unfolding reconcile
  reconcile_found host ns name d g = rw (g, reconcile)

  -- The four ways through a LAN that was found.
  run_register :
      (fin : Text) (d : Daemon c sys) (lan : Lan) {t : c.State}
      → lan.deletion_timestamp ≡ none
      → contains lan.finalizers fin ≡ false
      → c.update (c.add_finalizer lan fin) d.api ≡ (ok tt, t)
      → reconcile_lan c sys fin lan d ≡ (ok tt, record d { api = t })
  unfolding reconcile_lan
  run_register fin d lan live new done =
      rw (live, reconcile_lan, l.contains_lem lan fin ∙ new, done)

  run_announce :
      (fin : Text) (d : Daemon c sys) (lan : Lan)
      → lan.deletion_timestamp ≡ none
      → contains lan.finalizers fin ≡ true
      → reconcile_lan c sys fin lan d ≡ (ok tt, record d { dp_add = d.dp_add ++ (lan.spec ∷ []) })
  unfolding reconcile_lan
  run_announce fin d lan live mine = rw (live, reconcile_lan, l.contains_lem lan fin ∙ mine)

  run_withdraw :
      (fin : Text) (d : Daemon c sys) (lan : Lan) {t : c.State} {time : ℕ} {lan_ns : Text}
      → lan.deletion_timestamp ≡ some time
      → lan.spec.ns ≡ some lan_ns
      → contains lan.finalizers fin ≡ true
      → c.update (c.remove_finalizer lan fin) d.api ≡ (ok tt, t)
      → reconcile_lan c sys fin lan d ≡ (
        ok tt,
        record d {
          api = t;
          node = (remove_ns sys lan_ns d.node).1;
          dp_remove = d.dp_remove ++ (lan.spec ∷ []);
        },
      )
  unfolding reconcile_lan
  run_withdraw fin d lan dying ns_set mine done =
      rw (dying, reconcile_lan, l.contains_lem lan fin ∙ mine)
        (ap (λ o. withdraw c sys fin lan o d) ns_set ∙ rw (done, withdraw))

  run_nothing :
      (fin : Text) (d : Daemon c sys) (lan : Lan) {time : ℕ}
      → lan.deletion_timestamp ≡ some time
      → contains lan.finalizers fin ≡ false
      → reconcile_lan c sys fin lan d ≡ (ok tt, d)
  unfolding reconcile_lan
  run_nothing fin d lan dying gone = rw (dying, reconcile_lan, l.contains_lem lan fin ∙ gone)

  -- What the API server holds under the LAN's name once it was updated.
  held :
      (s t : c.State) (ns name : Text) (lan : Lan)
      → c.update lan s ≡ (ok tt, t)
      → (lan.namespace ≡ ns) × (lan.name ≡ name)
      → c.get_lan t ns name ≡ after_update lan
  held s t ns name lan done (in_ns, named) =
      subst₂ (λ n m. c.get_lan t n m ≡ after_update lan) in_ns named (l.get-update s t lan done)

  -- Nothing is left to do for a LAN that is being deleted without the node's finalizer.
  pub settled :
      (host ns name : Text) (d : Daemon c sys) (lan : Lan) {time : ℕ}
      → lan.deletion_timestamp ≡ some time
      → contains lan.finalizers (my_finalizer_name host) ≡ false
      → c.get_lan d.api ns name ≡ after_update lan
      → reconcile c sys host ns name d ≡ (ok tt, d)
  unfolding reconcile
  settled host ns name d lan dying gone kept = elim (after_update_cases lan) [
    | inl absent ↦ rw (kept ∙ absent, reconcile)
    | inr there ↦
        reconcile_found host ns name d (kept ∙ there)
        ∙ run_nothing (my_finalizer_name host) d lan dying gone
  ]

  module _ (host ns name : Text) (d : Daemon c sys) {lan : Lan} {t : c.State}
      (here : c.get_lan d.api ns name ≡ found lan) where
    -- Over a lawful client: if a LAN that is not being deleted lacks the node's finalizer and the
    -- update succeeds, the reconciliation stores the LAN with the finalizer added last and sends
    -- nothing, and the next one sends the spec to the device plugin.
    pub reconcile_registers :
        lan.deletion_timestamp ≡ none
        → contains lan.finalizers (my_finalizer_name host) ≡ false
        → c.update (c.add_finalizer lan (my_finalizer_name host)) d.api ≡ (ok tt, t)
        → let d₁ : Daemon c sys = record d { api = t } in
          (reconcile c sys host ns name d ≡ (ok tt, d₁))
          × (reconcile c sys host ns name d₁
              ≡ (ok tt, record d₁ { dp_add = d.dp_add ++ (lan.spec ∷ []) }))
          × (c.get_lan t ns name
              ≡ found (record lan { finalizers = lan.finalizers ++ (my_finalizer_name host ∷ []) }))
    reconcile_registers live new done =
        let fin = my_finalizer_name host in
        let lan₁ : Lan = record lan { finalizers = lan.finalizers ++ (fin ∷ []) } in
        let done₁ = subst (λ x. c.update x d.api ≡ (ok tt, t)) (l.add_lem lan fin new) done in
        let kept : c.get_lan t ns name ≡ found lan₁ =
          held d.api t ns name lan₁ done₁ (l.get_named d.api ns name here)
          ∙ after_update_live lan₁ live in
        (
          reconcile_found host ns name d here ∙ run_register fin d lan live new done,
          reconcile_found host ns name (record d { api = t }) kept
              ∙ run_announce fin (record d { api = t }) lan₁ live
                  (contains_self fin lan.finalizers),
          kept,
        )

    -- Over a lawful client: if a LAN that is being deleted has the node's finalizer and a
    -- namespace, and the update succeeds, the reconciliation unmounts the namespace's file under
    -- /var/run/netns, with MNT_DETACH, and removes the file if that succeeds; it sends the spec for
    -- removal and takes the finalizer away, after which the LAN is gone if that was the last; the
    -- next reconciliation changes nothing.
    pub reconcile_withdraws :
        {time : ℕ} {lan_ns : Text}
        → lan.deletion_timestamp ≡ some time
        → lan.spec.ns ≡ some lan_ns
        → contains lan.finalizers (my_finalizer_name host) ≡ true
        → c.update (c.remove_finalizer lan (my_finalizer_name host)) d.api ≡ (ok tt, t)
        → (node' : sys.State) × Removal sys (join (bytes "/var/run/netns") lan_ns) d.node node'
          × let d₁ : Daemon c sys = record d {
            api = t;
            node = node';
            dp_remove = d.dp_remove ++ (lan.spec ∷ []);
          } in
            (reconcile c sys host ns name d ≡ (ok tt, d₁))
            × (reconcile c sys host ns name d₁ ≡ (ok tt, d₁))
            × (c.get_lan t ns name
                ≡ after_update
                    (record lan { finalizers = without (my_finalizer_name host) lan.finalizers }))
    reconcile_withdraws {time} {lan_ns} dying ns_set mine done =
        let fin = my_finalizer_name host in
        let lan₁ : Lan = record lan { finalizers = without fin lan.finalizers } in
        let d₁ : Daemon c sys = record d {
          api = t;
          node = (remove_ns sys lan_ns d.node).1;
          dp_remove = d.dp_remove ++ (lan.spec ∷ []);
        } in
        let done₁ = subst (λ x. c.update x d.api ≡ (ok tt, t)) (l.remove_lem lan fin) done in
        let kept : c.get_lan t ns name ≡ after_update lan₁ =
          held d.api t ns name lan₁ done₁ (l.get_named d.api ns name here) in
        let gone : contains lan₁.finalizers fin ≡ false =
          contains-without fin fin lan.finalizers ∙ rw (==_refl fin) in
        (
          (remove_ns sys lan_ns d.node).1,
          remove_ns-Removal sys lan_ns d.node,
          (
            reconcile_found host ns name d here ∙ run_withdraw fin d lan dying ns_set mine done,
            settled host ns name d₁ lan₁ dying gone kept,
            kept,
          ),
        )

  -- Over a lawful client: of a LAN that it finds, a reconciliation announces the spec only if the
  -- node is registered and the LAN is not being deleted, and touches the node or sends a removal
  -- only if the node is registered and the LAN is being deleted.
  pub reconcile_guards :
      (host ns name : Text) (d : Daemon c sys) {lan : Lan}
      → c.get_lan d.api ns name ≡ found lan
      → let d' = (reconcile c sys host ns name d).1 in
        let mine = contains lan.finalizers (my_finalizer_name host) in
        ((d'.dp_add ≡ d.dp_add)
          ⊎ ((d'.dp_add ≡ d.dp_add ++ (lan.spec ∷ []))
              × (lan.deletion_timestamp ≡ none)
              × (mine ≡ true)))
        × (((d'.dp_remove ≡ d.dp_remove) × (d'.node ≡ d.node))
            ⊎ ((lan.deletion_timestamp ≢ none) × (mine ≡ true) × (d'.dp_add ≡ d.dp_add)))
  unfolding reconcile_lan
  reconcile_guards host ns name d {lan} here =
      rw (reconcile_found host ns name d here)
        (ground (arith, l.contains_lem lan (my_finalizer_name host)))
