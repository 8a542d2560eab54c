-- ===== src/Daemon/Webhook.antt =====
-- The daemon beside the webhooks: what they let through never stops it, and what it writes they
-- let through.
use mathlib.Core.Path.{subst}
use mathlib.Core.List.{append_cancel_left}
use k8slan.Base.{
  ◌≡◌, ◌≢◌, refl, sym, ◌∙◌, ◌⊎◌, inl, inr, Option, none, some, List, [], ◌∷◌, ◌++◌, All, map,
  contains, true, false, ap, ok, panic, arith, list_eq, nat_eq,
}
use k8slan.Base.Text.{Text, bytes}
use k8slan.Base.Io.{Error}
use k8slan.Lan.{Lan, elements, finalizer_prefix}
use k8slan.Base.Dict.{DistinctKeys}
use k8slan.Lan.Validation.Laws.{Accepted}
use k8slan.Webhook.{lan, validate_update, validate_delete}
use k8slan.Webhook.Rules.{IsOwn, validate_update_metadata, validate_delete_iff}
use k8slan.Interfaces.System.{System}
use k8slan.Daemon.Api.{Client, Fetch, found, not_found, failed, IsLawful, without}
use k8slan.Daemon.{
  Daemon, my_finalizer_name, update, keep, withdraw, give_up, reconcile_lan, reconcile,
}
use k8slan.Daemon.Lifecycle.{contains-without}

-- Two nodes have different finalizers.
pub my_finalizer_name_inj : (a b : Text) → my_finalizer_name a ≡ my_finalizer_name b → a ≡ b
unfolding my_finalizer_name
my_finalizer_name_inj a b h =
    append_cancel_left (bytes "/") a b (append_cancel_left finalizer_prefix _ _ h)

own : (hosts : List Text) → All IsOwn (map my_finalizer_name hosts)
unfolding my_finalizer_name
own [] = tt
own (host ∷ hosts) = ((bytes "/" ++ host, refl), own hosts)

-- The webhook lets a LAN be deleted if all its finalizers are those of the daemons of some nodes.
pub validate_delete_registered :
    (l : Lan) (hosts : List Text)
    → l.finalizers ≡ map my_finalizer_name hosts
    → validate_delete (lan l) ≡ ok tt
validate_delete_registered l hosts e =
    (validate_delete_iff l).1 (subst (All IsOwn) (sym e) (own hosts))

-- What the daemon of one node writes when it withdraws has the finalizer of another node exactly if
-- it was there.
pub without_other :
    (a b : Text) (fins : List Text)
    → a ≢ b
    → contains (without (my_finalizer_name a) fins) (my_finalizer_name b)
      ≡ contains fins (my_finalizer_name b)
without_other a b fins differ =
    contains-without (my_finalizer_name a) (my_finalizer_name b) fins
    ∙ ground (
      arith,
      λ (e : my_finalizer_name b ≡ my_finalizer_name a). differ (sym (my_finalizer_name_inj b a e)),
    )

Fetch-cases :
    (r : Fetch Lan) → ((x : Lan) × (r ≡ found x)) ⊎ (r ≡ not_found) ⊎ ((e : Error) × (r ≡ failed e))
Fetch-cases (found x) = inl (x, refl)
Fetch-cases not_found = inr (inl refl)
Fetch-cases (failed e) = inr (inr (e, refl))

module _ (c : Client) (l : IsLawful c) (sys : System) where
  update_ne_panic : (x : Lan) (d : Daemon c sys) → (update c sys x d).0 ≢ panic
  unfolding update
  update_ne_panic x d h = l.update_returns d.api x h

  withdraw_ne_panic :
      (fin : Text) (x : Lan) (ns : Option Text) (d : Daemon c sys)
      → ns ≢ none
      → (withdraw c sys fin x ns d).0 ≢ panic
  unfolding withdraw update
  withdraw_ne_panic fin x none d set h = set refl
  withdraw_ne_panic fin x (some ns) d set h = l.update_returns d.api (c.remove_finalizer x fin) h

  reconcile_lan_ne_panic :
      (fin : Text) (x : Lan) (d : Daemon c sys)
      → x.spec.ns ≢ none
      → (reconcile_lan c sys fin x d).0 ≢ panic
  unfolding reconcile_lan keep give_up
  reconcile_lan_ne_panic fin x d set =
      ground
        (arith, update_ne_panic (c.add_finalizer x fin) d, withdraw_ne_panic fin x x.spec.ns d set)

  -- Over a lawful client: if the spec of the LAN that it finds is one that `Validate` accepts, a
  -- reconciliation of the daemon does not panic.
  pub reconcile_ne_panic :
      (host ns name : Text) (d : Daemon c sys)
      → ((x : Lan) → c.get_lan d.api ns name ≡ found x → Accepted x.spec)
      → (reconcile c sys host ns name d).0 ≢ panic
  unfolding reconcile
  reconcile_ne_panic host ns name d valid h = elim (Fetch-cases (c.get_lan d.api ns name)) [
    | inl (x, e) ↦
        let (lan_ns, set, _) = (valid x e).ns in
        reconcile_lan_ne_panic (my_finalizer_name host) x d (λ nil. cc) (rw (e, reconcile) at h)
    | inr (inl e) ↦ cc (rw (e, reconcile) at h)
    | inr (inr (x, e)) ↦ cc (rw (e, reconcile) at h)
  ]

-- What the daemon whose finalizer is `fin` writes of the LAN that it found
abbrev pub IsWrite : Client → Text → Lan → Lan → Type 0
IsWrite c fin x y =
    ((contains x.finalizers fin ≡ false) × (y ≡ c.add_finalizer x fin))
    ⊎ ((contains x.finalizers fin ≡ true) × (y ≡ c.remove_finalizer x fin))

-- Over a lawful client: the update that a daemon writes, of a LAN that lacks its finalizer with the
-- finalizer added or of a LAN that has it with the finalizer taken away, is let through by the
-- validating webhook, if `Validate` accepts the spec and the device map has no key twice.
pub updates_admitted :
    (c : Client)
    → IsLawful c
    → (x y : Lan) (fin : Text) → DistinctKeys (elements x.spec.vx_dev_map)
    → Accepted x.spec
    → IsWrite c fin x y
    → validate_update (lan x) (lan y) ≡ ok tt
updates_admitted c l x y fin keys accepted (inl (absent, e)) =
    (validate_update_metadata x y keys (ap (λ z. z.spec) (e ∙ l.add_lem x fin absent))).1 accepted
updates_admitted c l x y fin keys accepted (inr (there, e)) =
    (validate_update_metadata x y keys (ap (λ z. z.spec) (e ∙ l.remove_lem x fin))).1 accepted
