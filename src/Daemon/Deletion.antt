-- ===== src/Daemon/Deletion.antt =====
-- The daemons of several nodes on one LAN that is being deleted: they share the API server, and
-- their reconciliations come in any order.
use mathlib.Core.Bool.{false≢true}
use k8slan.Base.{
  ℕ, ◌≡◌, ◌≢◌, refl, sym, ap, ◌∙◌, ◌↔◌, inl, inr, true, false, ◌&&◌, not, some, List, [], ◌∷◌, map,
  contains, ok, arith, ◌==◌, ==_refl, list_eq, nat_eq, Bool-cases, if◌then◌else◌,
}
use k8slan.Base.Text.{Text}
use k8slan.Lan.{Lan}
use k8slan.Interfaces.System.{System}
use k8slan.Daemon.Api.{Client, found, not_found, IsLawful, without, after_update}
use k8slan.Daemon.{Daemon, my_finalizer_name, reconcile}
use k8slan.Daemon.Lifecycle.{contains-without, settled, reconcile_withdraws}

-- The finalizers that are left once these nodes have withdrawn.
abbrev pub left_over : List Text → List Text → List Text
left_over [] fins = fins
left_over (host ∷ hosts) fins = left_over hosts (without (my_finalizer_name host) fins)

-- Every finalizer is that of one of these nodes.
abbrev pub Covers : List Text → List Text → Type 0
Covers hosts fins =
    (f : Text) → contains fins f ≡ true → contains (map my_finalizer_name hosts) f ≡ true

without_absent :
    (fin : Text) (fins : List Text) → contains fins fin ≡ false → without fin fins ≡ fins
without_absent fin [] h = refl
without_absent fin (f ∷ fins) h = ground (arith, without_absent fin fins)

contains-left_over :
    (hosts fins : List Text) (f : Text)
    → contains (left_over hosts fins) f
      ≡ (contains fins f && not (contains (map my_finalizer_name hosts) f))
contains-left_over [] fins f = ground arith
contains-left_over (host ∷ hosts) fins f =
    contains-left_over hosts (without (my_finalizer_name host) fins) f
    ∙ ground (arith, contains-without (my_finalizer_name host) f fins)

nothing_in : (fins : List Text) → ((f : Text) → contains fins f ≡ false) → fins ≡ []
nothing_in [] h = refl
nothing_in (f ∷ fins) h = absurd (false≢true (sym (h f) ∙ rw (==_refl f) refl))

left_over_iff : (hosts fins : List Text) → (left_over hosts fins ≡ []) ↔ Covers hosts fins
left_over_iff hosts fins = (
  λ none_left f there.
      let same = ap (λ l. contains l f) none_left in
      ground (arith, same, contains-left_over hosts fins f),
  λ covers.
      nothing_in (left_over hosts fins)
        (λ f. contains-left_over hosts fins f ∙ ground (arith, covers f)),
)

after_update_listed :
    (lan : Lan) (fin : Text) → contains lan.finalizers fin ≡ true → after_update lan ≡ found lan
after_update_listed lan fin h = ground arith

module _ (c : Client) (sys : System) where
  -- The API server, and each node with what it has sent; the `api` of a node is that of its last
  -- turn.
  pub record Nodes : Type 0 where
    pub api : c.State
    pub daemons : Text → Daemon c sys

  -- One node reconciles.
  unfoldable pub turn : Text → Text → Text → Nodes → Nodes
  unfolding list_eq nat_eq
  turn ns name host n =
      let d = (reconcile c sys host ns name (record (n.daemons host) { api = n.api })).1 in
      record { api = d.api; daemons = λ h. if h == host then d else n.daemons h }

  -- The nodes reconcile in this order.
  unfoldable pub turns : Text → Text → List Text → Nodes → Nodes
  turns ns name [] n = n
  turns ns name (host ∷ hosts) n = turns ns name hosts (turn ns name host n)

  module _ (l : IsLawful c) (up : (x : Lan) (s : c.State) → (c.update x s).0 ≡ ok tt)
      (ns name : Text) where
    turn-left :
        (host : Text) (n : Nodes) (lan : Lan) {time : ℕ} {lan_ns : Text}
        → lan.deletion_timestamp ≡ some time
        → lan.spec.ns ≡ some lan_ns
        → c.get_lan n.api ns name ≡ after_update lan
        → c.get_lan (turn ns name host n).api ns name
          ≡ after_update
              (record lan { finalizers = without (my_finalizer_name host) lan.finalizers })
    unfolding turn
    turn-left host n lan {time} {lan_ns} dying set kept =
        elim (Bool-cases (contains lan.finalizers fin)) [
          | inl mine ↦
              let here = kept ∙ after_update_listed lan fin mine in
              let t = (c.update (c.remove_finalizer lan fin) n.api).1 in
              let done : c.update (c.remove_finalizer lan fin) n.api ≡ (ok tt, t) =
                ap (λ r. (r, t)) (up (c.remove_finalizer lan fin) n.api) in
              let (node', removed, (run, again, now)) =
                reconcile_withdraws c l sys host ns name d here dying set mine done in
              ap (λ r. c.get_lan r.1.api ns name) run ∙ now
          | inr absent ↦
              ap (λ r. c.get_lan r.1.api ns name)
                (settled c l sys host ns name d lan dying absent kept)
              ∙ kept
              ∙ ap (λ f. after_update (record lan { finalizers = f }))
                  (sym (without_absent fin lan.finalizers absent))
        ]
      where
        fin : Text
        fin = my_finalizer_name host

        d : Daemon c sys
        d = record (n.daemons host) { api = n.api }

    turns-left :
        (hosts : List Text) (n : Nodes) (lan : Lan) {time : ℕ} {lan_ns : Text}
        → lan.deletion_timestamp ≡ some time
        → lan.spec.ns ≡ some lan_ns
        → c.get_lan n.api ns name ≡ after_update lan
        → c.get_lan (turns ns name hosts n).api ns name
          ≡ after_update (record lan { finalizers = left_over hosts lan.finalizers })
    unfolding turns
    turns-left [] n lan dying set kept = kept
    turns-left (host ∷ hosts) n lan dying set kept =
        turns-left hosts (turn ns name host n)
          (record lan { finalizers = without (my_finalizer_name host) lan.finalizers }) dying set
          (turn-left host n lan dying set kept)

    gone_iff :
        (lan : Lan) {time : ℕ}
        → lan.deletion_timestamp ≡ some time
        → (after_update lan ≡ not_found) ↔ (lan.finalizers ≡ [])
    gone_iff lan dying = (λ h. ground arith, λ h. ground arith)

    after_update_some : (lan : Lan) → lan.finalizers ≢ [] → after_update lan ≡ found lan
    after_update_some lan h = ground arith

    -- Over a lawful client whose updates succeed: when the daemons of some nodes reconcile a LAN
    -- that is being deleted and has a finalizer, once or more each and in any order, the LAN is
    -- gone afterwards exactly if each of its finalizers is that of one of these nodes. The LAN's
    -- namespace is set.
    pub turns-gone_iff :
        (hosts : List Text) (n : Nodes) {lan : Lan} {time : ℕ} {lan_ns : Text}
        → c.get_lan n.api ns name ≡ found lan
        → lan.finalizers ≢ []
        → lan.deletion_timestamp ≡ some time
        → lan.spec.ns ≡ some lan_ns
        → (c.get_lan (turns ns name hosts n).api ns name ≡ not_found) ↔ Covers hosts lan.finalizers
    turns-gone_iff hosts n {lan} here some_left dying set =
        let after : Lan = record lan { finalizers = left_over hosts lan.finalizers } in
        let now = turns-left hosts n lan dying set (here ∙ sym (after_update_some lan some_left)) in
        (
          λ h. (left_over_iff hosts lan.finalizers).0 ((gone_iff after dying).0 (sym now ∙ h)),
          λ covers. now ∙ (gone_iff after dying).1 ((left_over_iff hosts lan.finalizers).1 covers),
        )
