-- ===== src/Tests/Reconcilers.antt =====
-- The controller's and the daemon's reconcilers over the small servers.
use mathlib.Core.Path.{subst}
use mathlib.Core.List.{Memᴰ}
use k8slan.Base.{
  inr, ◌≡◌, ◌≢◌, ◌↔◌, refl, sym, ap, ◌∙◌, ◌⊎◌, true, false, none, some, List, [], ◌∷◌, ◌++◌, All,
  contains, ok, panic, ==_iff, list_eq, nat_eq,
}
use k8slan.Base.Text.{Text, bytes}
use k8slan.Lan.{Lan}
use k8slan.Lan.Names.{get_dp_resource_name}
use k8slan.Lan.Nads.{Nad, gen_nad}
use k8slan.Lan.Validation.Laws.{Accepted}
use k8slan.Base.FilePath.{join}
use k8slan.Controller.{reconcile as control}
use k8slan.Controller.Api as ControllerApi
use k8slan.Controller.Api.{Holds, owner_of}
use k8slan.Controller.Creates.{IsCreated, reconcile-adds, reconcile_blocked}
use k8slan.Controller.Completes.{reconcile_completes, reconcile_twice}
use k8slan.Daemon.Api.{Fetch, found, not_found}
use k8slan.Daemon.{Daemon, my_finalizer_name, reconcile}
use k8slan.Daemon.Lifecycle.{reconcile_registers, Removal, reconcile_withdraws, reconcile_guards}
use k8slan.Daemon.Webhook.{reconcile_ne_panic, updates_admitted}
use k8slan.Tests.Resource.{example_keys, lan_example-Accepted}
use k8slan.Daemon.Deletion.{Nodes, turns, Covers, turns-gone_iff}
use k8slan.Webhook.{lan, validate_update}
use k8slan.Tests.Cluster.{
  Cluster, find_lan, own_if_free, cluster, cluster-IsLawful, cluster-IsAvailable,
}
use k8slan.Tests.Node.{Lans, put, get, add, server, server-IsLawful, node}
use k8slan.Tests.Data.{srl, worker, lan_example, lan_object, registered, dying, elsewhere}

abbrev namespace : Text
namespace = bytes "default"

abbrev name : Text
name = bytes "lan-example"

-- The LAN, and an attachment of another namespace that has the name of one of its own.
abbrev start : Cluster
start = record { lans = lan_object ∷ []; nads = elsewhere ∷ [] }

start_found : cluster.get_lan start namespace name ≡ ControllerApi.found lan_object
unfolding find_lan list_eq nat_eq
start_found = refl

start_listed : cluster.list_nads start ≡ ControllerApi.found (elsewhere ∷ [])
start_listed = refl

reconcile-adds_example :
    (new : List Nad) × (cluster-IsLawful.stored (control cluster namespace name start).0
      ≡ new ++ cluster-IsLawful.stored start)
    × All (IsCreated lan_object namespace (elsewhere ∷ [])) new
reconcile-adds_example =
    reconcile-adds cluster cluster-IsLawful start namespace name start_found start_listed

no_attachment : ¬ (Holds (cluster-IsLawful.stored start) namespace elsewhere.name)
no_attachment (nad, Memᴰ.head e, in_ns, named) =
    let other : elsewhere.namespace ≡ namespace = ap (λ n. n.namespace) (sym e) ∙ in_ns in cc
no_attachment (nad, Memᴰ.tail m, in_ns, named) = elim m [ ]

reconcile_blocked_example : ¬ (
    Holds
      (cluster-IsLawful.stored (control cluster namespace name start).0)
      namespace
      elsewhere.name)
reconcile_blocked_example =
    reconcile_blocked cluster cluster-IsLawful start namespace name start_found start_listed
      elsewhere (Memᴰ.head refl) no_attachment

reconcile_completes_example :
    (nad : Nad) × Memᴰ nad (cluster-IsLawful.stored (control cluster namespace name start).0)
    × (nad.name ≡ get_dp_resource_name srl true)
reconcile_completes_example =
    reconcile_completes cluster cluster-IsLawful cluster-IsAvailable start namespace name
      start_found srl true (Memᴰ.head refl)

reconcile_twice_example :
    control cluster namespace name (control cluster namespace name start).0
    ≡ control cluster namespace name start
reconcile_twice_example =
    reconcile_twice cluster cluster-IsLawful cluster-IsAvailable start namespace name start_found

abbrev owned_nad : Nad
owned_nad = record (gen_nad (bytes "k8slan-mac-vm") namespace) {
  controller = some (owner_of lan_object);
}

owned_set :
    cluster.set_controller_reference lan_object (gen_nad (bytes "k8slan-mac-vm") namespace)
    ≡ some owned_nad
unfolding own_if_free gen_nad
owned_set = refl

-- The node before it has seen the LAN, and the server that keeps it under its name.
abbrev holding : Lan → Lans
holding l = put l (λ ns n. not_found)

abbrev fresh : Lan → Daemon server node
fresh l = record { api = holding l; node = []; dp_add = []; dp_remove = [] }

lan_held : get (holding lan_object) namespace name ≡ found lan_object
unfolding get put list_eq nat_eq
lan_held = refl

dying_held : get (holding dying) namespace name ≡ found dying
unfolding get put list_eq nat_eq
dying_held = refl

unregistered : contains lan_object.finalizers (my_finalizer_name worker) ≡ false
unregistered = refl

mine : contains dying.finalizers (my_finalizer_name worker) ≡ true
unfolding my_finalizer_name list_eq nat_eq
mine = refl

reconcile_guards_example :
    let d' = (reconcile server node worker namespace name (fresh dying)).1 in
    let mine = contains dying.finalizers (my_finalizer_name worker) in
    ((d'.dp_add ≡ [])
      ⊎ ((d'.dp_add ≡ [] ++ (dying.spec ∷ [])) × (dying.deletion_timestamp ≡ none) × (mine ≡ true)))
    × (((d'.dp_remove ≡ []) × (d'.node ≡ []))
        ⊎ ((dying.deletion_timestamp ≢ none) × (mine ≡ true) × (d'.dp_add ≡ [])))
reconcile_guards_example =
    reconcile_guards server server-IsLawful node worker namespace name (fresh dying) dying_held

reconcile_registers_example :
    let t = put registered (holding lan_object) in
    let d₁ : Daemon server node = record (fresh lan_object) { api = t } in
    (reconcile server node worker namespace name (fresh lan_object) ≡ (ok tt, d₁))
    × (reconcile server node worker namespace name d₁
        ≡ (ok tt, record d₁ { dp_add = lan_example ∷ [] }))
    × (get t namespace name ≡ found registered)
unfolding add
reconcile_registers_example =
    reconcile_registers server server-IsLawful node worker namespace name (fresh lan_object)
      lan_held refl unregistered refl

reconcile_withdraws_example :
    let t = put (record dying { finalizers = [] }) (holding dying) in
    (node' : node.State) × Removal node (bytes "/var/run/netns/knlvrf") [] node'
    × let d₁ : Daemon server node = record (fresh dying) {
      api = t;
      node = node';
      dp_remove = lan_example ∷ [];
    } in
      (reconcile server node worker namespace name (fresh dying) ≡ (ok tt, d₁))
      × (reconcile server node worker namespace name d₁ ≡ (ok tt, d₁))
      × (get t namespace name ≡ not_found)
unfolding my_finalizer_name list_eq nat_eq join
reconcile_withdraws_example =
    reconcile_withdraws server server-IsLawful node worker namespace name (fresh dying) dying_held
      refl refl mine refl

other_name : worker ≢ bytes "worker2"
unfolding list_eq nat_eq
other_name h = let e : false ≡ true = (==_iff worker (bytes "worker2")).1 h in cc

held-Accepted : (x : Lan) → get (holding dying) namespace name ≡ found x → Accepted x.spec
held-Accepted x h =
    let e : dying ≡ x =
      (let f : Path (Fetch Lan) (found dying) (found x) = sym dying_held ∙ h in cc) in
    subst (λ l. Accepted l.spec) e lan_example-Accepted

example_ne_panic : (reconcile server node worker namespace name (fresh dying)).0 ≢ panic
example_ne_panic =
    reconcile_ne_panic server server-IsLawful node worker namespace name (fresh dying) held-Accepted

abbrev nodes : Nodes server node
nodes = record { api = holding dying; daemons = λ host. fresh dying }

some_finalizer : dying.finalizers ≢ []
some_finalizer h = cc

turns-gone_iff_example :
    (get (turns server node namespace name (worker ∷ []) nodes).api namespace name ≡ not_found)
    ↔ Covers (worker ∷ []) dying.finalizers
turns-gone_iff_example =
    turns-gone_iff server node server-IsLawful (λ x s. refl) namespace name (worker ∷ []) nodes
      dying_held some_finalizer refl refl

updates_admitted_example :
    validate_update (lan dying) (lan (server.remove_finalizer dying (my_finalizer_name worker)))
    ≡ ok tt
updates_admitted_example =
    updates_admitted server server-IsLawful dying
      (server.remove_finalizer dying (my_finalizer_name worker)) (my_finalizer_name worker)
      example_keys lan_example-Accepted (inr (mine, refl))
