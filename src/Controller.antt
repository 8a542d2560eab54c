-- ===== src/Controller.antt =====
-- The operator's reconciler (internal/controller/lan_controller.go): it creates the network
-- attachments that a LAN lacks. The Kubernetes client and `SetControllerReference` are a parameter;
-- logging is left out, and `SetupWithManager` and `registrResource` stand in Startup/Operator.
pub mod Api
pub mod Creates
pub mod Completes
pub mod Index
use k8slan.Base.{
  Bool, true, false, ◌||◌, not, Option, none, some, List, [], ◌∷◌, ◌==◌, list_eq, nat_eq,
  if◌then◌else◌,
}
use k8slan.Base.Text.{Text, bytes}
use k8slan.Lan.{Lan}
use k8slan.Lan.Nads.{Nad, Owner, get_nads}
use k8slan.Controller.Api.{Client, Fetch, found, not_found, failed}

-- The inner loop of `Reconcile`: an attachment of that name is there, in whatever namespace.
pub has_name : List Nad → Text → Bool
has_name [] name = false
has_name (enad ∷ rest) name = name == enad.name || has_name rest name

module _ (c : Client) where
  -- One attachment that was not found: its errors are logged only.
  pub create_owned : Lan → Nad → c.State → c.State
  create_owned lan nad s = elim (c.set_controller_reference lan nad) [
    | none ↦ s
    | some owned ↦ (c.create s owned).0
  ]

  -- The outer loop of `Reconcile`
  pub create_missing : Lan → List Nad → List Nad → c.State → c.State
  unfolding has_name create_owned
  create_missing lan existing [] s = s
  create_missing lan existing (nad ∷ rest) s =
      create_missing lan existing rest
        (if has_name existing nad.name then s else create_owned lan nad s)

  -- `Reconcile`, with the request's namespace and name. The flag tells that an error is returned;
  -- `client.IgnoreNotFound` drops the errors of a missing object.
  unfoldable pub reconcile : Text → Text → c.State → c.State × Bool
  unfolding create_missing
  reconcile ns name s = elim (c.get_lan s ns name) [
    | not_found ↦ (s, false)
    | failed ↦ (s, true)
    | found lan ↦ elim (c.list_nads s) [
      | not_found ↦ (s, false)
      | failed ↦ (s, true)
      | found existing ↦ (create_missing lan existing (get_nads lan.spec ns) s, false)
    ]
  ]

-- `v1beta1.GroupVersion.String()`
abbrev pub group_version : Text
group_version = bytes "lan.k8slan.io/v1beta1"

-- `extractKey`, of a network attachment. A nil result is the empty list.
unfoldable pub extract_key : Nad → List Text
unfolding list_eq nat_eq
extract_key nad = elim nad.controller [
  | none ↦ []
  | some owner ↦
      if not (owner.api_version == group_version) || not (owner.kind == bytes "Lab")
      then []
      else owner.name ∷ []
]
