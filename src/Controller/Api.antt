-- ===== src/Controller/Api.antt =====
-- The Kubernetes API as the reconciler uses it: the controller-runtime client over an unknown
-- state, and what its documentation says of a client that reads what the API server holds.
use k8slan.Base.{◌≡◌, ◌≢◌, ◌⊎◌, Bool, true, false, Option, none, some, List, ◌∷◌}
use mathlib.Core.List.{Memᴰ}
use k8slan.Base.Text.{Text, bytes}
use k8slan.Lan.{Lan}
use k8slan.Lan.Nads.{Nad, Owner}

pub data Fetch {ℓ} (A : Type ℓ) : Type ℓ where
  found : A → Fetch A
  not_found : Fetch A
  failed : Fetch A

pub record Client : Type 1 where
  pub State : Type 0
  pub get_lan : State → Text → Text → Fetch Lan
  pub list_nads : State → Fetch (List Nad)
  -- `none` is an error: the attachment has another controller.
  pub set_controller_reference : Lan → Nad → Option Nad
  -- The flag tells that the object was created.
  pub create : State → Nad → State × Bool

-- An attachment of this namespace and name is among those given.
abbrev pub Holds : List Nad → Text → Text → Type 0
Holds nads ns name = (nad : Nad) × Memᴰ nad nads × (nad.namespace ≡ ns) × (nad.name ≡ name)

-- The owner reference that makes a LAN the controller of an object.
abbrev pub owner_of : Lan → Owner
owner_of lan = record {
  api_version = bytes "lan.k8slan.io/v1beta1";
  kind = bytes "LAN";
  name = lan.name;
}

pub record IsLawful (c : Client) : Type 0 where
  -- What the API server holds
  pub stored : c.State → List Nad
  pub get-create :
      (s : c.State) (nad : Nad) (ns name : Text)
      → c.get_lan (c.create s nad).0 ns name ≡ c.get_lan s ns name
  pub list-stored : (s : c.State) {nads : List Nad} → c.list_nads s ≡ found nads → nads ≡ stored s
  pub reference_set :
      (lan : Lan) (nad : Nad) {owned : Nad}
      → c.set_controller_reference lan nad ≡ some owned
      → owned ≡ record nad { controller = some (owner_of lan) }
  pub create_done :
      (s : c.State) (nad : Nad)
      → (c.create s nad).1 ≡ true
      → stored (c.create s nad).0 ≡ nad ∷ stored s
  pub create_refused :
      (s : c.State) (nad : Nad) → (c.create s nad).1 ≡ false → stored (c.create s nad).0 ≡ stored s

-- Nothing fails for another reason than a name that is taken.
pub record IsAvailable (c : Client) (l : IsLawful c) : Type 0 where
  pub lists : (s : c.State) → c.list_nads s ≡ found (l.stored s)
  pub references :
      (lan : Lan) (nad : Nad) → nad.controller ≡ none → c.set_controller_reference lan nad ≢ none
  pub creates :
      (s : c.State) (nad : Nad)
      → ((c.create s nad).1 ≡ true) ⊎ Holds (l.stored s) nad.namespace nad.name
