-- ===== src/Daemon/Api.antt =====
-- The Kubernetes API as the daemon uses it, and what is documented of it: the client's `Get` and
-- `Update`, and the finalizer functions of `controllerutil`.
use k8slan.Base.{
  ◌≡◌, ◌≢◌, Bool, false, none, some, List, [], ◌∷◌, ◌++◌, contains, ◌==◌, list_eq, nat_eq, ok, err,
  panic, if◌then◌else◌,
}
use k8slan.Base.Text.{Text}
use k8slan.Base.Io.{Io, Error}
use k8slan.Lan.{Lan}

pub data Fetch {ℓ} (A : Type ℓ) : Type ℓ where
  found : A → Fetch A
  not_found : Fetch A
  failed : Error → Fetch A

pub record Client : Type 1 where
  pub State : Type 0
  pub get_lan : State → Text → Text → Fetch Lan
  pub update : Lan → Io State (Unit {0})
  pub contains_finalizer : Lan → Text → Bool
  pub add_finalizer : Lan → Text → Lan
  pub remove_finalizer : Lan → Text → Lan

-- The finalizers without one of them
abbrev pub without : Text → List Text → List Text
without fin [] = []
without fin (f ∷ fins) = let rest = without fin fins in if f == fin then rest else f ∷ rest

-- What the API server keeps of an object that was updated: it goes when it is being deleted and
-- its last finalizer is gone.
abbrev pub after_update : Lan → Fetch Lan
after_update lan = elim lan.deletion_timestamp [
  | none ↦ found lan
  | some time ↦ elim lan.finalizers [ [] ↦ not_found | f ∷ fins ↦ found lan ]
]

pub record IsLawful (c : Client) : Type 0 where
  pub get_named :
      (s : c.State) (ns name : Text) {lan : Lan}
      → c.get_lan s ns name ≡ found lan
      → (lan.namespace ≡ ns) × (lan.name ≡ name)
  pub get-update :
      (s t : c.State) (lan : Lan)
      → c.update lan s ≡ (ok tt, t)
      → c.get_lan t lan.namespace lan.name ≡ after_update lan
  pub update_other :
      (s t : c.State) (lan : Lan) (ns name : Text)
      → c.update lan s ≡ (ok tt, t)
      → (lan.namespace ≡ ns → lan.name ≢ name)
      → c.get_lan t ns name ≡ c.get_lan s ns name
  pub update_failed : (s t : c.State) (lan : Lan) (e : Error) → c.update lan s ≡ (err e, t) → t ≡ s
  pub update_returns : (s : c.State) (lan : Lan) → (c.update lan s).0 ≢ panic
  pub contains_lem :
      (lan : Lan) (fin : Text) → c.contains_finalizer lan fin ≡ contains lan.finalizers fin
  pub add_lem :
      (lan : Lan) (fin : Text)
      → contains lan.finalizers fin ≡ false
      → c.add_finalizer lan fin ≡ record lan { finalizers = lan.finalizers ++ (fin ∷ []) }
  pub remove_lem :
      (lan : Lan) (fin : Text)
      → c.remove_finalizer lan fin ≡ record lan { finalizers = without fin lan.finalizers }
