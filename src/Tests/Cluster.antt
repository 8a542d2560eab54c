-- ===== src/Tests/Cluster.antt =====
-- Small API servers and a node, over which the reconcilers run.
use mathlib.Core.List.{Memᴰ}
use k8slan.Base.{
  ◌≡◌, ◌≢◌, refl, ap, ◌⊎◌, inl, inr, Bool, true, false, ◌&&◌, ◌||◌, Option, none, some, List, [],
  ◌∷◌, ◌==◌, list_eq, nat_eq, Bool-cases, arith, if◌then◌else◌,
}
use k8slan.Base.Text.{Text}
use k8slan.Lan.{Lan}
use k8slan.Lan.Nads.{Nad, Owner}
use k8slan.Controller.Api
use k8slan.Controller.Api.{Holds, owner_of}

pub record Cluster : Type 0 where
  pub lans : List Lan
  pub nads : List Nad

unfoldable pub find_lan : List Lan → Text → Text → Api.Fetch Lan
find_lan [] ns name = Api.not_found
find_lan (lan ∷ lans) ns name =
    let rest = find_lan lans ns name in
    if lan.namespace == ns && lan.name == name then Api.found lan else rest

taken : List Nad → Text → Text → Bool
taken [] ns name = false
taken (nad ∷ nads) ns name = (nad.namespace == ns && nad.name == name) || taken nads ns name

taken-Holds : (nads : List Nad) (ns name : Text) → taken nads ns name ≡ true → Holds nads ns name
unfolding taken
taken-Holds [] ns name h = cc
taken-Holds (nad ∷ nads) ns name h = elim (Bool-cases (nad.namespace == ns && nad.name == name)) [
  | inl same ↦ (nad, Memᴰ.head refl, ground arith, ground arith)
  | inr other ↦
      let (found, m, in_ns, named) = taken-Holds nads ns name (ground arith) in
      (found, Memᴰ.tail m, in_ns, named)
]

create_unless : Bool → Cluster → Nad → Cluster × Bool
create_unless true s nad = (s, false)
create_unless false s nad = (record s { nads = nad ∷ s.nads }, true)

own : Lan → Nad → Option Owner → Option Nad
own lan nad none = some (record nad { controller = some (owner_of lan) })
own lan nad (some owner) = none

unfoldable pub own_if_free : Lan → Nad → Option Nad
unfolding own
own_if_free lan nad = own lan nad nad.controller

pub create_if_free : Cluster → Nad → Cluster × Bool
create_if_free s nad = create_unless (taken s.nads nad.namespace nad.name) s nad

abbrev pub cluster : Api.Client
cluster = record {
  State = Cluster;
  get_lan = λ s ns name. find_lan s.lans ns name;
  list_nads = λ s. Api.found s.nads;
  set_controller_reference = own_if_free;
  create = create_if_free;
}

create_unless-lans : (b : Bool) (s : Cluster) (nad : Nad) → (create_unless b s nad).0.lans ≡ s.lans
unfolding create_unless
create_unless-lans true s nad = refl
create_unless-lans false s nad = refl

create_unless-done :
    (b : Bool) (s : Cluster) (nad : Nad)
    → (create_unless b s nad).1 ≡ true
    → (create_unless b s nad).0.nads ≡ nad ∷ s.nads
unfolding create_unless
create_unless-done true s nad h = cc
create_unless-done false s nad h = refl

create_unless-refused :
    (b : Bool) (s : Cluster) (nad : Nad)
    → (create_unless b s nad).1 ≡ false
    → (create_unless b s nad).0.nads ≡ s.nads
unfolding create_unless
create_unless-refused true s nad h = refl
create_unless-refused false s nad h = cc

own-set :
    (lan : Lan) (nad : Nad) (o : Option Owner) {owned : Nad}
    → own lan nad o ≡ some owned
    → owned ≡ record nad { controller = some (owner_of lan) }
unfolding own
own-set lan nad none h = cc
own-set lan nad (some owner) h = cc

own-unowned : (lan : Lan) (nad : Nad) (o : Option Owner) → o ≡ none → own lan nad o ≢ none
unfolding own
own-unowned lan nad none h p = cc
own-unowned lan nad (some owner) h p = cc

pub create_if_free-lans :
    (s : Cluster) (nad : Nad) (ns name : Text)
    → find_lan (create_if_free s nad).0.lans ns name ≡ find_lan s.lans ns name
unfolding create_if_free
create_if_free-lans s nad ns name =
    ap (λ lans. find_lan lans ns name)
      (create_unless-lans (taken s.nads nad.namespace nad.name) s nad)

pub create_if_free-done :
    (s : Cluster) (nad : Nad)
    → (create_if_free s nad).1 ≡ true
    → (create_if_free s nad).0.nads ≡ nad ∷ s.nads
unfolding create_if_free
create_if_free-done s nad h = create_unless-done (taken s.nads nad.namespace nad.name) s nad h

pub create_if_free-refused :
    (s : Cluster) (nad : Nad)
    → (create_if_free s nad).1 ≡ false
    → (create_if_free s nad).0.nads ≡ s.nads
unfolding create_if_free
create_if_free-refused s nad h = create_unless-refused (taken s.nads nad.namespace nad.name) s nad h

pub own_if_free-set :
    (lan : Lan) (nad : Nad) {owned : Nad}
    → own_if_free lan nad ≡ some owned
    → owned ≡ record nad { controller = some (owner_of lan) }
unfolding own_if_free
own_if_free-set lan nad h = own-set lan nad nad.controller h

pub listed : (s : Cluster) {nads : List Nad} → Api.found s.nads ≡ Api.found nads → nads ≡ s.nads
listed s {nads} h = cc

abbrev pub cluster-IsLawful : Api.IsLawful cluster
cluster-IsLawful = record {
  stored = λ s. s.nads;
  get-create = create_if_free-lans;
  list-stored = listed;
  reference_set = own_if_free-set;
  create_done = create_if_free-done;
  create_refused = create_if_free-refused;
}

creates_or_taken :
    (s : Cluster) (nad : Nad) (b : Bool)
    → taken s.nads nad.namespace nad.name ≡ b
    → ((create_unless b s nad).1 ≡ true) ⊎ Holds s.nads nad.namespace nad.name
unfolding create_unless
creates_or_taken s nad true e = inr (taken-Holds s.nads nad.namespace nad.name e)
creates_or_taken s nad false e = inl refl

pub cluster-IsAvailable : Api.IsAvailable cluster cluster-IsLawful
unfolding own_if_free create_if_free
cluster-IsAvailable = record {
  lists = λ s. refl;
  references = λ lan nad h. own-unowned lan nad nad.controller h;
  creates = λ s nad. creates_or_taken s nad (taken s.nads nad.namespace nad.name) refl;
}
