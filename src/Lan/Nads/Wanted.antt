-- ===== src/Lan/Nads/Wanted.antt =====
-- Each attachment that `GetNADs` gives.
use mathlib.Core.List.{Memᴰ}
use k8slan.Base.{
  ◌≡◌, refl, ap, Bool, true, false, none, List, [], ◌∷◌, ◌++◌, All, some, list_eq, nat_eq,
}
use k8slan.Base.Text.{Text, bytes}
use k8slan.Base.Dict.{lookup}
use k8slan.Lan.{LanSpec, spokes, resource_namespace}
use k8slan.Lan.Names.{get_dp_resource_name}
use k8slan.Lan.Nads.{Nad, gen_nad, nads_of, get_nads}

-- In the namespace asked for, with no owner yet, named as a resource of one of the spokes and
-- asking for that resource.
pub record IsWanted (spec : LanSpec) (ns : Text) (nad : Nad) : Type 0 where
  pub in_namespace : nad.namespace ≡ ns
  pub unowned : nad.controller ≡ none
  pub of_spoke :
      (spoke : Text) × (is_veth : Bool) × Memᴰ spoke (spokes spec)
      × (nad.name ≡ get_dp_resource_name spoke is_veth)
  pub resource :
      lookup (bytes "k8s.v1.cni.cncf.io/resourceName") nad.annotations
      ≡ some (resource_namespace ++ (bytes "/" ++ nad.name))

gen_nad-IsWanted :
    (spec : LanSpec) (ns x : Text) (b : Bool)
    → Memᴰ x (spokes spec)
    → IsWanted spec ns (gen_nad (get_dp_resource_name x b) ns)
unfolding gen_nad lookup list_eq nat_eq
gen_nad-IsWanted spec ns x b m = record {
  in_namespace = refl;
  unowned = refl;
  of_spoke = (x, b, m, refl);
  resource = refl;
}

nads_of-IsWanted :
    (spec : LanSpec) (ns : Text) (xs : List Text)
    → ((x : Text) → Memᴰ x xs → Memᴰ x (spokes spec))
    → All (IsWanted spec ns) (nads_of xs ns)
unfolding nads_of
nads_of-IsWanted spec ns [] sub = tt
nads_of-IsWanted spec ns (x ∷ xs) sub =
    let m = sub x (Memᴰ.head refl) in
    (
      gen_nad-IsWanted spec ns x true m,
      (
        gen_nad-IsWanted spec ns x false m,
        nads_of-IsWanted spec ns xs (λ y n. sub y (Memᴰ.tail n)),
      ),
    )

-- Every attachment that `GetNADs` gives is in the namespace asked for, has no owner, is named by a
-- resource of a spoke of the LAN, and is annotated with that resource under the resource namespace.
pub get_nads-IsWanted : (spec : LanSpec) (ns : Text) → All (IsWanted spec ns) (get_nads spec ns)
unfolding get_nads
get_nads-IsWanted spec ns = nads_of-IsWanted spec ns (spokes spec) (λ x m. m)

nads_of-complete :
    (ns : Text) (xs : List Text) (x : Text) (b : Bool)
    → Memᴰ x xs
    → Memᴰ (gen_nad (get_dp_resource_name x b) ns) (nads_of xs ns)
unfolding nads_of
nads_of-complete ns [] x b m = elim m [ ]
nads_of-complete ns (y ∷ xs) x true (Memᴰ.head e) =
    Memᴰ.head (ap (λ z. gen_nad (get_dp_resource_name z true) ns) e)
nads_of-complete ns (y ∷ xs) x false (Memᴰ.head e) =
    Memᴰ.tail (Memᴰ.head (ap (λ z. gen_nad (get_dp_resource_name z false) ns) e))
nads_of-complete ns (y ∷ xs) x b (Memᴰ.tail m) =
    Memᴰ.tail (Memᴰ.tail (nads_of-complete ns xs x b m))

-- Both attachments of every spoke are among those of the LAN.
pub get_nads-complete :
    (spec : LanSpec) (ns x : Text) (b : Bool)
    → Memᴰ x (spokes spec)
    → Memᴰ (gen_nad (get_dp_resource_name x b) ns) (get_nads spec ns)
unfolding get_nads
get_nads-complete spec ns x b m = nads_of-complete ns (spokes spec) x b m
