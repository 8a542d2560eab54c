-- ===== src/Controller/Creates.antt =====
-- What a reconciliation adds to the attachments that the API server holds, what it completes, and
-- what keeps it from creating one.
use mathlib.Core.Path.{subst}
use mathlib.Core.List.{Memᴰ, append_assoc}
use k8slan.Base.{
  ◌≡◌, refl, sym, ap, ◌∙◌, ◌⊎◌, inl, inr, Bool, true, false, ◌||◌, some, List, [], ◌∷◌, ◌++◌, All,
  All-append, All-Mem, Memᴰ-append, arith, ◌==◌, ==_iff, list_eq, nat_eq, Bool-cases, Option-cases,
}
use k8slan.Base.Text.{Text}
use k8slan.Lan.{Lan, spokes}
use k8slan.Lan.Names.{get_dp_resource_name}
use k8slan.Lan.Nads.{Nad, get_nads}
use k8slan.Lan.Nads.Wanted.{IsWanted, get_nads-IsWanted}
use k8slan.Controller.Api.{Client, found, Holds, owner_of, IsLawful}
use k8slan.Controller.{has_name, create_owned, create_missing, reconcile}

-- What a reconciliation of `lan` in `ns` may create while it sees `existing`.
pub record IsCreated (lan : Lan) (ns : Text) (existing : List Nad) (nad : Nad) : Type 0 where
  pub in_namespace : nad.namespace ≡ ns
  pub owned : nad.controller ≡ some (owner_of lan)
  pub of_spoke :
      (spoke : Text) × (is_veth : Bool) × Memᴰ spoke (spokes lan.spec)
      × (nad.name ≡ get_dp_resource_name spoke is_veth)
  pub missing : has_name existing nad.name ≡ false

pub has_name-append :
    (xs ys : List Nad) (name : Text)
    → has_name (xs ++ ys) name ≡ (has_name xs name || has_name ys name)
unfolding has_name
has_name-append [] ys name = refl
has_name-append (x ∷ xs) ys name = ground (arith, has_name-append xs ys name)

pub has_name-Mem : (nads : List Nad) (nad : Nad) → Memᴰ nad nads → has_name nads nad.name ≡ true
unfolding has_name
has_name-Mem [] nad m = elim m [ ]
has_name-Mem (x ∷ nads) nad (Memᴰ.head e) = ground (arith, ap (λ (n : Nad). n.name) e)
has_name-Mem (x ∷ nads) nad (Memᴰ.tail m) = ground (arith, has_name-Mem nads nad m)

pub has_name-find :
    (nads : List Nad) (name : Text)
    → has_name nads name ≡ true
    → (nad : Nad) × Memᴰ nad nads × (nad.name ≡ name)
unfolding has_name
has_name-find [] name h = cc
has_name-find (x ∷ nads) name h = elim (Bool-cases (name == x.name)) [
  | inl same ↦ (x, Memᴰ.head refl, sym ((==_iff name x.name).0 same))
  | inr differ ↦ let (nad, m, e) = has_name-find nads name (rw differ at h) in (nad, Memᴰ.tail m, e)
]

created :
    (lan : Lan) (ns : Text) (existing : List Nad) (nad : Nad)
    → IsWanted lan.spec ns nad
    → has_name existing nad.name ≡ false
    → IsCreated lan ns existing (record nad { controller = some (owner_of lan) })
created lan ns existing nad w missing = record {
  in_namespace = w.in_namespace;
  owned = refl;
  of_spoke = w.of_spoke;
  missing = missing;
}

module _ (c : Client) (l : IsLawful c) where
  open l use {stored}

  -- One attachment more, or none.
  pub create_owned-stored :
      (lan : Lan) (nad : Nad) (s : c.State)
      → (stored (create_owned c lan nad s) ≡ stored s)
        ⊎ (stored (create_owned c lan nad s)
            ≡ record nad { controller = some (owner_of lan) } ∷ stored s)
  unfolding create_owned
  create_owned-stored lan nad s = elim (Option-cases (c.set_controller_reference lan nad)) [
    | inl e ↦ rw (e, create_owned) (inl refl)
    | inr (owned, e) ↦
        rw (e, create_owned)
          (elim (Bool-cases (c.create s owned).1) [
            | inl done ↦
                inr
                  (l.create_done s owned done ∙ ap (λ n. n ∷ stored s) (l.reference_set lan nad e))
            | inr refused ↦ inl (l.create_refused s owned refused)
          ])
  ]

  create_missing-stored :
      (lan : Lan) (ns : Text) (existing nads : List Nad) (s : c.State)
      → All (IsWanted lan.spec ns) nads
      → (new : List Nad) × (stored (create_missing c lan existing nads s) ≡ new ++ stored s)
        × All (IsCreated lan ns existing) new
  unfolding create_missing
  create_missing-stored lan ns existing [] s w = ([], refl, tt)
  create_missing-stored lan ns existing (nad ∷ rest) s (w, ws) =
      elim (Bool-cases (has_name existing nad.name)) [
        | inl there ↦ rw there (create_missing-stored lan ns existing rest s ws)
        | inr missing ↦ rw missing (
            let (new, e, all) =
              create_missing-stored lan ns existing rest (create_owned c lan nad s) ws in
            elim (create_owned-stored lan nad s) [
              | inl same ↦ (new, e ∙ ap (λ t. new ++ t) same, all)
              | inr one ↦
                  let n : Nad = record nad { controller = some (owner_of lan) } in
                  (
                    new ++ (n ∷ []),
                    e ∙ ap (λ t. new ++ t) one ∙ sym (append_assoc new (n ∷ []) (stored s)),
                    All-append _ new (n ∷ []) all (created lan ns existing nad w missing, tt),
                  )
            ])
      ]

  pub reconcile_run :
      (s : c.State) (ns name : Text) {lan : Lan} {existing : List Nad}
      → c.get_lan s ns name ≡ found lan
      → c.list_nads s ≡ found existing
      → reconcile c ns name s ≡ (create_missing c lan existing (get_nads lan.spec ns) s, false)
  unfolding reconcile
  reconcile_run s ns name g h = rw (g, reconcile, h)

  -- Over a lawful client that finds the LAN and lists the attachments: a reconciliation only adds
  -- to what is stored, and each addition is an attachment for a spoke of the LAN, in the request's
  -- namespace, owned by the LAN, under a name that the list did not have.
  pub reconcile-adds :
      (s : c.State) (ns name : Text) {lan : Lan} {existing : List Nad}
      → c.get_lan s ns name ≡ found lan
      → c.list_nads s ≡ found existing
      → (new : List Nad) × (stored (reconcile c ns name s).0 ≡ new ++ stored s)
        × All (IsCreated lan ns existing) new
  reconcile-adds s ns name {lan} {existing} g h = rw (reconcile_run s ns name g h) (
      create_missing-stored lan ns existing (get_nads lan.spec ns) s
        (get_nads-IsWanted lan.spec ns))

  -- Over a lawful client that finds the LAN and lists the attachments: if some stored attachment
  -- has a name that is not in the request's namespace, a reconciliation does not put it there.
  pub reconcile_blocked :
      (s : c.State) (ns name : Text) {lan : Lan} {existing : List Nad}
      → c.get_lan s ns name ≡ found lan
      → c.list_nads s ≡ found existing
      → (elsewhere : Nad) → Memᴰ elsewhere (stored s)
      → ¬ (Holds (stored s) ns elsewhere.name)
      → ¬ (Holds (stored (reconcile c ns name s).0) ns elsewhere.name)
  reconcile_blocked s ns name {lan} {existing} g h elsewhere m lacks (nad, here, in_ns, named) =
      let (new, e, all) = reconcile-adds s ns name g h in
      elim (Memᴰ-append new (stored s) nad (subst (λ t. Memᴰ nad t) e here)) [
        | inl fresh ↦ cc (
          (All-Mem _ new nad all fresh).missing,
          named,
          has_name-Mem (stored s) elsewhere m,
          l.list-stored s h,
        )
        | inr old ↦ lacks (nad, old, in_ns, named)
      ]
