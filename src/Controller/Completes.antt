-- ===== src/Controller/Completes.antt =====
-- Where the API is available, one reconciliation is enough, and a second one does nothing.
use mathlib.Core.Path.{subst}
use mathlib.Core.List.{Memᴰ}
use k8slan.Base.{
  ◌≡◌, refl, sym, ap, ◌∙◌, inl, inr, Bool, true, false, none, some, List, [], ◌∷◌, All, arith,
  list_eq, nat_eq, Bool-cases, Option-cases, if◌then◌else◌,
}
use k8slan.Base.Text.{Text}
use k8slan.Lan.{Lan, spokes}
use k8slan.Lan.Names.{get_dp_resource_name}
use k8slan.Lan.Nads.{Nad, gen_nad, get_nads}
use k8slan.Lan.Nads.Wanted.{IsWanted, get_nads-IsWanted, get_nads-complete}
use k8slan.Controller.Api.{Client, found, owner_of, IsLawful, IsAvailable}
use k8slan.Controller.{has_name, create_owned, create_missing, reconcile}
use k8slan.Controller.Creates.{has_name-Mem, has_name-find, create_owned-stored, reconcile_run}

named_use :
    (nads : List Nad) (nad : Nad) (name : Text)
    → Memᴰ nad nads
    → nad.name ≡ name
    → has_name nads name ≡ true
named_use nads nad name m e = subst (λ t. has_name nads t ≡ true) e (has_name-Mem nads nad m)

module _ (c : Client) (l : IsLawful c) (up : IsAvailable c l) where
  open l use {stored}

  -- A name is in use.
  abbrev Used : c.State → Text → Type 0
  Used s name = has_name (stored s) name ≡ true

  create_owned-keeps :
      (lan : Lan) (nad : Nad) (s : c.State) (name : Text)
      → Used s name
      → Used (create_owned c lan nad s) name
  unfolding has_name
  create_owned-keeps lan nad s name h = elim (create_owned-stored c l lan nad s) [
    | inl same ↦ ap (λ t. has_name t name) same ∙ h
    | inr one ↦ ap (λ t. has_name t name) one ∙ ground arith
  ]

  create_owned-uses :
      (lan : Lan) (nad : Nad) (s : c.State)
      → nad.controller ≡ none
      → Used (create_owned c lan nad s) nad.name
  unfolding create_owned
  create_owned-uses lan nad s free = elim (Option-cases (c.set_controller_reference lan nad)) [
    | inl e ↦ absurd (up.references lan nad free e)
    | inr (owned, e) ↦ rw (e, create_owned) (after owned (l.reference_set lan nad e))
  ]
    where
      after :
          (owned : Nad)
          → owned ≡ record nad { controller = some (owner_of lan) }
          → Used (c.create s owned).0 nad.name
      after owned e =
          let named : owned.name ≡ nad.name = ap (λ (n : Nad). n.name) e in
          elim (Bool-cases (c.create s owned).1) [
            | inl done ↦
                ap (λ t. has_name t nad.name) (l.create_done s owned done)
                ∙ named_use (owned ∷ stored s) owned nad.name (Memᴰ.head refl) named
            | inr refused ↦ elim (up.creates s owned) [
              | inl done ↦ cc
              | inr (taken, m, _, same) ↦
                  ap (λ t. has_name t nad.name) (l.create_refused s owned refused)
                  ∙ named_use (stored s) taken nad.name m (same ∙ named)
            ]
          ]

  create_missing-keeps :
      (lan : Lan) (existing nads : List Nad) (s : c.State) (name : Text)
      → Used s name
      → Used (create_missing c lan existing nads s) name
  unfolding create_missing
  create_missing-keeps lan existing [] s name h = h
  create_missing-keeps lan existing (nad ∷ rest) s name h =
      elim (Bool-cases (has_name existing nad.name)) [
        | inl there ↦ rw there (create_missing-keeps lan existing rest s name h)
        | inr missing ↦ rw missing (
            create_missing-keeps lan existing rest (create_owned c lan nad s) name
              (create_owned-keeps lan nad s name h))
      ]

  -- After one attachment its name is in use, and names that were seen still are.
  seen_next :
      (lan : Lan) (nad : Nad) (s : c.State) (there : Bool)
      → nad.controller ≡ none
      → (there ≡ true → Used s nad.name)
      → Used (if there then s else create_owned c lan nad s) nad.name
  seen_next lan nad s true free seen = seen refl
  seen_next lan nad s false free seen = create_owned-uses lan nad s free

  keeps_next :
      (lan : Lan) (nad : Nad) (s : c.State) (there : Bool) (name : Text)
      → Used s name
      → Used (if there then s else create_owned c lan nad s) name
  keeps_next lan nad s true name h = h
  keeps_next lan nad s false name h = create_owned-keeps lan nad s name h

  create_missing-uses :
      (lan : Lan) (ns : Text) (existing nads : List Nad) (s : c.State)
      → All (IsWanted lan.spec ns) nads
      → ((name : Text) → has_name existing name ≡ true → Used s name)
      → (nad : Nad) → Memᴰ nad nads
      → Used (create_missing c lan existing nads s) nad.name
  unfolding create_missing
  create_missing-uses lan ns existing [] s w seen nad m = elim m [ ]
  create_missing-uses lan ns existing (x ∷ rest) s (w, ws) seen nad (Memᴰ.head e) =
      subst (λ n. Used (create_missing c lan existing (x ∷ rest) s) n)
        (ap (λ (n : Nad). n.name) (sym e))
        (create_missing-keeps lan existing rest _ x.name
          (seen_next lan x s (has_name existing x.name) w.unowned (seen x.name)))
  create_missing-uses lan ns existing (x ∷ rest) s (w, ws) seen nad (Memᴰ.tail m) =
      create_missing-uses lan ns existing rest _ ws
        (λ name h. keeps_next lan x s (has_name existing x.name) name (seen name h)) nad m

  -- Over a lawful client that finds the LAN and fails only on a name that is taken: after one
  -- reconciliation there is, for every spoke and both kinds, a stored attachment of that name in
  -- some namespace.
  pub reconcile_completes :
      (s : c.State) (ns name : Text) {lan : Lan}
      → c.get_lan s ns name ≡ found lan
      → (spoke : Text) (is_veth : Bool) → Memᴰ spoke (spokes lan.spec)
      → (nad : Nad) × Memᴰ nad (stored (reconcile c ns name s).0)
        × (nad.name ≡ get_dp_resource_name spoke is_veth)
  unfolding gen_nad
  reconcile_completes s ns name {lan} g spoke is_veth m =
      rw (reconcile_run c l s ns name g (up.lists s)) (
        has_name-find _ _ (
          create_missing-uses lan ns (stored s) (get_nads lan.spec ns) s
            (get_nads-IsWanted lan.spec ns) (λ n h. h)
            (gen_nad (get_dp_resource_name spoke is_veth) ns)
            (get_nads-complete lan.spec ns spoke is_veth m)))

  get_lan-create_owned :
      (lan : Lan) (nad : Nad) (s : c.State) (ns name : Text)
      → c.get_lan (create_owned c lan nad s) ns name ≡ c.get_lan s ns name
  unfolding create_owned
  get_lan-create_owned lan nad s ns name =
      elim (Option-cases (c.set_controller_reference lan nad)) [
        | inl e ↦ rw (e, create_owned)
        | inr (owned, e) ↦ rw (e, create_owned) (l.get-create s owned ns name)
      ]

  get_lan-create_missing :
      (lan : Lan) (existing nads : List Nad) (s : c.State) (ns name : Text)
      → c.get_lan (create_missing c lan existing nads s) ns name ≡ c.get_lan s ns name
  unfolding create_missing
  get_lan-create_missing lan existing [] s ns name = refl
  get_lan-create_missing lan existing (nad ∷ rest) s ns name =
      elim (Bool-cases (has_name existing nad.name)) [
        | inl there ↦ rw there (get_lan-create_missing lan existing rest s ns name)
        | inr missing ↦ rw missing (
            get_lan-create_missing lan existing rest (create_owned c lan nad s) ns name
            ∙ get_lan-create_owned lan nad s ns name)
      ]

  nothing_missing :
      (lan : Lan) (existing nads : List Nad) (s : c.State)
      → ((nad : Nad) → Memᴰ nad nads → has_name existing nad.name ≡ true)
      → create_missing c lan existing nads s ≡ s
  unfolding create_missing
  nothing_missing lan existing [] s h = refl
  nothing_missing lan existing (nad ∷ rest) s h =
      rw (h nad (Memᴰ.head refl)) (nothing_missing lan existing rest s (λ n m. h n (Memᴰ.tail m)))

  -- Over a lawful client that finds the LAN and fails only on a name that is taken: a second
  -- reconciliation changes nothing.
  pub reconcile_twice :
      (s : c.State) (ns name : Text) {lan : Lan}
      → c.get_lan s ns name ≡ found lan
      → reconcile c ns name (reconcile c ns name s).0 ≡ reconcile c ns name s
  reconcile_twice s ns name {lan} g =
      let t = create_missing c lan (stored s) (get_nads lan.spec ns) s in
      rw (reconcile_run c l s ns name g (up.lists s)) (
        reconcile_run c l t ns name
          (get_lan-create_missing lan (stored s) (get_nads lan.spec ns) s ns name ∙ g) (up.lists t)
        ∙ ap (λ u. (u, false))
            (nothing_missing lan (stored t) (get_nads lan.spec ns) t (
              create_missing-uses lan ns (stored s) (get_nads lan.spec ns) s
                (get_nads-IsWanted lan.spec ns) (λ n h. h))))
