-- ===== src/DevicePlugin/Lister/Known.antt =====
-- What holds of every LAN that the lister is told of holds of every LAN that it knows.
use mathlib.Core.Path.{subst}
use mathlib.Core.Option.{some-injective}
use k8slan.Base.{
  ◌≡◌, sym, ◌∙◌, Bool-cases, inl, inr, some, true, false, List, [], ◌∷◌, All, ◌==◌, list_eq, nat_eq,
}
use k8slan.Base.Text.{Text}
use k8slan.Base.Dict
use k8slan.Lan.{LanSpec, spokes}
use k8slan.Lan.Names.{get_dp_resource_name}
use k8slan.DevicePlugin.Lister.{
  DeviceList, add_spokes, add_lan, remove_spokes, remove_lan, Message, add, remove, handle,
  discover,
}

module _ (P : LanSpec → Type 0) where
  -- The messages tell of such LANs only.
  abbrev pub TellsOf : Message → Type 0
  TellsOf (add lan) = P lan
  TellsOf (remove lan) = Unit

  abbrev pub Known : DeviceList → Type 0
  Known d = (x : Text) (lan : LanSpec) → Dict.lookup x d ≡ some lan → P lan

  insert-Known :
      (k : Text) (lan : LanSpec) (d : DeviceList) → P lan → Known d → Known (Dict.insert k lan d)
  insert-Known k lan d p known x l h = elim (Bool-cases (x == k)) [
    | inl same ↦
        subst P
          (some-injective lan l
            (let e = Dict.lookup-insert x k lan d in let e' = rw same at e in sym e' ∙ h))
          p
    | inr other ↦
        known x l (let e = Dict.lookup-insert x k lan d in let e' = rw other at e in sym e' ∙ h)
  ]

  erase-Known : (k : Text) (d : DeviceList) → Known d → Known (Dict.erase k d)
  erase-Known k d known x l h = elim (Bool-cases (x == k)) [
    | inl same ↦ let e = Dict.lookup-erase x k d in let e' = rw same at e in cc
    | inr other ↦
        known x l (let e = Dict.lookup-erase x k d in let e' = rw other at e in sym e' ∙ h)
  ]

  add_spokes-Known :
      (lan : LanSpec) (xs : List Text) (d : DeviceList)
      → P lan
      → Known d
      → Known (add_spokes lan xs d)
  unfolding add_spokes
  add_spokes-Known lan [] d p known = known
  add_spokes-Known lan (x ∷ xs) d p known = add_spokes-Known lan xs _ p (
      insert-Known (get_dp_resource_name x false) lan _ p
        (insert-Known (get_dp_resource_name x true) lan d p known))

  remove_spokes-Known : (xs : List Text) (d : DeviceList) → Known d → Known (remove_spokes xs d)
  unfolding remove_spokes
  remove_spokes-Known [] d known = known
  remove_spokes-Known (x ∷ xs) d known = remove_spokes-Known xs _ (
      erase-Known (get_dp_resource_name x false) _
        (erase-Known (get_dp_resource_name x true) d known))

  handle-Known : (m : Message) (d : DeviceList) → TellsOf m → Known d → Known (handle m d)
  unfolding handle add_lan remove_lan
  handle-Known (add lan) d p known = add_spokes-Known lan (spokes lan) d p known
  handle-Known (remove lan) d p known = remove_spokes-Known (spokes lan) d known

  pub discover-Known :
      (ms : List Message) (d : DeviceList) → All TellsOf ms → Known d → Known (discover ms d).0
  unfolding discover
  discover-Known [] d ps known = known
  discover-Known (m ∷ ms) d (p, ps) known =
      discover-Known ms (handle m d) ps (handle-Known m d p known)

  pub nothing-Known : Known []
  unfolding Dict.lookup
  nothing-Known x lan h = cc
