-- ===== src/DevicePlugin/Lister/Race.antt =====
-- `Discover` waits on two channels and takes from either that has something, so that the order
-- between an addition and a removal is lost while both wait.
use k8slan.Base.{
  ◌≡◌, refl, sym, ap, ◌∙◌, ◌⊎◌, inl, inr, Bool, true, none, some, List, [], ◌∷◌, ◌++◌, contains,
  list_eq, nat_eq, if◌then◌else◌,
}
use k8slan.Base.Text.{Text}
use k8slan.Lan.{LanSpec, spokes}
use k8slan.Lan.Names.{get_dp_resource_name}
use k8slan.DevicePlugin.Lister.{DeviceList, add, remove, handle, plugin_lan, report}
use k8slan.DevicePlugin.Lister.Laws.{plugin_lan-handle}

-- The two channels, what the lister knows, and what it has reported.
pub record System : Type 0 where
  pub add_chan : List LanSpec
  pub remove_chan : List LanSpec
  pub devices : DeviceList
  pub reports : List (List Text)

-- One round of the `select`: whichever channel has something may be taken.
pub data Select (s : System) : System → Type 0 where
  take_add :
      (lan : LanSpec) (rest : List LanSpec)
      → s.add_chan ≡ lan ∷ rest
      → Select s (record s {
        add_chan = rest;
        devices = handle (add lan) s.devices;
        reports = s.reports ++ report (handle (add lan) s.devices);
      })
  take_remove :
      (lan : LanSpec) (rest : List LanSpec)
      → s.remove_chan ≡ lan ∷ rest
      → Select s (record s {
        remove_chan = rest;
        devices = handle (remove lan) s.devices;
        reports = s.reports ++ report (handle (remove lan) s.devices);
      })

pub data Run (s : System) : System → Type 0 where
  here : Run s s
  next : {t u : System} → Run s t → Select t u → Run s u

-- The daemon has announced a LAN and withdrawn it before the lister took either message.
abbrev pub waiting : LanSpec → DeviceList → System
waiting lan devices = record {
  add_chan = lan ∷ [];
  remove_chan = lan ∷ [];
  devices = devices;
  reports = [];
}

abbrev pub IsDrained : System → Type 0
IsDrained s = (s.add_chan ≡ []) × (s.remove_chan ≡ [])

abbrev removed_last : LanSpec → DeviceList → System
removed_last lan d =
    let d₁ = handle (add lan) d in
    let d₂ = handle (remove lan) d₁ in
    record { add_chan = []; remove_chan = []; devices = d₂; reports = report d₁ ++ report d₂ }

abbrev added_last : LanSpec → DeviceList → System
added_last lan d =
    let d₁ = handle (remove lan) d in
    let d₂ = handle (add lan) d₁ in
    record { add_chan = []; remove_chan = []; devices = d₂; reports = report d₁ ++ report d₂ }

-- With an addition and a removal of one LAN waiting on the two channels, one run empties both and
-- leaves the LAN with its resources, and another leaves it with none.
pub withdrawn_either_way :
    (lan : LanSpec) (d : DeviceList) (x : Text) (is_veth : Bool)
    → contains (spokes lan) x ≡ true
    → ((s : System) × Run (waiting lan d) s
        × IsDrained s
        × (plugin_lan (get_dp_resource_name x is_veth) s.devices ≡ some lan))
      × ((s : System) × Run (waiting lan d) s
          × IsDrained s
          × (plugin_lan (get_dp_resource_name x is_veth) s.devices ≡ none))
withdrawn_either_way lan d x is_veth h = (
  (
    added_last lan d,
    next (next here (take_remove lan [] refl)) (take_add lan [] refl),
    (refl, refl),
    plugin_lan-handle (add lan) (handle (remove lan) d) x is_veth ∙ rw h,
  ),
  (
    removed_last lan d,
    next (next here (take_add lan [] refl)) (take_remove lan [] refl),
    (refl, refl),
    plugin_lan-handle (remove lan) (handle (add lan) d) x is_veth ∙ rw h,
  ),
)

module _ (lan : LanSpec) (x : Text) (is_veth : Bool) (listed : contains (spokes lan) x ≡ true) where
  -- The removal is still to be taken, or has been taken.
  abbrev IsRemoving : System → Type 0
  IsRemoving t =
      (t.add_chan ≡ [])
      × ((t.remove_chan ≡ lan ∷ [])
          ⊎ ((t.remove_chan ≡ []) × (plugin_lan (get_dp_resource_name x is_veth) t.devices ≡ none)))

  gone :
      (l : LanSpec) (d : DeviceList)
      → lan ≡ l
      → plugin_lan (get_dp_resource_name x is_veth) (handle (remove l) d) ≡ none
  gone l d e =
      plugin_lan-handle (remove l) d x is_veth
      ∙ ap (λ b. if b then none else plugin_lan (get_dp_resource_name x is_veth) d)
          (ap (λ k. contains (spokes k) x) (sym e) ∙ listed)

  Select-IsRemoving : {s t : System} → IsRemoving s → Select s t → IsRemoving t
  Select-IsRemoving (no_add, i) (take_add l rest e) = cc
  Select-IsRemoving {s = s} (no_add, i) (take_remove l rest e) = elim i [
    | inl one ↦ (no_add, inr (cc, gone l s.devices (cc)))
    | inr (empty, done) ↦ cc
  ]

  Run-IsRemoving : {s t : System} → IsRemoving s → Run s t → IsRemoving t
  Run-IsRemoving i here = i
  Run-IsRemoving i (next r st) = Select-IsRemoving (Run-IsRemoving i r) st

-- If a removal waits and no addition does, then in every run that empties both channels the LAN's
-- spokes have no resource at the end.
pub remove_alone :
    (lan : LanSpec) (d : DeviceList) (x : Text) (is_veth : Bool) {t : System}
    → contains (spokes lan) x ≡ true
    → Run (record { add_chan = []; remove_chan = lan ∷ []; devices = d; reports = [] }) t
    → IsDrained t
    → plugin_lan (get_dp_resource_name x is_veth) t.devices ≡ none
remove_alone lan d x is_veth h run drained =
    let (_, state) = Run-IsRemoving lan x is_veth h (refl, inl refl) run in
    elim state [ inl one ↦ cc (drained.1) | inr (_, done) ↦ done ]
