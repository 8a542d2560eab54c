-- ===== src/DevicePlugin/Plugin/Laws.antt =====
-- What a plugin offers and what an allocation answers.
use mathlib.Core.List.{append_assoc}
use mathlib.Core.Path.{subst}
use k8slan.Base.{
  ℕ, ◌≤◌, ◌≡◌, refl, ap, ◌∙◌, Bool, true, false, some, List, [], ◌∷◌, ◌++◌, length, length-append,
  All, contains, ok, arith, list_eq, nat_eq, if◌then◌else◌,
}
use k8slan.Base.Text.{Text, bytes, has_prefix, contains_text}
use k8slan.Base.Io.{Io, io_bind_ok}
use k8slan.Lan.{LanSpec, spokes, veth_prefix}
use k8slan.Lan.Names.{get_dp_resource_name}
use k8slan.Lan.Names.Laws.{prefix_of, spoke_name_iff}
use k8slan.Lan.Validation.Laws.{FitsIfName}
use k8slan.DevicePlugin.Lister.{DeviceList, plugin_lan, handle, add}
use k8slan.DevicePlugin.Lister.Laws.{plugin_lan-handle}
use k8slan.DevicePlugin.Plugin.{
  MacvtapDevicePlugin, new_macvtap_device_plugin, new_plugin, generate_macvtap_devices, DeviceSpec,
  device_of, Ensure, allocate_devices, allocate, default_mode, macvtap_suffix, veth_suffix,
  tap_path, print_nat,
}

dummy-resource_name : (x : Text) (b : Bool) → has_prefix (get_dp_resource_name x b) veth_prefix ≡ b
unfolding get_dp_resource_name has_prefix
dummy-resource_name x true = refl
dummy-resource_name x false = refl

-- Once the lister has taken a LAN, the manager gets a plugin for each kind of resource of each
-- spoke, with the spoke's own name, that LAN and that kind, if the name does not hold the prefix of
-- the kind.
pub new_plugin-add :
    (hname : Text) (lan : LanSpec) (d : DeviceList) (x : Text) (is_veth : Bool)
    → contains (spokes lan) x ≡ true
    → contains_text x (prefix_of is_veth) ≡ false
    → new_plugin hname (handle (add lan) d) (get_dp_resource_name x is_veth)
      ≡ some (record {
        name = x;
        host_name = hname;
        lan = lan;
        mode = default_mode;
        dummy_macvtap = is_veth;
      })
unfolding new_plugin new_macvtap_device_plugin
new_plugin-add hname lan d x is_veth listed plain =
    let known : plugin_lan (get_dp_resource_name x is_veth) (handle (add lan) d) ≡ some lan =
      plugin_lan-handle (add lan) d x is_veth
      ∙ ap (λ b. if b then some lan else plugin_lan (get_dp_resource_name x is_veth) d) listed in
    rw (known, new_plugin, (spoke_name_iff x is_veth).1 plain, dummy-resource_name x is_veth)

abbrev pub suffix_of : Bool → Text
suffix_of is_veth = if is_veth then veth_suffix else macvtap_suffix

-- A plugin offers one device, named by its spoke, the suffix of its kind and 0; if the spoke's name
-- has 1 to 13 bytes, the device's has 15 at most.
pub generate_fits :
    (mdp : MacvtapDevicePlugin)
    → (generate_macvtap_devices mdp ≡ (mdp.name ++ (suffix_of mdp.dummy_macvtap ++ bytes "0")) ∷ [])
      × (FitsIfName mdp.name → All (λ name. length name ≤ 15) (generate_macvtap_devices mdp))
unfolding generate_macvtap_devices
generate_fits mdp = (
  ap (λ t. t ∷ []) (append_assoc mdp.name (suffix_of mdp.dummy_macvtap) (bytes "0")),
  λ fits. (short mdp.dummy_macvtap fits, tt),
)
  where
    short :
        (b : Bool)
        → FitsIfName mdp.name
        → length ((mdp.name ++ (if b then veth_suffix else macvtap_suffix)) ++ bytes "0") ≤ 15
    short true fits = omega (
      arith,
      length-append (mdp.name ++ veth_suffix) (bytes "0"),
      length-append mdp.name veth_suffix,
    )
    short false fits = omega (
      arith,
      length-append (mdp.name ++ macvtap_suffix) (bytes "0"),
      length-append mdp.name macvtap_suffix,
    )

module _ {S : Type 0} (ensure : Ensure S) (mdp : MacvtapDevicePlugin) where
  -- The devices that answer the names of one container.
  abbrev pub Answers : List Text → List DeviceSpec → Type 0
  Answers [] [] = Unit
  Answers [] (d ∷ ds) = ⊥
  Answers (id ∷ ids) [] = ⊥
  Answers (id ∷ ids) (d ∷ ds) =
      ((s t : S) × (index : ℕ) × (ensure id mdp.name mdp.lan mdp.host_name mdp.mode
            mdp.dummy_macvtap s
          ≡ (ok index, t))
        × (d.host_path ≡ tap_path ++ print_nat index)
        × (d.container_path ≡ d.host_path)
        × (d.permissions ≡ bytes "rw"))
      × Answers ids ds

  abbrev pub AnswersAll : List (List Text) → List (List DeviceSpec) → Type 0
  AnswersAll [] [] = Unit
  AnswersAll [] (d ∷ ds) = ⊥
  AnswersAll (id ∷ ids) [] = ⊥
  AnswersAll (ids ∷ rest) (ds ∷ responses) = Answers ids ds × AnswersAll rest responses

  abbrev ensured : Text → Io S ℕ
  ensured id = ensure id mdp.name mdp.lan mdp.host_name mdp.mode mdp.dummy_macvtap

  allocate_devices-Answers :
      (ids : List Text) (s : S) {ds : List DeviceSpec} {t : S}
      → allocate_devices ensure mdp ids s ≡ (ok ds, t)
      → Answers ids ds
  unfolding allocate_devices device_of
  allocate_devices-Answers [] s {ds} h = let e : [] ≡ ds = cc in subst (Answers []) e tt
  allocate_devices-Answers (id ∷ ids) s {ds} {t} h =
      let (index, u, e, h₁) = io_bind_ok (ensured id) _ s h in
      let (rest, v, e', h₂) = io_bind_ok (allocate_devices ensure mdp ids) _ u h₁ in
      subst (Answers (id ∷ ids)) {x = device_of index ∷ rest} {y = ds} (cc)
        ((s, u, index, e, refl, refl, refl), allocate_devices-Answers ids u e')

  -- A successful allocation answers each container, and in it each device name, in order, with the
  -- tap device of the macvtap index that `Ensure` gave for that name.
  pub allocate-AnswersAll :
      (requests : List (List Text)) (s : S) {responses : List (List DeviceSpec)} {t : S}
      → allocate ensure mdp requests s ≡ (ok responses, t)
      → AnswersAll requests responses
  unfolding allocate
  allocate-AnswersAll [] s {responses} h = let e : [] ≡ responses = cc in subst (AnswersAll []) e tt
  allocate-AnswersAll (ids ∷ requests) s {responses} h =
      let (ds, u, e, h₁) = io_bind_ok (allocate_devices ensure mdp ids) _ s h in
      let (rest, v, e', h₂) = io_bind_ok (allocate ensure mdp requests) _ u h₁ in
      subst (AnswersAll (ids ∷ requests)) {x = ds ∷ rest} {y = responses} (cc)
        (allocate_devices-Answers ids s e, allocate-AnswersAll requests u e')

  -- `Ensure` never fails.
  abbrev pub AlwaysEnsures : Type 0
  AlwaysEnsures = (id : Text) (s : S) → (i : ℕ) × (t : S) × (ensured id s ≡ (ok i, t))

  allocate_devices-done :
      AlwaysEnsures
      → (ids : List Text) (s : S)
      → (ds : List DeviceSpec) × (t : S) × (allocate_devices ensure mdp ids s ≡ (ok ds, t))
  unfolding allocate_devices
  allocate_devices-done up [] s = ([], s, refl)
  allocate_devices-done up (id ∷ ids) s =
      let (i, u, e) = up id s in
      let (ds, t, e') = allocate_devices-done up ids u in (device_of i ∷ ds, t, rw (e, e') refl)

  allocate-runs :
      AlwaysEnsures
      → (requests : List (List Text)) (s : S)
      → (responses : List (List DeviceSpec)) × (t : S) × (allocate ensure mdp requests s
          ≡ (ok responses, t))
  unfolding allocate
  allocate-runs up [] s = ([], s, refl)
  allocate-runs up (ids ∷ rest) s =
      let (ds, u, e) = allocate_devices-done up ids s in
      let (responses, t, e') = allocate-runs up rest u in (ds ∷ responses, t, rw (e, e') refl)

  -- Where `Ensure` never fails for the plugin's spoke, every allocation succeeds and answers each
  -- container, and in it each device name, in order, with the tap device of the index that `Ensure`
  -- gave.
  pub allocate-done :
      AlwaysEnsures
      → (requests : List (List Text)) (s : S)
      → (responses : List (List DeviceSpec)) × (t : S) × (allocate ensure mdp requests s
          ≡ (ok responses, t))
        × AnswersAll requests responses
  allocate-done up requests s =
      let (responses, t, e) = allocate-runs up requests s in
      (responses, t, e, allocate-AnswersAll requests s e)
