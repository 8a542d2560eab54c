-- ===== src/DeepCopy.antt =====
-- The deep copies of the resource (api/v1beta1/zz_generated.deepcopy.go), over a store that pointers
-- point into. A struct is passed as what its memory holds: `*out = *in` gives the same references,
-- which the rest of `DeepCopyInto` replaces, and a pointer to a struct is an `Option` of it. A copy
-- that is filled in a loop is written when the loop ends. The parts of `metav1` and their copies are
-- parameters.
pub mod Store
pub mod Types
pub mod Laws
pub mod Fields
pub mod Elements
pub mod Spec
pub mod Objects
pub mod Apart
use k8slan.Base.{ℕ, zero, suc, Option, none, some, List, [], ◌∷◌, length, nat_eq, list_eq}
use k8slan.Base.Int.{ℤ, pos}
use k8slan.Base.Text.{Text}
use k8slan.Base.Dict
use k8slan.Base.Dict.{Dict}
use k8slan.DeepCopy.Store.{Ptr, Cmd, pure, ◌>>=◌, ◌>>◌, load, alloc, store}
use k8slan.DeepCopy.Types.{
  Meta, Cell, string_cell, int_cell, map_cell, strings_cell, conditions_cell, items_cell, SpecRef,
  StatusRef, LanRef, LanListRef, zero_lan,
}

-- `for key, val := range *in { (*out)[key] = val }`
unfoldable pub copy_entries : Dict Text Text → Dict Text Text → Dict Text Text
copy_entries [] out = out
copy_entries ((key, val) ∷ entries) out = copy_entries entries (Dict.insert key val out)

-- `copy(dst, src)`
unfoldable pub copy_slice {ℓ} : {A : Type ℓ} → List A → List A → List A
copy_slice [] src = []
copy_slice (d ∷ dst) [] = d ∷ dst
copy_slice (d ∷ dst) (x ∷ src) = x ∷ copy_slice dst src

-- What `make` gives for a slice.
unfoldable pub zeros {ℓ} : {A : Type ℓ} → ℕ → A → List A
zeros zero z = []
zeros (suc n) z = z ∷ zeros n z

module _ {m : Meta} where
  -- `*out = new(T); **out = **in`, for a `T` with this zero value
  unfoldable pub copy_pointer : Cell m → Option Ptr → Cmd (Cell m) (Option Ptr)
  copy_pointer z none = pure none
  copy_pointer z (some p) = do q ← alloc z; v ← load p; store q v; pure (some q)

  new_map : Cell m → Cmd (Cell m) Ptr
  new_map (map_cell d) = do q ← alloc (map_cell []); store q (map_cell (copy_entries d [])); pure q
  new_map c = λ h. none

  unfoldable pub copy_map : Option Ptr → Cmd (Cell m) (Option Ptr)
  unfolding new_map
  copy_map none = pure none
  copy_map (some p) = do c ← load p; q ← new_map c; pure (some q)

  new_strings : Cell m → Cmd (Cell m) Ptr
  new_strings (strings_cell xs) = do
    q ← alloc (strings_cell (zeros (length xs) []))
    store q (strings_cell (copy_slice (zeros (length xs) []) xs))
    pure q
  new_strings c = λ h. none

  unfoldable pub copy_strings : Option Ptr → Cmd (Cell m) (Option Ptr)
  unfolding new_strings
  copy_strings none = pure none
  copy_strings (some p) = do c ← load p; q ← new_strings c; pure (some q)

  -- `LANSpec.DeepCopyInto`
  unfoldable pub copy_spec : SpecRef → Cmd (Cell m) SpecRef
  copy_spec s = do
    ns ← copy_pointer (string_cell []) s.ns
    bridge ← copy_pointer (string_cell []) s.bridge_name
    vxlan ← copy_pointer (string_cell []) s.vxlan_name
    vni ← copy_pointer (int_cell (pos 0)) s.vni
    grp ← copy_pointer (string_cell []) s.vxlan_grp
    dev_map ← copy_map s.vx_dev_map
    port ← copy_pointer (int_cell (pos 0)) s.vx_port
    spokes ← copy_strings s.spoke_list
    pure (record {
      ns = ns;
      bridge_name = bridge;
      vxlan_name = vxlan;
      vni = vni;
      vxlan_grp = grp;
      default_vx_dev = s.default_vx_dev;
      vx_dev_map = dev_map;
      vx_port = port;
      spoke_list = spokes;
    })

  -- `for i := range *in { (*in)[i].DeepCopyInto(&(*out)[i]) }`
  unfoldable pub copy_each : {R : Type 0} → (R → Cmd (Cell m) R) → List R → Cmd (Cell m) (List R)
  copy_each copy [] = pure []
  copy_each copy (x ∷ xs) = do y ← copy x; ys ← copy_each copy xs; pure (y ∷ ys)

  -- `DeepCopy` of a struct with this `DeepCopyInto`; nil is copied to nil.
  unfoldable pub deep_copy :
      {R : Type 0} → (R → Cmd (Cell m) R) → Option R → Cmd (Cell m) (Option R)
  deep_copy copy none = pure none
  deep_copy copy (some r) = do out ← copy r; pure (some out)

  -- `DeepCopyObject`: a nil pointer gives a nil interface.
  unfoldable pub deep_copy_object :
      {R : Type 0} → (R → Cmd (Cell m) R) → Option R → Cmd (Cell m) (Option R)
  deep_copy_object copy x = do
    c ← deep_copy copy x
    (elim c [ none ↦ pure none | some r ↦ pure (some r) ])

-- The copies of `metav1`
pub record MetaCopy (m : Meta) : Type 0 where
  pub copy_object_meta : m.ObjectMeta → Cmd (Cell m) m.ObjectMeta
  pub copy_list_meta : m.ListMeta → Cmd (Cell m) m.ListMeta
  pub copy_condition : m.Condition → Cmd (Cell m) m.Condition

module _ {m : Meta} (mc : MetaCopy m) where
  new_conditions : Cell m → Cmd (Cell m) Ptr
  new_conditions (conditions_cell xs) = do
    q ← alloc (conditions_cell (zeros (length xs) m.zero_condition))
    ys ← copy_each mc.copy_condition xs
    store q (conditions_cell ys)
    pure q
  new_conditions c = λ h. none

  copy_conditions : Option Ptr → Cmd (Cell m) (Option Ptr)
  unfolding new_conditions
  copy_conditions none = pure none
  copy_conditions (some p) = do c ← load p; q ← new_conditions c; pure (some q)

  -- `LANStatus.DeepCopyInto`
  unfoldable pub copy_status : StatusRef → Cmd (Cell m) StatusRef
  unfolding copy_conditions
  copy_status s = do
    conditions ← copy_conditions s.conditions
    pure (record { conditions = conditions })

  -- `LAN.DeepCopyInto`
  unfoldable pub copy_lan : LanRef m → Cmd (Cell m) (LanRef m)
  unfolding copy_status
  copy_lan l = do
    object_meta ← mc.copy_object_meta l.object_meta
    spec ← copy_spec l.spec
    status ← copy_status l.status
    pure (record {
      api_version = l.api_version;
      kind = l.kind;
      object_meta = object_meta;
      spec = spec;
      status = status;
    })

  new_items : Cell m → Cmd (Cell m) Ptr
  unfolding copy_lan
  new_items (items_cell xs) = do
    q ← alloc (items_cell (zeros (length xs) (zero_lan m)))
    ys ← copy_each copy_lan xs
    store q (items_cell ys)
    pure q
  new_items c = λ h. none

  copy_items : Option Ptr → Cmd (Cell m) (Option Ptr)
  unfolding new_items
  copy_items none = pure none
  copy_items (some p) = do c ← load p; q ← new_items c; pure (some q)

  -- `LANList.DeepCopyInto`
  unfoldable pub copy_lan_list : LanListRef m → Cmd (Cell m) (LanListRef m)
  unfolding copy_items
  copy_lan_list l = do
    list_meta ← mc.copy_list_meta l.list_meta
    items ← copy_items l.items
    pure (record {
      api_version = l.api_version;
      kind = l.kind;
      list_meta = list_meta;
      items = items;
    })

  -- `LAN.DeepCopy` and `LAN.DeepCopyObject`
  abbrev pub deep_copy_lan : Option (LanRef m) → Cmd (Cell m) (Option (LanRef m))
  deep_copy_lan = deep_copy (copy_lan)

  abbrev pub deep_copy_lan_object : Option (LanRef m) → Cmd (Cell m) (Option (LanRef m))
  deep_copy_lan_object = deep_copy_object (copy_lan)

  -- `LANList.DeepCopy` and `LANList.DeepCopyObject`
  abbrev pub deep_copy_lan_list : Option (LanListRef m) → Cmd (Cell m) (Option (LanListRef m))
  deep_copy_lan_list = deep_copy (copy_lan_list)

  abbrev pub deep_copy_lan_list_object :
      Option (LanListRef m) → Cmd (Cell m) (Option (LanListRef m))
  deep_copy_lan_list_object = deep_copy_object (copy_lan_list)

  -- `LANStatus.DeepCopy`
  abbrev pub deep_copy_status : Option StatusRef → Cmd (Cell m) (Option StatusRef)
  deep_copy_status = deep_copy (copy_status)

-- `LANSpec.DeepCopy`
abbrev pub deep_copy_spec : {m : Meta} → Option SpecRef → Cmd (Cell m) (Option SpecRef)
deep_copy_spec = deep_copy copy_spec
