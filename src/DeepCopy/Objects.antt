-- ===== src/DeepCopy/Objects.antt =====
-- The copies of a LAN, its status and a list of LANs stand for the same, by memory of their own.
use k8slan.Base.{◌≡◌, Option, none, some, List, length, arith}
use k8slan.Base.Text.{Text}
use k8slan.Lan.{LanSpec}
use k8slan.DeepCopy.Store.{
  Ptr, Store, load_lem, Extends-refl, Extends-trans, Gives, gives, gives_then,
}
use k8slan.DeepCopy.Laws.{Stands, Framed, Fresh, Copies, later, Slice, Slice-Framed}
use k8slan.DeepCopy.Elements.{remade}
use k8slan.DeepCopy.Spec.{SpecStands, spec-Framed, copy_spec-Copies}
use k8slan.DeepCopy.Types.{
  Meta, Cell, conditions_cell, items_cell, StatusRef, LanRef, LanListRef, zero_lan,
}
use k8slan.DeepCopy.{
  MetaCopy, zeros, copy_conditions, new_conditions, copy_status, copy_lan, new_items, copy_items,
  copy_lan_list,
}

-- What the structs of `metav1` stand for, and that their `DeepCopyInto` copies it.
pub record MetaLaws (m : Meta) (mc : MetaCopy m) : Type 1 where
  pub ObjectValue : Type 0
  pub ListValue : Type 0
  pub ConditionValue : Type 0
  pub ObjectStands : Stands (Cell m) m.ObjectMeta ObjectValue
  pub ListStands : Stands (Cell m) m.ListMeta ListValue
  pub ConditionStands : Stands (Cell m) m.Condition ConditionValue
  pub object_framed : Framed ObjectStands
  pub list_framed : Framed ListStands
  pub condition_framed : Framed ConditionStands
  pub object_copies : Copies ObjectStands mc.copy_object_meta
  pub list_copies : Copies ListStands mc.copy_list_meta
  pub condition_copies : Copies ConditionStands mc.copy_condition

pub record LanValue (O C : Type 0) : Type 0 where
  pub api_version : Text
  pub kind : Text
  pub object_meta : O
  pub spec : LanSpec
  pub status : Option (List C)

pub record LanListValue (L O C : Type 0) : Type 0 where
  pub api_version : Text
  pub kind : Text
  pub list_meta : L
  pub items : Option (List (LanValue O C))

module _ {m : Meta} {mc : MetaCopy m} (laws : MetaLaws m mc) where
  abbrev pub StatusStands : Stands (Cell m) StatusRef (Option (List laws.ConditionValue))
  StatusStands h lo hi s v = Slice laws.ConditionStands conditions_cell h lo hi s.conditions v

  pub record LanStands (h : Store (Cell m)) (lo hi : Ptr) (l : LanRef m)
      (v : LanValue laws.ObjectValue laws.ConditionValue) : Type 0 where
    pub api_version : l.api_version ≡ v.api_version
    pub kind : l.kind ≡ v.kind
    pub object_meta : laws.ObjectStands h lo hi l.object_meta v.object_meta
    pub spec : SpecStands h lo hi l.spec v.spec
    pub status : StatusStands h lo hi l.status v.status

  pub record ListStands (h : Store (Cell m)) (lo hi : Ptr) (l : LanListRef m)
      (v : LanListValue laws.ListValue laws.ObjectValue laws.ConditionValue) : Type 0 where
    pub api_version : l.api_version ≡ v.api_version
    pub kind : l.kind ≡ v.kind
    pub list_meta : laws.ListStands h lo hi l.list_meta v.list_meta
    pub items : Slice LanStands items_cell h lo hi l.items v.items

  status-Framed : Framed StatusStands
  status-Framed = record {
    carry = λ {h} {g} {lo} {hi} {lo'} {hi'} {r} {v} low up same d.
        (Slice-Framed laws.condition_framed conditions_cell).carry low up same d;
  }

  pub lan-Framed : Framed LanStands
  lan-Framed = record {
    carry = λ {h} {g} {lo} {hi} {lo'} {hi'} {r} {v} low up same d. record {
      api_version = d.api_version;
      kind = d.kind;
      object_meta = laws.object_framed.carry low up same d.object_meta;
      spec = spec-Framed.carry low up same d.spec;
      status = status-Framed.carry {r = r.status} {v = v.status} low up same d.status;
    };
  }

  pub list-Framed : Framed ListStands
  list-Framed = record {
    carry = λ {h} {g} {lo} {hi} {lo'} {hi'} {r} {v} low up same d. record {
      api_version = d.api_version;
      kind = d.kind;
      list_meta = laws.list_framed.carry low up same d.list_meta;
      items = (Slice-Framed lan-Framed items_cell).carry low up same d.items;
    };
  }

  copy_conditions_lem :
      (h : Store (Cell m)) (r : Option Ptr) (v : Option (List laws.ConditionValue))
      → Slice laws.ConditionStands conditions_cell h 0 h.next r v
      → Gives (Fresh (Slice laws.ConditionStands conditions_cell) h v) (copy_conditions mc r h)
  unfolding copy_conditions new_conditions
  copy_conditions_lem h none none Slice.nil = gives (Slice.nil, Extends-refl h)
  copy_conditions_lem h none (some vs) d = elim d [ ]
  copy_conditions_lem h (some p) none d = elim d [ ]
  copy_conditions_lem h (some p) (some vs) (Slice.at {rs = rs} above below e ds) =
      rw (load_lem h p e) (
        gives_then _
          (remade laws.condition_framed conditions_cell
            (conditions_cell (zeros (length rs) m.zero_condition)) mc.copy_condition
            laws.condition_copies h rs vs ds)
          λ q h' d. gives d)

  copy_status-Copies : Copies StatusStands (copy_status mc)
  unfolding copy_status
  copy_status-Copies = record {
    copied = λ h s v d. gives_then _ (copy_conditions_lem h s.conditions v d) λ q h' d'. gives d';
  }

  pub copy_lan-Copies : Copies LanStands (copy_lan mc)
  unfolding copy_lan
  copy_lan-Copies = record {
    copied = λ h l v d.
        gives_then _ (laws.object_copies.copied h l.object_meta v.object_meta d.object_meta)
          λ o h₁ (d₁, x).
            gives_then _
              (copy_spec-Copies.copied h₁ l.spec v.spec (later spec-Framed (omega arith) x d.spec))
              λ s h₂ (d₂, y).
                let xy = Extends-trans x y in
                gives_then _
                  (copy_status-Copies.copied h₂ l.status v.status
                    (later {D = StatusStands} status-Framed (omega arith) xy d.status))
                  λ t h₃ (d₃, z).
                    let up₁ = x.grows in
                    let up₂ = xy.grows in
                    gives (
                      record {
                        api_version = d.api_version;
                        kind = d.kind;
                        object_meta = later laws.object_framed (omega arith) (Extends-trans y z) d₁;
                        spec = later spec-Framed up₁ z d₂;
                        status = later {D = StatusStands} status-Framed up₂ (Extends-refl h₃) d₃;
                      },
                      Extends-trans xy z,
                    );
  }

  copy_items_lem :
      (h : Store (Cell m)) (r : Option Ptr)
      (v : Option (List (LanValue laws.ObjectValue laws.ConditionValue)))
      → Slice LanStands items_cell h 0 h.next r v
      → Gives (Fresh (Slice LanStands items_cell) h v) (copy_items mc r h)
  unfolding copy_items new_items
  copy_items_lem h none none Slice.nil = gives (Slice.nil, Extends-refl h)
  copy_items_lem h none (some vs) d = elim d [ ]
  copy_items_lem h (some p) none d = elim d [ ]
  copy_items_lem h (some p) (some vs) (Slice.at {rs = rs} above below e ds) = rw (load_lem h p e) (
      gives_then _
        (remade lan-Framed items_cell (items_cell (zeros (length rs) (zero_lan m))) (copy_lan mc)
          copy_lan-Copies h rs vs ds)
        λ q h' d. gives d)

  pub copy_lan_list-Copies : Copies ListStands (copy_lan_list mc)
  unfolding copy_lan_list
  copy_lan_list-Copies = record {
    copied = λ h l v d.
        gives_then _ (laws.list_copies.copied h l.list_meta v.list_meta d.list_meta) λ o h₁ (d₁, x).
          gives_then _
            (copy_items_lem h₁ l.items v.items
              (later (Slice-Framed lan-Framed items_cell) (omega arith) x d.items))
            λ items h₂ (d₂, y).
              let up = x.grows in
              gives (
                record {
                  api_version = d.api_version;
                  kind = d.kind;
                  list_meta = later laws.list_framed (omega arith) y d₁;
                  items = later (Slice-Framed lan-Framed items_cell) up (Extends-refl h₂) d₂;
                },
                Extends-trans x y,
              );
  }
