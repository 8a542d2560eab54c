-- ===== src/Tests/Copies.antt =====
-- The README's LAN in a store, and its deep copies.
use mathlib.Core.List.{Memᴰ}
use k8slan.Base.{ℕ, ◌+◌, ◌≡◌, refl, none, some, List, [], ◌∷◌, All, arith, nat_eq, list_eq}
use k8slan.Base.Int.{pos}
use k8slan.Base.Text.{Text, bytes}
use k8slan.Base.Dict
use k8slan.Lan.{default_vx_port, default_vx_grp}
use k8slan.DeepCopy.Store.{Ptr, Store, pure, Extends-refl, load, alloc, store, gives}
use k8slan.DeepCopy.Laws.{Stands, Framed, Copies, Points, done, next, Slice}
use k8slan.DeepCopy.Spec.{SpecStands}
use k8slan.DeepCopy.Objects.{MetaLaws, ListStands, LanValue, LanListValue}
use k8slan.DeepCopy.Apart.{deep_copy_object-ListStands, write_all, pointers, deep_copy_spec_apart}
use k8slan.DeepCopy.Types.{
  Meta, Cell, string_cell, int_cell, map_cell, strings_cell, items_cell, SpecRef, LanRef,
  LanListRef,
}
use k8slan.DeepCopy.{
  MetaCopy, copy_spec, deep_copy, deep_copy_spec, deep_copy_lan_list_object, copy_pointer, copy_map,
  copy_strings, copy_entries, copy_slice, zeros,
}
use k8slan.Tests.Data.{worker, srl, lan_example}

-- Metadata that is a text
abbrev plain : Meta
plain = record {
  ObjectMeta = Text;
  ListMeta = Text;
  Condition = Text;
  Foreign = Unit;
  zero_object_meta = [];
  zero_condition = [];
}

abbrev plain_copy : MetaCopy plain
plain_copy = record { copy_object_meta = pure; copy_list_meta = pure; copy_condition = pure }

abbrev Same : Stands (Cell plain) Text Text
Same h lo hi r v = r ≡ v

same-Framed : Framed Same
same-Framed = record { carry = λ {h} {g} {lo} {hi} {lo'} {hi'} {r} {v} low up same d. d }

same-Copies : Copies Same pure
same-Copies = record { copied = λ h r v d. gives (d, Extends-refl h) }

abbrev plain_laws : MetaLaws plain plain_copy
plain_laws = record {
  ObjectValue = Text;
  ListValue = Text;
  ConditionValue = Text;
  ObjectStands = Same;
  ListStands = Same;
  ConditionStands = Same;
  object_framed = same-Framed;
  list_framed = same-Framed;
  condition_framed = same-Framed;
  object_copies = same-Copies;
  list_copies = same-Copies;
  condition_copies = same-Copies;
}

-- The references of the spec, to cells from `n` on.
abbrev spec_at : ℕ → SpecRef
spec_at n = record {
  ns = some n;
  bridge_name = some (n + 1);
  vxlan_name = some (n + 2);
  vni = some (n + 3);
  vxlan_grp = some (n + 4);
  default_vx_dev = bytes "eth0";
  vx_dev_map = some (n + 5);
  vx_port = some (n + 6);
  spoke_list = some (n + 7);
}

abbrev lan_ref : LanRef plain
lan_ref = record {
  api_version = bytes "lan.k8slan.io/v1beta1";
  kind = bytes "LAN";
  object_meta = bytes "lan-example";
  spec = spec_at 0;
  status = record { conditions = none };
}

abbrev cells : Dict.Dict ℕ (Cell plain)
cells =
    (0, string_cell (bytes "knlvrf"))
    ∷ (1, string_cell (bytes "br2"))
    ∷ (2, string_cell (bytes "vx2"))
    ∷ (3, int_cell (pos 222))
    ∷ (4, string_cell default_vx_grp)
    ∷ (5, map_cell ((worker, bytes "eth1") ∷ (bytes "worker2", bytes "eth2") ∷ []))
    ∷ (6, int_cell default_vx_port)
    ∷ (7, strings_cell (srl ∷ bytes "vm" ∷ []))
    ∷ (8, items_cell (lan_ref ∷ []))
    ∷ []

abbrev memory : Store (Cell plain)
memory = record { next = 9; cell = λ p. Dict.lookup p cells }

memory-SpecStands : SpecStands memory 0 9 (spec_at 0) lan_example
unfolding Dict.lookup nat_eq list_eq
memory-SpecStands = record {
  ns = Points.at (omega arith) (omega arith) tt refl;
  bridge_name = Points.at (omega arith) (omega arith) tt refl;
  vxlan_name = Points.at (omega arith) (omega arith) tt refl;
  vni = Points.at (omega arith) (omega arith) tt refl;
  vxlan_grp = Points.at (omega arith) (omega arith) tt refl;
  vx_dev_map = Points.at (omega arith) (omega arith) (refl, (refl, tt)) refl;
  vx_port = Points.at (omega arith) (omega arith) tt refl;
  spoke_list = Points.at (omega arith) (omega arith) tt refl;
  default_vx_dev = refl;
}

abbrev lan_value : LanValue Text Text
lan_value = record {
  api_version = bytes "lan.k8slan.io/v1beta1";
  kind = bytes "LAN";
  object_meta = bytes "lan-example";
  spec = lan_example;
  status = none;
}

abbrev list_ref : LanListRef plain
list_ref = record { api_version = []; kind = []; list_meta = bytes "7"; items = some 8 }

abbrev list_value : LanListValue Text Text Text
list_value = record {
  api_version = [];
  kind = [];
  list_meta = bytes "7";
  items = some (lan_value ∷ []);
}

memory-ListStands : ListStands plain_laws memory 0 9 list_ref list_value
unfolding Dict.lookup nat_eq
memory-ListStands = record {
  api_version = refl;
  kind = refl;
  list_meta = refl;
  items = Slice.at (omega arith) (omega arith) refl (
      next
        (record {
          api_version = refl;
          kind = refl;
          object_meta = refl;
          spec = memory-SpecStands;
          status = Slice.nil;
        })
        done);
}

deep_copy_object-ListStands_example :
    (l' : LanListRef plain) × (h' : Store (Cell plain)) × (deep_copy_lan_list_object plain_copy
        (some list_ref)
        memory
      ≡ some (some l', h'))
    × ListStands plain_laws h' 9 h'.next l' list_value
    × ListStands plain_laws h' 0 9 list_ref list_value
deep_copy_object-ListStands_example =
    deep_copy_object-ListStands plain_laws memory list_ref list_value memory-ListStands

-- The store after the copy of the spec
unfoldable copied : Store (Cell plain)
unfolding deep_copy copy_spec copy_pointer copy_map copy_strings load alloc store Dict.lookup nat_eq
    list_eq
copied = elim (deep_copy_spec (some (spec_at 0)) memory) [ none ↦ memory | some (s, h) ↦ h ]

copies : deep_copy_spec (some (spec_at 0)) memory ≡ some (some (spec_at 9), copied)
unfolding copied deep_copy copy_spec copy_pointer copy_map copy_strings load alloc store Dict.lookup
    Dict.insert nat_eq list_eq copy_entries copy_slice zeros
copies = refl

abbrev writes : ℕ → List (Ptr × Cell plain)
writes n = (n, string_cell (bytes "other")) ∷ (n + 7, strings_cell []) ∷ []

written_through : (n : ℕ) → All (λ w. Memᴰ w.0 (pointers (spec_at n))) (writes n)
written_through n = (
  Memᴰ.head refl,
  (
    Memᴰ.tail
        (Memᴰ.tail (Memᴰ.tail (Memᴰ.tail (Memᴰ.tail (Memᴰ.tail (Memᴰ.tail (Memᴰ.head refl))))))),
    tt,
  ),
)

deep_copy_spec_apart_example :
    SpecStands (write_all (writes 0) copied) 9 copied.next (spec_at 9) lan_example
    × SpecStands (write_all (writes 9) copied) 0 9 (spec_at 0) lan_example
deep_copy_spec_apart_example =
    deep_copy_spec_apart memory copied (spec_at 0) (spec_at 9) lan_example (writes 0) (writes 9)
      memory-SpecStands copies (written_through 0) (written_through 9)
