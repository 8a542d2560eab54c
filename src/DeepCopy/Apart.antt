-- ===== src/DeepCopy/Apart.antt =====
-- A copy and its original: the same contents, and nothing shared.
use mathlib.Core.List.{Memᴰ}
use k8slan.Base.{
  ◌≡◌, refl, ◌∙◌, ◌≤◌, ◌<◌, ◌⊎◌, inl, inr, Option, none, some, List, [], ◌∷◌, ◌++◌, All, All-Mem,
  All-append, arith,
}
use k8slan.Lan.{LanSpec}
use k8slan.DeepCopy.Store.{
  Ptr, Store, Cmd, written, written_other, gives, gives_then, gives_result, gives_at,
}
use k8slan.DeepCopy.Laws.{Stands, Framed, Fresh, Copies, Agree, Points}
use k8slan.DeepCopy.Spec.{SpecStands, spec-Framed, copy_spec-Copies}
use k8slan.DeepCopy.Objects.{
  MetaLaws, LanStands, LanValue, ListStands, LanListValue, lan-Framed, list-Framed, copy_lan-Copies,
  copy_lan_list-Copies,
}
use k8slan.DeepCopy.Types.{Meta, Cell, SpecRef, LanRef, LanListRef}
use k8slan.DeepCopy.{
  MetaCopy, copy_spec, copy_lan, copy_lan_list, deep_copy, deep_copy_object, deep_copy_spec,
  deep_copy_lan_object, deep_copy_lan_list_object,
}

module _ {m : Meta} {R V : Type 0} {D : Stands (Cell m) R V} (f : Framed D)
    (copy : R → Cmd (Cell m) R) (c : Copies D copy) where
  object_copied :
      (h : Store (Cell m)) (r : R) (v : V)
      → D h 0 h.next r v
      → (r' : R) × (h' : Store (Cell m)) × (deep_copy_object copy (some r) h ≡ some (some r', h'))
        × D h' h.next h'.next r' v
        × D h' 0 h.next r v
  unfolding deep_copy_object deep_copy
  object_copied h r v d =
      let (r', h', e, (d', x)) = gives_result (c.copied h r v d) in
      (
        r',
        h',
        rw e refl,
        d',
        f.carry (omega arith) (omega arith) (λ p above below. x.same p below) d,
      )

  abbrev FreshCopy : Store (Cell m) → V → Option R → Store (Cell m) → Type 0
  FreshCopy h v none h' = ⊥
  FreshCopy h v (some r') h' = Fresh D h v r' h'

  copied_at :
      (h h' : Store (Cell m)) (r r' : R) (v : V)
      → D h 0 h.next r v
      → deep_copy copy (some r) h ≡ some (some r', h')
      → Fresh D h v r' h'
  unfolding deep_copy
  copied_at h h' r r' v d e =
      gives_at {P = FreshCopy h v} (gives_then _ (c.copied h r v d) λ out g p. gives p) e

-- Over structs of `metav1` whose own copies are right: `DeepCopyObject` of a list of LANs ends
-- without following a bad pointer, and gives a list that stands for the same items, specs and
-- conditions by cells that were not in use, while the original stands for them as before.
pub deep_copy_object-ListStands :
    {m : Meta} {mc : MetaCopy m} (laws : MetaLaws m mc) (h : Store (Cell m)) (l : LanListRef m)
    (v : LanListValue laws.ListValue laws.ObjectValue laws.ConditionValue)
    → ListStands laws h 0 h.next l v
    → (l' : LanListRef m) × (h' : Store (Cell m)) × (deep_copy_lan_list_object mc (some l) h
        ≡ some (some l', h'))
      × ListStands laws h' h.next h'.next l' v
      × ListStands laws h' 0 h.next l v
deep_copy_object-ListStands {mc} laws h l v d =
    object_copied (list-Framed laws) (copy_lan_list mc) (copy_lan_list-Copies laws) h l v d

-- `DeepCopyObject` of a LAN gives a copy that stands for the same by cells that were not in use, and
-- the original stands for it as before.
pub deep_copy_object-LanStands :
    {m : Meta} {mc : MetaCopy m} (laws : MetaLaws m mc) (h : Store (Cell m)) (l : LanRef m)
    (v : LanValue laws.ObjectValue laws.ConditionValue)
    → LanStands laws h 0 h.next l v
    → (l' : LanRef m) × (h' : Store (Cell m)) × (deep_copy_lan_object mc (some l) h
        ≡ some (some l', h'))
      × LanStands laws h' h.next h'.next l' v
      × LanStands laws h' 0 h.next l v
deep_copy_object-LanStands {mc} laws h l v d =
    object_copied (lan-Framed laws) (copy_lan mc) (copy_lan-Copies laws) h l v d

abbrev pub pointer : Option Ptr → List Ptr
pointer none = []
pointer (some p) = p ∷ []

-- The cells that a spec refers to.
abbrev pub pointers : SpecRef → List Ptr
pointers s =
    pointer s.ns
    ++ (pointer s.bridge_name
        ++ (pointer s.vxlan_name
            ++ (pointer s.vni
                ++ (pointer s.vxlan_grp
                    ++ (pointer s.vx_dev_map ++ (pointer s.vx_port ++ pointer s.spoke_list))))))

abbrev Within : Ptr → Ptr → Ptr → Type 0
Within lo hi p = (lo ≤ p) × (p < hi)

module _ {m : Meta} where
  abbrev pub write_all : List (Ptr × Cell m) → Store (Cell m) → Store (Cell m)
  write_all [] h = h
  write_all ((p, c) ∷ ws) h = write_all ws (written h p c)

  pointer-Within :
      {A : Type 0} {P : A → Type 0} {mk : A → Cell m} {h : Store (Cell m)} {lo hi : Ptr}
      {r : Option Ptr} {v : Option A}
      → Points P mk h lo hi r v
      → All (Within lo hi) (pointer r)
  pointer-Within Points.nil = tt
  pointer-Within (Points.at above below pa e) = ((above, below), tt)

  pointers-Within :
      {h : Store (Cell m)} {lo hi : Ptr} {s : SpecRef} {v : LanSpec}
      → SpecStands h lo hi s v
      → All (Within lo hi) (pointers s)
  pointers-Within {lo} {hi} {s} d =
      let join = All-append (Within lo hi) in
      join (pointer s.ns) _ (pointer-Within d.ns) (
        join (pointer s.bridge_name) _ (pointer-Within d.bridge_name) (
          join (pointer s.vxlan_name) _ (pointer-Within d.vxlan_name) (
            join (pointer s.vni) _ (pointer-Within d.vni) (
              join (pointer s.vxlan_grp) _ (pointer-Within d.vxlan_grp) (
                join (pointer s.vx_dev_map) _ (pointer-Within d.vx_dev_map) (
                  join (pointer s.vx_port) _ (pointer-Within d.vx_port)
                    (pointer-Within d.spoke_list)))))))

  -- Writes outside a range leave it as it was.
  write_all-Agree :
      (lo hi : Ptr) (ws : List (Ptr × Cell m)) (h : Store (Cell m))
      → All (λ w. (w.0 < lo) ⊎ (hi ≤ w.0)) ws
      → Agree lo hi h (write_all ws h)
  write_all-Agree lo hi [] h out p above below = refl
  write_all-Agree lo hi ((q, c) ∷ ws) h (o, out) p above below =
      write_all-Agree lo hi ws (written h q c) out p above below
      ∙ written_other h q c p (λ e. elim o [
        | inl less ↦ absurd (omega (arith, less, e, above))
        | inr more ↦ absurd (omega (arith, more, e, below))
      ])

  outside_below :
      (lo hi : Ptr) (ps : List Ptr) (ws : List (Ptr × Cell m))
      → All (Within 0 lo) ps
      → All (λ w. Memᴰ w.0 ps) ws
      → All (λ w. (w.0 < lo) ⊎ (hi ≤ w.0)) ws
  outside_below lo hi ps [] within ms = tt
  outside_below lo hi ps (w ∷ ws) within (here, ms) =
      (inl (All-Mem (Within 0 lo) ps w.0 within here).1, outside_below lo hi ps ws within ms)

  outside_above :
      (lo hi top : Ptr) (ps : List Ptr) (ws : List (Ptr × Cell m))
      → All (Within hi top) ps
      → All (λ w. Memᴰ w.0 ps) ws
      → All (λ w. (w.0 < lo) ⊎ (hi ≤ w.0)) ws
  outside_above lo hi top ps [] within ms = tt
  outside_above lo hi top ps (w ∷ ws) within (here, ms) =
      (inr (All-Mem (Within hi top) ps w.0 within here).0, outside_above lo hi top ps ws within ms)

  -- Whatever is written later through the references of a spec is not seen through the copy that
  -- `DeepCopy` gave of it, and what is written through those of the copy is not seen through the
  -- original: each still stands for the spec that was copied.
  pub deep_copy_spec_apart :
      (h h' : Store (Cell m)) (s s' : SpecRef) (v : LanSpec) (ws ws' : List (Ptr × Cell m))
      → SpecStands h 0 h.next s v
      → deep_copy_spec (some s) h ≡ some (some s', h')
      → All (λ w. Memᴰ w.0 (pointers s)) ws
      → All (λ w. Memᴰ w.0 (pointers s')) ws'
      → SpecStands (write_all ws h') h.next h'.next s' v
        × SpecStands (write_all ws' h') 0 h.next s v
  deep_copy_spec_apart h h' s s' v ws ws' d e through through' =
      let (copied, x) = copied_at spec-Framed copy_spec copy_spec-Copies h h' s s' v d e in
      let kept : SpecStands h' 0 h.next s v =
        spec-Framed.carry {h = h} (omega arith) (omega arith) (λ p above below. x.same p below) d in
      (
        spec-Framed.carry {h = h'} (omega arith) (omega arith)
            (write_all-Agree h.next h'.next ws h'
              (outside_below h.next h'.next (pointers s) ws (pointers-Within d) through))
            copied,
        spec-Framed.carry {h = h'} (omega arith) (omega arith)
            (write_all-Agree 0 h.next ws' h'
              (outside_above 0 h.next h'.next (pointers s') ws' (pointers-Within copied) through'))
            kept,
      )
