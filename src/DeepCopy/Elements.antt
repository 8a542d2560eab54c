-- ===== src/DeepCopy/Elements.antt =====
-- The copies of slices of structs give a new slice of copies.
use k8slan.Base.{◌≡◌, refl, ◌∙◌, some, List, [], ◌∷◌, arith}
use k8slan.DeepCopy.Store.{
  Ptr, Store, Cmd, pure, ◌>>=◌, ◌>>◌, alloc, store, with_new, alloc_lem, new-Extends, new_cell,
  store_lem, written_cell, written_other, Extends, Extends-refl, Extends-trans, Gives, gives,
  gives_then,
}
use k8slan.DeepCopy.Laws.{
  Stands, Framed, Fresh, Copies, later, Each, done, next, Slice, Each-Framed,
}
use k8slan.DeepCopy.Types.{Meta, Cell}
use k8slan.DeepCopy.{copy_each}

module _ {m : Meta} {R V : Type 0} {D : Stands (Cell m) R V} (f : Framed D) where
  pub copy_each-Copies :
      (copy : R → Cmd (Cell m) R) → Copies D copy → Copies (Each D) (copy_each copy)
  unfolding copy_each
  copy_each-Copies copy c = record { copied = go }
    where
      go :
          (h : Store (Cell m)) (rs : List R) (vs : List V)
          → Each D h 0 h.next rs vs
          → Gives (Fresh (Each D) h vs) (copy_each copy rs h)
      go h [] [] d = gives (done, Extends-refl h)
      go h [] (v ∷ vs) d = elim d [ ]
      go h (r ∷ rs) [] d = elim d [ ]
      go h (r ∷ rs) (v ∷ vs) (next d ds) = gives_then _ (c.copied h r v d) λ r' h₁ (d', x).
          gives_then _ (go h₁ rs vs (later (Each-Framed f) (omega arith) x ds)) λ rs' h₂ (ds', y).
            let up = x.grows in
            gives (
              next (later f (omega arith) y d')
                  ((Each-Framed f).carry up (omega arith) (λ p above below. refl) ds'),
              Extends-trans x y,
            )

  -- A slice made with zero values and filled with copies.
  abbrev pub remake : (List R → Cell m) → Cell m → (R → Cmd (Cell m) R) → List R → Cmd (Cell m) Ptr
  remake mk z copy rs = do q ← alloc z; ys ← copy_each copy rs; store q (mk ys); pure q

  pub remade :
      (mk : List R → Cell m) (z : Cell m) (copy : R → Cmd (Cell m) R)
      → Copies D copy
      → (h : Store (Cell m)) (rs : List R) (vs : List V) → Each D h 0 h.next rs vs
      → Gives
          (λ q h'. Slice D mk h' h.next h'.next (some q) (some vs) × Extends h h')
          (remake mk z copy rs h)
  remade mk z copy c h rs vs ds = rw (alloc_lem h z) (
      gives_then _
        ((copy_each-Copies copy c).copied (with_new h z) rs vs
          (later (Each-Framed f) (omega arith) (new-Extends h z) ds))
        λ ys h₂ (ds', x).
          let up = x.grows in
          let old : h₂.cell h.next ≡ some z = x.same h.next (omega arith) ∙ new_cell h z in
          rw (store_lem h₂ h.next (mk ys) old) (
            gives (
              Slice.at (omega arith) (omega arith) (written_cell h₂ h.next (mk ys)) (
                  (Each-Framed f).carry (omega arith) (omega arith)
                    (λ p above below. written_other h₂ h.next (mk ys) p (omega arith)) ds'),
              record {
                grows = omega arith;
                same = λ p below.
                    written_other h₂ h.next (mk ys) p (omega arith)
                    ∙ (Extends-trans (new-Extends h z) x).same p below;
              },
            )))
