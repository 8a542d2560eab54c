-- ===== src/DeepCopy/Fields.antt =====
-- The copies of pointers, maps and slices give new cells with the same content.
use mathlib.Core.List.{append_assoc, append-nil}
use k8slan.Base.{
  ◌++◌, list_eq, nat_eq, ◌≡◌, refl, sym, ap, ◌∙◌, Option, none, some, List, [], ◌∷◌, arith, length,
}
use k8slan.Base.Text.{Text}
use k8slan.Base.Dict
use k8slan.Base.Dict.{Dict, DistinctKeys}
use k8slan.DeepCopy.Store.{
  Ptr, Store, pure, store, with_new, written, alloc_lem, new-Extends, new_cell, load_lem, store_lem,
  written_cell, written_other, Extends-refl, Gives, gives,
}
use k8slan.DeepCopy.Laws.{Fresh, Copies, Points}
use k8slan.DeepCopy.Types.{Meta, Cell, map_cell, strings_cell}
use k8slan.DeepCopy.{
  copy_entries, copy_slice, zeros, copy_pointer, new_map, copy_map, new_strings, copy_strings,
}

-- No key of the first map is in the second.
abbrev Unseen : Dict Text Text → Dict Text Text → Type 0
Unseen [] out = Unit
Unseen ((k, v) ∷ d) out = (Dict.lookup k out ≡ none) × Unseen d out

Unseen-start : (d : Dict Text Text) → Unseen d []
unfolding Dict.lookup
Unseen-start [] = tt
Unseen-start ((k, v) ∷ d) = (refl, Unseen-start d)

Unseen-more :
    (d out : Dict Text Text) (k v : Text)
    → Unseen d out
    → Dict.lookup k d ≡ none
    → Unseen d (Dict.insert k v out)
unfolding Dict.lookup
Unseen-more [] out k v u e = tt
Unseen-more ((j, w) ∷ d) out k v (h, u) e =
    (ground (arith, Dict.lookup-insert j k v out), Unseen-more d out k v u (ground arith))

insert_end :
    (k v : Text) (out : Dict Text Text)
    → Dict.lookup k out ≡ none
    → Dict.insert k v out ≡ out ++ ((k, v) ∷ [])
unfolding Dict.lookup Dict.insert
insert_end k v [] e = refl
insert_end k v ((j, w) ∷ out) e = ground (arith, insert_end k v out)

copy_entries-append :
    (d out : Dict Text Text) → DistinctKeys d → Unseen d out → copy_entries d out ≡ out ++ d
unfolding copy_entries
copy_entries-append [] out keys u = sym (append-nil out)
copy_entries-append ((k, v) ∷ d) out (fresh, keys) (h, u) =
    copy_entries-append d (Dict.insert k v out) keys (Unseen-more d out k v u fresh)
    ∙ ap (λ o. o ++ d) (insert_end k v out h)
    ∙ append_assoc out ((k, v) ∷ []) d

-- A map is copied as it is.
copy_entries_lem : (d : Dict Text Text) → DistinctKeys d → copy_entries d [] ≡ d
copy_entries_lem d keys = copy_entries-append d [] keys (Unseen-start d)

copy_slice-zeros : {A : Type 0} (xs : List A) (z : A) → copy_slice (zeros (length xs) z) xs ≡ xs
unfolding copy_slice zeros
copy_slice-zeros [] z = refl
copy_slice-zeros (x ∷ xs) z = ap (λ ys. x ∷ ys) (copy_slice-zeros xs z)

module _ {C : Type 0} {A : Type 0} (P : A → Type 0) (mk : A → C) where
  -- A cell made with one content and given another, with nothing else done in between.
  pub filled :
      (h : Store C) (z : C) (a : A)
      → P a
      → Gives
          (Fresh (Points P mk) h (some a))
          (some (some h.next, written (with_new h z) h.next (mk a)))
  filled h z a pa = gives (
    Points.at (omega arith) (omega arith) pa (written_cell (with_new h z) h.next (mk a)),
    record {
      grows = omega arith;
      same = λ p below.
          written_other (with_new h z) h.next (mk a) p (omega arith)
          ∙ (new-Extends h z).same p below;
    },
  )

-- What is stored in a cell that has just been made.
store_new :
    {C : Type 0} (h : Store C) (z c : C)
    → store h.next c (with_new h z) ≡ some (tt, written (with_new h z) h.next c)
store_new h z c = store_lem (with_new h z) h.next c (new_cell h z)

module _ {C : Type 0} {A : Type 0} (P : A → Type 0) (mk : A → C) where
  pub copied_nil : (h : Store C) → Gives (Fresh (Points P mk) h none) (pure none h)
  copied_nil h = gives (Points.nil, Extends-refl h)

module _ {m : Meta} where
  pub copy_pointer-Copies :
      {A : Type 0} (mk : A → Cell m) (z : Cell m) → Copies (Points (λ a. Unit) mk) (copy_pointer z)
  unfolding copy_pointer
  copy_pointer-Copies {A} mk z = record { copied = go }
    where
      go :
          (h : Store (Cell m)) (r : Option Ptr) (v : Option A)
          → Points (λ a. Unit) mk h 0 h.next r v
          → Gives (Fresh (Points (λ a. Unit) mk) h v) (copy_pointer z r h)
      go h none none Points.nil = copied_nil (λ a. Unit) mk h
      go h none (some a) d = elim d [ ]
      go h (some p) none d = elim d [ ]
      go h (some p) (some a) (Points.at above below pa e) =
          rw
            (
              alloc_lem h z,
              load_lem (with_new h z) p ((new-Extends h z).same p below ∙ e),
              store_new h z (mk a),
            )
            (filled (λ a. Unit) mk h z a tt)

  pub copy_map-Copies : Copies (Points DistinctKeys map_cell) (copy_map {m = m})
  unfolding copy_map new_map
  copy_map-Copies = record { copied = go }
    where
      go :
          (h : Store (Cell m)) (r : Option Ptr) (v : Option (Dict Text Text))
          → Points DistinctKeys map_cell h 0 h.next r v
          → Gives (Fresh (Points DistinctKeys map_cell) h v) (copy_map r h)
      go h none none Points.nil = copied_nil DistinctKeys map_cell h
      go h none (some a) d = elim d [ ]
      go h (some p) none d = elim d [ ]
      go h (some p) (some d) (Points.at above below keys e) =
          rw
            (
              load_lem h p e,
              copy_entries_lem d keys,
              alloc_lem h (map_cell []),
              store_new h (map_cell []) (map_cell d),
            )
            (filled DistinctKeys map_cell h (map_cell []) d keys)

  pub copy_strings-Copies : Copies (Points (λ xs. Unit) strings_cell) (copy_strings {m = m})
  unfolding copy_strings new_strings
  copy_strings-Copies = record { copied = go }
    where
      go :
          (h : Store (Cell m)) (r : Option Ptr) (v : Option (List Text))
          → Points (λ xs. Unit) strings_cell h 0 h.next r v
          → Gives (Fresh (Points (λ xs. Unit) strings_cell) h v) (copy_strings r h)
      go h none none Points.nil = copied_nil (λ xs. Unit) strings_cell h
      go h none (some a) d = elim d [ ]
      go h (some p) none d = elim d [ ]
      go h (some p) (some xs) (Points.at above below t e) =
          rw
            (
              load_lem h p e,
              copy_slice-zeros xs [],
              alloc_lem h (strings_cell (zeros (length xs) [])),
              store_new h (strings_cell (zeros (length xs) [])) (strings_cell xs),
            )
            (filled (λ xs. Unit) strings_cell h (strings_cell (zeros (length xs) [])) xs tt)
