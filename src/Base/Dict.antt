-- ===== src/Base/Dict.antt =====
-- A Go map: an association list in which the first entry of a key counts.
use mathlib.Core.Path.{◌≡◌, refl, sym, ap}
use mathlib.Core.Bool.{Bool, true, ◌&&◌}
use mathlib.Core.Logic.{◌≢◌, inl, inr}
use Prim.Native.Nat.{◌≤◌, ◌<◌}
use mathlib.Core.Option.{Option, none, some}
use mathlib.Core.List.{List, [], ◌∷◌}
use native.Mathlib.Omega.{arith}
use k8slan.Base.Equality.{Eq, ◌==◌, ==_refl, nat_eq, option_eq, Option-cases, if◌then◌else◌}
use k8slan.Base.Lists.{length}

abbrev pub Dict {ℓ κ} : Type ℓ → Type κ → Type (ℓ ⊔ κ)
Dict K V = List (K × V)

-- `for k := range d`
abbrev pub keys {ℓ κ} : {K : Type ℓ} {V : Type κ} → Dict K V → List K
keys [] = []
keys ((k, _) ∷ d) = k ∷ keys d

module _ {ℓ κ} {K : Type ℓ} {V : Type κ} ⦃e : Eq K⦄ where
  -- `v, ok := d[k]`
  unfoldable pub lookup : K → Dict K V → Option V
  lookup k [] = none
  lookup k ((j, v) ∷ d) = if k == j then some v else lookup k d

  -- `d[k] = v`
  unfoldable pub insert : K → V → Dict K V → Dict K V
  insert k v [] = (k, v) ∷ []
  insert k v ((j, w) ∷ d) = if k == j then (k, v) ∷ d else (j, w) ∷ insert k v d

  -- `delete(d, k)`
  unfoldable pub erase : K → Dict K V → Dict K V
  erase k [] = []
  erase k ((j, w) ∷ d) = let rest = erase k d in if k == j then rest else (j, w) ∷ rest

  pub lookup-insert :
      (j k : K) (v : V) (d : Dict K V)
      → lookup j (insert k v d) ≡ (if j == k then some v else lookup j d)
  unfolding lookup insert
  lookup-insert j k v [] = refl
  lookup-insert j k v ((i, w) ∷ d) = ground (arith, lookup-insert j k v d)

  pub lookup-erase :
      (j k : K) (d : Dict K V) → lookup j (erase k d) ≡ (if j == k then none else lookup j d)
  unfolding lookup erase
  lookup-erase j k [] = ground arith
  lookup-erase j k ((i, w) ∷ d) = ground (arith, lookup-erase j k d)

  length-erase-le : (k : K) (d : Dict K V) → length (erase k d) ≤ length d
  unfolding erase
  length-erase-le k [] = omega arith
  length-erase-le k ((j, v) ∷ d) = ground (arith, length-erase-le k d)

  pub length-erase-lt : (k : K) (d : Dict K V) → lookup k d ≢ none → length (erase k d) < length d
  unfolding lookup erase
  length-erase-lt k [] h = absurd (h refl)
  length-erase-lt k ((j, v) ∷ d) h = ground (arith, length-erase-le k d, length-erase-lt k d)

  lookup_behind :
      (d : Dict K V) (j : K) (w : V) (k : K) {v : V}
      → lookup j d ≡ none
      → lookup k d ≡ some v
      → lookup k ((j, w) ∷ d) ≡ some v
  unfolding lookup
  lookup_behind d j w k fresh found = ground (arith, λ (e : k ≡ j). ap (λ i. lookup i d) e)

-- No key has two entries.
abbrev pub DistinctKeys {ℓ κ} : {K : Type ℓ} {V : Type κ} ⦃e : Eq K⦄ → Dict K V → Type κ
DistinctKeys [] = Unit
DistinctKeys ((k, v) ∷ d) = (lookup k d ≡ none) × DistinctKeys d

module _ {ℓ κ} {K : Type ℓ} {V : Type κ} ⦃e : Eq K⦄ ⦃f : Eq V⦄ where
  -- Every entry of the first map is in the second.
  included : Dict K V → Dict K V → Bool
  unfolding option_eq
  included [] d = true
  included ((k, v) ∷ c) d = lookup k d == some v && included c d

  -- `reflect.DeepEqual` on two maps that are not nil
  unfoldable pub dict_equal : Dict K V → Dict K V → Bool
  unfolding included nat_eq
  dict_equal c d = length c == length d && included c d

  included-erase :
      (k : K) (c d : Dict K V)
      → lookup k c ≡ none
      → included c d ≡ true
      → included c (erase k d) ≡ true
  unfolding included lookup
  included-erase k [] d h i = refl
  included-erase k ((j, v) ∷ c) d h i = ground (arith, lookup-erase j k d, included-erase k c d)

  included-lookup :
      (c d : Dict K V) (k : K) {v : V}
      → included c d ≡ true
      → lookup k c ≡ some v
      → lookup k d ≡ some v
  unfolding included lookup
  included-lookup [] d k i h = cc
  included-lookup ((j, w) ∷ c) d k {v} i h = ground (arith, included-lookup c d k {v = v})

  -- No key of the second map is missing in the first.
  included_onto :
      (c d : Dict K V) (k : K)
      → included c d ≡ true
      → DistinctKeys c
      → length d ≤ length c
      → lookup k c ≡ none
      → lookup k d ≡ none
  unfolding included lookup
  included_onto [] [] k i u n h = refl
  included_onto [] (x ∷ d) k i u n h = absurd (omega arith)
  included_onto ((j, w) ∷ c) d k i (fresh, u) n h = ground (
    arith,
    included-erase j c d fresh,
    length-erase-lt j d,
    lookup-erase k j d,
    included_onto c (erase j d) k,
  )

  included_intro :
      (c d : Dict K V)
      → DistinctKeys c
      → ((k : K) (v : V) → lookup k c ≡ some v → lookup k d ≡ some v)
      → included c d ≡ true
  unfolding included lookup
  included_intro [] d u h = refl
  included_intro ((j, w) ∷ c) d (fresh, u) h =
      let head : lookup j d ≡ some w = h j w (rw (==_refl j)) in
      let rest = included_intro c d u (λ k v found. h k v (lookup_behind c j w k fresh found)) in
      rw (head, ==_refl (some w)) rest

  equal_parts :
      (c d : Dict K V) → dict_equal c d ≡ true → (length c ≡ length d) × (included c d ≡ true)
  unfolding dict_equal
  equal_parts c d h = ground arith

  -- Maps that are deeply equal have the same value at every key.
  pub dict_equal-lookup :
      (c d : Dict K V) (k : K) → DistinctKeys c → dict_equal c d ≡ true → lookup k c ≡ lookup k d
  dict_equal-lookup c d k u h =
      let (same, inside) = equal_parts c d h in
      elim (Option-cases (lookup k c)) [
        | inl absent ↦ rw absent (sym (included_onto c d k inside u (omega arith) absent))
        | inr (v, found) ↦ rw found (sym (included-lookup c d k inside found))
      ]

  pub dict_equal_refl : (c : Dict K V) → DistinctKeys c → dict_equal c c ≡ true
  unfolding dict_equal
  dict_equal_refl c u = rw (==_refl (length c)) (included_intro c c u (λ k v found. found))
