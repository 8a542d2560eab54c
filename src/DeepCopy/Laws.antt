-- ===== src/DeepCopy/Laws.antt =====
-- What references stand for in a store, within a range of its cells, and what it is to copy them.
use k8slan.Base.{◌≡◌, ◌≤◌, ◌<◌, Option, none, some, List, [], ◌∷◌, arith, ◌∙◌}
use k8slan.DeepCopy.Store.{Ptr, Store, Cmd, Extends, Gives}

-- The reference stands for the value in the store, by cells from `lo` on and below `hi`.
abbrev pub Stands : Type 0 → Type 0 → Type 0 → Type 1
Stands C R V = Store C → Ptr → Ptr → R → V → Type 0

module _ {C : Type 0} where
  -- The stores have the same cells from `lo` on and below `hi`.
  abbrev pub Agree : Ptr → Ptr → Store C → Store C → Type 0
  Agree lo hi h g = (p : Ptr) → lo ≤ p → p < hi → g.cell p ≡ h.cell p

  -- What a reference stands for hangs on the cells of its range alone.
  pub record Framed {R V : Type 0} (D : Stands C R V) : Type 0 where
    pub carry :
        {h g : Store C} {lo hi lo' hi' : Ptr} {r : R} {v : V}
        → lo' ≤ lo
        → hi ≤ hi'
        → Agree lo hi h g
        → D h lo hi r v
        → D g lo' hi' r v

  -- The copy stands for the same value by cells that were not in use, and no cell that was in use
  -- has changed.
  abbrev pub Fresh : {R V : Type 0} → Stands C R V → Store C → V → R → Store C → Type 0
  Fresh D h v r' h' = D h' h.next h'.next r' v × Extends h h'

  pub record Copies {R V : Type 0} (D : Stands C R V) (copy : R → Cmd C R) : Type 0 where
    pub copied : (h : Store C) (r : R) (v : V) → D h 0 h.next r v → Gives (Fresh D h v) (copy r h)

  module _ {R V : Type 0} {D : Stands C R V} (f : Framed D) where
    -- What stands for a value in a store still does when more is in use.
    pub later :
        {h g : Store C} {lo lo' : Ptr} {r : R} {v : V}
        → lo' ≤ lo
        → Extends h g
        → D h lo h.next r v
        → D g lo' g.next r v
    later low x d = let up = x.grows in f.carry low up (λ p above below. x.same p below) d

  -- A pointer to a cell with such a content, or nil.
  pub data Points {A : Type 0} (P : A → Type 0) (mk : A → C) (h : Store C) (lo hi : Ptr)
      : Option Ptr → Option A → Type 0 where
    nil : Points P mk h lo hi none none
    at :
        {p : Ptr} {a : A}
        → lo ≤ p
        → p < hi
        → P a
        → h.cell p ≡ some (mk a)
        → Points P mk h lo hi (some p) (some a)

  pub Points-Framed : {A : Type 0} (P : A → Type 0) (mk : A → C) → Framed (Points P mk)
  Points-Framed {A} P mk = record {
    carry = λ {h} {g} {lo} {hi} {lo'} {hi'} {r} {v} low up same d. go low up same d;
  }
    where
      go :
          {h g : Store C} {lo hi lo' hi' : Ptr} {r : Option Ptr} {v : Option A}
          → lo' ≤ lo
          → hi ≤ hi'
          → Agree lo hi h g
          → Points P mk h lo hi r v
          → Points P mk g lo' hi' r v
      go low up same nil = nil
      go low up same (at {p} above below pa e) =
          at (omega arith) (omega arith) pa (same p above below ∙ e)

  -- A list of references, each for its value.
  pub data Each {R V : Type 0} (D : Stands C R V) (h : Store C) (lo hi : Ptr)
      : List R → List V → Type 0 where
    done : Each D h lo hi [] []
    next :
        {r : R} {v : V} {rs : List R} {vs : List V}
        → D h lo hi r v
        → Each D h lo hi rs vs
        → Each D h lo hi (r ∷ rs) (v ∷ vs)

  -- A slice of such references.
  pub data Slice {R V : Type 0} (D : Stands C R V) (mk : List R → C) (h : Store C) (lo hi : Ptr)
      : Option Ptr → Option (List V) → Type 0 where
    nil : Slice D mk h lo hi none none
    at :
        {p : Ptr} {rs : List R} {vs : List V}
        → lo ≤ p
        → p < hi
        → h.cell p ≡ some (mk rs)
        → Each D h lo hi rs vs
        → Slice D mk h lo hi (some p) (some vs)

  module _ {R V : Type 0} {D : Stands C R V} (f : Framed D) where
    carry-Each :
        {h g : Store C} {lo hi lo' hi' : Ptr} {rs : List R} {vs : List V}
        → lo' ≤ lo
        → hi ≤ hi'
        → Agree lo hi h g
        → Each D h lo hi rs vs
        → Each D g lo' hi' rs vs
    carry-Each low up same done = done
    carry-Each low up same (next d ds) = next (f.carry low up same d) (carry-Each low up same ds)

    pub Each-Framed : Framed (Each D)
    Each-Framed = record {
      carry = λ {h} {g} {lo} {hi} {lo'} {hi'} {r} {v} low up same d. carry-Each low up same d;
    }

    carry-Slice :
        (mk : List R → C) {h g : Store C} {lo hi lo' hi' : Ptr} {r : Option Ptr}
        {vs : Option (List V)}
        → lo' ≤ lo
        → hi ≤ hi'
        → Agree lo hi h g
        → Slice D mk h lo hi r vs
        → Slice D mk g lo' hi' r vs
    carry-Slice mk low up same nil = nil
    carry-Slice mk low up same (at {p} above below e ds) =
        at (omega arith) (omega arith) (same p above below ∙ e) (carry-Each low up same ds)

    pub Slice-Framed : (mk : List R → C) → Framed (Slice D mk)
    Slice-Framed mk = record {
      carry = λ {h} {g} {lo} {hi} {lo'} {hi'} {r} {v} low up same d. carry-Slice mk low up same d;
    }
