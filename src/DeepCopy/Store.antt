-- ===== src/DeepCopy/Store.antt =====
-- A store of cells, and commands that read and write it. A cell holds what a pointer, a map or a
-- slice of Go refers to.
use mathlib.Core.Path.{◌≡◌, refl, ◌∙◌, subst}
use k8slan.Base.{ℕ, suc, ◌≤◌, ◌<◌, Option, none, some, arith, ◌==◌, nat_eq, if◌then◌else◌, ◌≢◌}

abbrev pub Ptr : Type 0
Ptr = ℕ

-- The cells below `next` have been given out.
pub record Store (C : Type 0) : Type 0 where
  pub next : Ptr
  pub cell : Ptr → Option C

-- A command fails where it follows a pointer to no cell.
abbrev pub Cmd : Type 0 → Type 0 → Type 0
Cmd C A = Store C → Option (A × Store C)

module _ {C : Type 0} where
  abbrev pub pure : {A : Type 0} → A → Cmd C A
  pure a h = some (a, h)

  abbrev pub and_then : {A B : Type 0} → (A → Cmd C B) → Option (A × Store C) → Option (B × Store C)
  and_then k none = none
  and_then k (some (a, h)) = k a h

  infixl 5 ◌>>=◌ ◌>>◌
  abbrev pub ◌>>=◌ : {A B : Type 0} → Cmd C A → (A → Cmd C B) → Cmd C B
  ◌>>=◌ m k h = and_then k (m h)

  abbrev pub ◌>>◌ : {B : Type 0} → Cmd C (Unit {0}) → Cmd C B → Cmd C B
  m >> k = m >>= λ _. k

  abbrev pub update : (Ptr → Option C) → Ptr → C → Ptr → Option C
  update f p c q = if q == p then some c else f q

  -- `*p`
  unfoldable pub load : Ptr → Cmd C C
  load p h = elim (h.cell p) [ none ↦ none | some c ↦ some (c, h) ]

  -- `new` and `make`: a cell that was not in use
  unfoldable pub alloc : C → Cmd C Ptr
  alloc c h = some (h.next, record { next = suc h.next; cell = update h.cell h.next c })

  -- `*p = c`
  unfoldable pub store : Ptr → C → Cmd C (Unit {0})
  store p c h = elim (h.cell p) [
    | none ↦ none
    | some old ↦ some (tt, record h { cell = update h.cell p c })
  ]

  -- Nothing that was in use has changed.
  pub record Extends (h g : Store C) : Type 0 where
    pub grows : h.next ≤ g.next
    pub same : (p : Ptr) → p < h.next → g.cell p ≡ h.cell p

  pub Extends-refl : (h : Store C) → Extends h h
  Extends-refl h = record { grows = omega arith; same = λ p below. refl }

  pub Extends-trans : {h g k : Store C} → Extends h g → Extends g k → Extends h k
  Extends-trans {h} {g} {k} a b =
      let up = a.grows in
      record {
        grows = let up' = b.grows in omega arith;
        same = λ p below. b.same p (omega arith) ∙ a.same p below;
      }

  -- The command ends, and what it gives and leaves is as `P` says.
  pub data Gives {A : Type 0} (P : A → Store C → Type 0) : Option (A × Store C) → Type 0 where
    gives : {a : A} {h : Store C} → P a h → Gives P (some (a, h))

  module _ {A : Type 0} {P : A → Store C → Type 0} where
    pub gives_then :
        {B : Type 0} {Q : B → Store C → Type 0} (k : A → Cmd C B) {r : Option (A × Store C)}
        → Gives P r
        → ((a : A) (h : Store C) → P a h → Gives Q (k a h))
        → Gives Q (and_then k r)
    gives_then k (gives p) next = next _ _ p

    unwrap : {a : A} {h : Store C} → Gives P (some (a, h)) → P a h
    unwrap (gives p) = p

    -- What a command gave that is known to have ended.
    pub gives_at :
        {r : Option (A × Store C)} {a : A} {h : Store C} → Gives P r → r ≡ some (a, h) → P a h
    gives_at g e = unwrap (subst (Gives P) e g)

    pub gives_result :
        {r : Option (A × Store C)} → Gives P r → (a : A) × (h : Store C) × (r ≡ some (a, h)) × P a h
    gives_result (gives {a} {h} p) = (a, h, refl, p)

  -- The store after `alloc`.
  abbrev pub with_new : Store C → C → Store C
  with_new h c = record { next = suc h.next; cell = update h.cell h.next c }

  abbrev pub written : Store C → Ptr → C → Store C
  written h p c = record h { cell = update h.cell p c }

  pub alloc_lem : (h : Store C) (c : C) → alloc c h ≡ some (h.next, with_new h c)
  unfolding alloc
  alloc_lem h c = refl

  pub new-Extends : (h : Store C) (c : C) → Extends h (with_new h c)
  new-Extends h c = record { grows = omega arith; same = λ p below. ground arith }

  pub new_cell : (h : Store C) (c : C) → (with_new h c).cell h.next ≡ some c
  new_cell h c = ground arith

  pub load_lem : (h : Store C) (p : Ptr) {c : C} → h.cell p ≡ some c → load p h ≡ some (c, h)
  unfolding load
  load_lem h p e = rw (e, load) refl

  pub store_lem :
      (h : Store C) (p : Ptr) (c : C) {old : C}
      → h.cell p ≡ some old
      → store p c h ≡ some (tt, written h p c)
  unfolding store
  store_lem h p c e = rw (e, store) refl

  pub written_cell : (h : Store C) (p : Ptr) (c : C) → (written h p c).cell p ≡ some c
  written_cell h p c = ground arith

  pub written_other :
      (h : Store C) (p : Ptr) (c : C) (q : Ptr) → q ≢ p → (written h p c).cell q ≡ h.cell q
  written_other h p c q other = ground arith
