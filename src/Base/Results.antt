-- ===== src/Base/Results.antt =====
-- What a Go function gives: a value, an `error`, or a run-time panic (a nil pointer followed).
use mathlib.Core.Path.{◌≡◌, refl}
use mathlib.Core.Logic.{◌↔◌, ◌⊎◌, inl, inr}
use mathlib.Core.Bool.{Bool, true, false}
use mathlib.Core.Option.{Option, none, some}

pub data Result {ℓ κ} (E : Type ℓ) (A : Type κ) : Type (ℓ ⊔ κ) where
  ok : A → Result E A
  err : E → Result E A
  panic : Result E A

module _ {ℓ} {E : Type ℓ} where
  infixl 5 ◌>>=◌ ◌>>◌
  abbrev pub ◌>>=◌ {κ μ} : {A : Type κ} {B : Type μ} → Result E A → (A → Result E B) → Result E B
  ok a >>= f = f a
  err e >>= f = err e
  panic >>= f = panic

  abbrev pub ◌>>◌ {κ} : {B : Type κ} → Result E (Unit {0}) → Result E B → Result E B
  m >> k = m >>= λ _. k

  -- `if test { return e }`
  abbrev pub fail_if : Bool → E → Result E (Unit {0})
  fail_if true e = err e
  fail_if false e = ok tt

  -- `*p`
  abbrev pub deref {κ} : {A : Type κ} → Option A → Result E A
  deref (some a) = ok a
  deref none = panic

  -- What two steps that succeeded have met, and what failed where they did not.
  pub seq_ok {κ} :
      {B : Type κ} (m : Result E (Unit {0})) (k : Result E B) {b : B}
      → (m >> k) ≡ ok b
      → (m ≡ ok tt) × (k ≡ ok b)
  seq_ok (ok u) k h = (refl, h)
  seq_ok (err e) k h = cc
  seq_ok panic k h = cc

  pub seq_err {κ} :
      {B : Type κ} (m : Result E (Unit {0})) (k : Result E B) {e : E}
      → (m >> k) ≡ err e
      → (m ≡ err e) ⊎ ((m ≡ ok tt) × (k ≡ err e))
  seq_err (ok u) k h = inr (refl, h)
  seq_err (err e) k h = inl (cc)
  seq_err panic k h = cc

  pub seq_panic {κ} :
      {B : Type κ} (m : Result E (Unit {0})) (k : Result E B)
      → (m >> k) ≡ panic
      → (m ≡ panic) ⊎ ((m ≡ ok tt) × (k ≡ panic))
  seq_panic (ok u) k h = inr (refl, h)
  seq_panic (err e) k h = cc
  seq_panic panic k h = inl refl

  pub seq_panic_iff {κ μ ν ξ} :
      {B : Type κ} {P : Type μ} {Q : Type ν} {R : Type ξ} (m : Result E (Unit {0})) (k : Result E B)
      → ((m ≡ panic) ↔ P)
      → ((m ≡ ok tt) ↔ Q)
      → ((k ≡ panic) ↔ R)
      → ((m >> k) ≡ panic) ↔ (P ⊎ (Q × R))
  seq_panic_iff m k p q r = (
    λ h. elim (seq_panic m k h) [
      | inl here ↦ inl (p.0 here)
      | inr (done, later) ↦ inr (q.0 done, r.0 later)
    ],
    elim [ inl x ↦ rw (p.1 x) | inr (y, z) ↦ rw (q.1 y) (r.1 z) ],
  )
