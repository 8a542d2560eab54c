-- ===== src/Base/Preserves.antt =====
-- Actions that keep what holds of the state, whatever their outcome.
use mathlib.Core.Path.{◌≡◌, refl}
use mathlib.Core.Option.{Option, none, some}
use k8slan.Base.Results.{Result, ok, err, panic}
use k8slan.Base.Text.{Text}
use k8slan.Base.Io.{Io, Error, ◌>>=◌, then_run, wrapping, printing, attempt, deref_io}

module _ {S : Type 0} (P : S → Type 0) where
  pub record Preserves {A : Type 0} (m : Io S A) : Type 0 where
    pub at : (s : S) → P s → P (m s).1

  preserves_run :
      {A B : Type 0} (k : A → Io S B) (r : Result Error A × S)
      → P r.1
      → ((a : A) → Preserves (k a))
      → P (then_run k r).1
  preserves_run k (ok a, u) h next = (next a).at u h
  preserves_run k (err e, u) h next = h
  preserves_run k (panic, u) h next = h

  pub Preserves-bind :
      {A B : Type 0} (m : Io S A) (k : A → Io S B)
      → Preserves m
      → ((a : A) → Preserves (k a))
      → Preserves (◌>>=◌ m k)
  Preserves-bind m k h next = record { at = λ s p. preserves_run k (m s) (h.at s p) next }

  pub Preserves-pure : {A : Type 0} (r : Result Error A) → Preserves (λ s. (r, s))
  Preserves-pure r = record { at = λ s p. p }

  pub Preserves-deref :
      {A B : Type 0} (o : Option A) (k : A → Io S B)
      → ((a : A) → o ≡ some a → Preserves (k a))
      → Preserves (◌>>=◌ (deref_io o) k)
  Preserves-deref none k h = record { at = λ s p. p }
  Preserves-deref (some a) k h = record { at = (h a refl).at }

  module _ {A : Type 0} (m : Io S A) (h : Preserves m) where
    pub Preserves-wrapping : (text : Text) → Preserves (wrapping text m)
    Preserves-wrapping text = record { at = h.at }

    pub Preserves-printing : (text : Text) → Preserves (printing text m)
    Preserves-printing text = record { at = h.at }

    pub Preserves-attempt : Preserves (attempt m)
    Preserves-attempt = record { at = h.at }
