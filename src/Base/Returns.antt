-- ===== src/Base/Returns.antt =====
-- Actions that do not panic, whatever their state: they end with a result or an error.
use mathlib.Core.Path.{◌≡◌, refl, ap, ◌∙◌}
use mathlib.Core.Logic.{◌≢◌}
use mathlib.Core.Option.{Option, some}
use k8slan.Base.Results.{Result, ok, err, panic}
use k8slan.Base.Text.{Text}
use k8slan.Base.Io.{
  Io, Error, ◌>>=◌, then_run, map_error, drop_error, caught, wrapping, printing, ignoring, attempt,
  deferring, deref_io, pure, fail,
}

module _ {S : Type 0} where
  pub record Returns {A : Type 0} (m : Io S A) : Type 0 where
    pub at : (s : S) → (m s).0 ≢ panic

  then_returns :
      {A B : Type 0} (k : A → Io S B) (r : Result Error A × S)
      → r.0 ≢ panic
      → ((a : A) (u : S) → r ≡ (ok a, u) → (k a u).0 ≢ panic)
      → (then_run k r).0 ≢ panic
  then_returns k (ok a, u) h next = next a u refl
  then_returns k (err e, u) h next = λ p. cc
  then_returns k (panic, u) h next = absurd (h refl)

  -- What follows may rest on what was done before.
  pub returns_then :
      {A B : Type 0} (m : Io S A) (k : A → Io S B) (s : S)
      → (m s).0 ≢ panic
      → ((a : A) (u : S) → m s ≡ (ok a, u) → (k a u).0 ≢ panic)
      → (◌>>=◌ m k s).0 ≢ panic
  returns_then m k s h next = then_returns k (m s) h next

  pub returns_bind :
      {A B : Type 0} (m : Io S A) (k : A → Io S B)
      → Returns m
      → ((a : A) → Returns (k a))
      → Returns (◌>>=◌ m k)
  returns_bind m k h next = record {
    at = λ s. returns_then m k s (h.at s) (λ a u e. (next a).at u);
  }

  pub returns_deref :
      {A B : Type 0} {o : Option A} {a : A} (k : A → Io S B)
      → o ≡ some a
      → Returns (k a)
      → Returns (◌>>=◌ (deref_io o) k)
  returns_deref k e h = record { at = λ s. rw e (h.at s) }

map_returns :
    {A : Type 0} (f : Error → Error) (r : Result Error A) → r ≢ panic → map_error f r ≢ panic
map_returns f (ok a) h = λ p. cc
map_returns f (err e) h = λ p. cc
map_returns f panic h = h

drop_returns : (r : Result Error (Unit {0})) → r ≢ panic → drop_error r ≢ panic
drop_returns (ok a) h = λ p. cc
drop_returns (err e) h = λ p. cc
drop_returns panic h = h

caught_returns : {A : Type 0} (r : Result Error A) → r ≢ panic → caught r ≢ panic
caught_returns (ok a) h = λ p. cc
caught_returns (err e) h = λ p. cc
caught_returns panic h = absurd (h refl)

caught_ne_panic : {A : Type 0} (r : Result Error A) → caught r ≢ ok panic
caught_ne_panic (ok a) = λ p. cc
caught_ne_panic (err e) = λ p. cc
caught_ne_panic panic = λ p. cc

module _ {S A : Type 0} (m : Io S A) (h : Returns m) where
  pub returns_wrapping : (text : Text) → Returns (wrapping text m)
  returns_wrapping text = record { at = λ s. map_returns _ (m s).0 (h.at s) }

  pub returns_printing : (text : Text) → Returns (printing text m)
  returns_printing text = record { at = λ s. map_returns _ (m s).0 (h.at s) }

  pub returns_attempt : Returns (attempt m)
  returns_attempt = record { at = λ s. caught_returns (m s).0 (h.at s) }

  pub returns_deferring : (cleanup : Io S (Unit {0})) → Returns (deferring cleanup m)
  returns_deferring cleanup = record { at = h.at }

pub returns_ignoring : {S : Type 0} (m : Io S (Unit {0})) → Returns m → Returns (ignoring m)
returns_ignoring m h = record { at = λ s. drop_returns (m s).0 (h.at s) }

pub returns_pure : {S A : Type 0} (a : A) → Returns {S = S} (pure a)
returns_pure a = record { at = λ s p. cc }

pub returns_fail : {S A : Type 0} (e : Error) → Returns {S = S} {A = A} (fail e)
returns_fail e = record { at = λ s p. cc }

-- What follows a call whose outcome is taken as a value, which is no panic.
pub attempt_then :
    {S A B : Type 0} (m : Io S A) (k : Result Error A → Io S B)
    → Returns m
    → ((r : Result Error A) (s u : S) → r ≢ panic → attempt m s ≡ (ok r, u) → (k r u).0 ≢ panic)
    → Returns (◌>>=◌ (attempt m) k)
attempt_then m k h next = record {
  at = λ s.
      returns_then (attempt m) k s ((returns_attempt m h).at s)
        (λ r u e. next r s u (λ p. caught_ne_panic (m s).0 (ap (λ x. x.0) e ∙ ap ok p)) e);
}
