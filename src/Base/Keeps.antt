-- ===== src/Base/Keeps.antt =====
-- What actions leave as it is: a view of the state.
use mathlib.Core.Path.{◌≡◌, ◌∙◌}
use k8slan.Base.Results.{Result, ok, err, panic}
use k8slan.Base.Io.{Io, Error, ◌>>=◌, then_run}

module _ {S V : Type 0} (view : S → V) where
  -- Whatever its outcome, the action leaves the view as it is.
  abbrev pub Keeps : {A : Type 0} → Io S A → Type 0
  Keeps m = (s : S) → view (m s).1 ≡ view s

  -- What follows keeps the view of a state `s`, if its beginning does.
  pub keeps_then :
      {A B : Type 0} (k : A → Io S B) (s : S) (r : Result Error A × S)
      → view r.1 ≡ view s
      → ((a : A) → Keeps (k a))
      → view (then_run k r).1 ≡ view s
  keeps_then k s (ok a, u) h keeps = keeps a u ∙ h
  keeps_then k s (err x, u) h keeps = h
  keeps_then k s (panic, u) h keeps = h

  pub keeps_bind :
      {A B : Type 0} (m : Io S A) (k : A → Io S B)
      → Keeps m
      → ((a : A) → Keeps (k a))
      → Keeps (◌>>=◌ m k)
  keeps_bind m k hm hk s = keeps_then k s (m s) (hm s) hk
