-- ===== src/Base/FilePath/Laws.antt =====
-- Joined paths: a plain name stays below the directory.
use mathlib.Core.Path.{◌≡◌, refl}
use mathlib.Core.Logic.{◌≢◌}
use mathlib.Core.Bool.{false}
use mathlib.Core.List.{[], ◌∷◌, ◌++◌}
use native.Mathlib.Omega.{arith}
use k8slan.Base.Equality.{==_ne, nat_eq, list_eq}
use k8slan.Base.Lists.{contains}
use k8slan.Base.Text.{Text, bytes}
use k8slan.Base.FilePath.{elements_of, clean, join}

-- One element of a path, and not one that stands for another directory.
pub record IsPlain (name : Text) : Type 0 where
  pub no_slash : contains name b'/' ≡ false
  pub named : name ≢ []
  pub not_dot : name ≢ bytes "."
  pub not_dots : name ≢ bytes ".."

elements_of-plain : (name : Text) → contains name b'/' ≡ false → elements_of name ≡ name ∷ []
unfolding elements_of
elements_of-plain [] h = refl
elements_of-plain (c ∷ s) h =
    let rest : contains s b'/' ≡ false = ground arith in
    rw (elements_of-plain s rest) (ground arith)

module _ (name : Text) (plain : IsPlain name) where
  open plain use {no_slash, named, not_dot, not_dots}

  -- A plain name is the last element of the path.
  pub join_netns : join (bytes "/var/run/netns") name ≡ bytes "/var/run/netns/" ++ name
  unfolding join clean elements_of
  join_netns =
      rw
        (
          elements_of-plain name no_slash,
          ==_ne name [] named,
          ==_ne name (bytes ".") not_dot,
          ==_ne name (bytes "..") not_dots,
        )
        refl

  -- Two dots lead out of the directory.
  pub join_netns_up :
      join (bytes "/var/run/netns") (bytes "../" ++ name) ≡ bytes "/var/run/" ++ name
  unfolding join clean elements_of
  join_netns_up =
      rw
        (
          elements_of-plain name no_slash,
          ==_ne name [] named,
          ==_ne name (bytes ".") not_dot,
          ==_ne name (bytes "..") not_dots,
        )
        refl
