-- ===== src/Base/FilePath.antt =====
-- `path.Join(dir, name)` of Go's standard library, for an absolute directory: the elements are
-- joined and the result is cleaned of empty elements, `.` and `..`.
pub mod Laws
use k8slan.Base.Equality.{◌==◌, nat_eq, list_eq, if◌then◌else◌}
use k8slan.Base.Text.{Text, bytes}
use mathlib.Core.Bool.{◌||◌}
use mathlib.Core.List.{List, [], ◌∷◌, ◌++◌}

-- The elements between the slashes.
elements_of : Text → List Text
unfolding nat_eq
elements_of [] = [] ∷ []
elements_of (c ∷ s) = put (elements_of s)
  where
    put : List Text → List Text
    put [] = []
    put (e ∷ es) = if c == b'/' then [] ∷ e ∷ es else (c ∷ e) ∷ es

pop : List Text → List Text
pop [] = []
pop (e ∷ es) = es

-- The elements that are left, the last one first.
walk : List Text → List Text → List Text
unfolding pop nat_eq list_eq
walk done [] = done
walk done (e ∷ es) =
    walk
      (if e == [] || e == bytes "." then done else if e == bytes ".." then pop done else e ∷ done)
      es

-- The path of some elements, given the last one first.
render : List Text → Text
render [] = []
render (e ∷ es) = render es ++ (b'/' ∷ e)

rooted : List Text → Text
unfolding render
rooted [] = bytes "/"
rooted (e ∷ es) = render (e ∷ es)

-- `path.Clean(s)`, of an absolute path
unfoldable pub clean : Text → Text
unfolding elements_of walk rooted
clean s = rooted (walk [] (elements_of s))

unfoldable pub join : Text → Text → Text
unfolding clean
join dir name = clean (dir ++ (b'/' ∷ name))
