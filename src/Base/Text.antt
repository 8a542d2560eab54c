-- ===== src/Base/Text.antt =====
-- Go strings, as the bytes that they hold, and the functions of `strings` that the program calls.
pub mod Laws
use Prim.Native.Nat.{ℕ, zero, suc, ◌-◌}
use Prim.Native.Char.{code}
use Prim.Native.String.{String}
use mathlib.Core.Bool.{Bool, true, false, ◌&&◌, ◌||◌}
use mathlib.Core.List.{List, [], ◌∷◌, ◌++◌}
use k8slan.Base.Equality.{◌==◌, nat_eq, leb, if◌then◌else◌}
use k8slan.Base.Lists.{length}

abbrev pub Text : Type 0
Text = List ℕ

-- The bytes of a literal, all ASCII in this program.
abbrev pub bytes : String → Text
bytes String.[] = []
bytes (String.◌∷◌ c s) = code c ∷ bytes s

-- `strings.HasPrefix(s, prefix)`
unfoldable pub has_prefix : Text → Text → Bool
unfolding nat_eq
has_prefix s [] = true
has_prefix [] (p ∷ ps) = false
has_prefix (c ∷ s) (p ∷ ps) = c == p && has_prefix s ps

-- `strings.Contains(s, sub)`
unfoldable pub contains_text : Text → Text → Bool
unfolding has_prefix
contains_text [] sub = has_prefix [] sub
contains_text (c ∷ s) sub = has_prefix (c ∷ s) sub || contains_text s sub

-- The walk of `strings.ReplaceAll(s, old, new)` for a nonempty `old`: leftmost matches that do not
-- overlap. The first argument counts the bytes of the last match that are still to be passed over.
replace_from : ℕ → Text → Text → Text → Text
unfolding has_prefix
replace_from k [] old new = []
replace_from (suc k) (c ∷ s) old new = replace_from k s old new
replace_from zero (c ∷ s) old new = elim (has_prefix (c ∷ s) old) [
  | true ↦ new ++ replace_from (length old - 1) s old new
  | false ↦ c ∷ replace_from zero s old new
]

unfoldable pub replace_all : Text → Text → Text → Text
unfolding replace_from
replace_all s old new = replace_from 0 s old new

-- The width of the white space (Unicode's White_Space, in UTF-8) that a text begins with, or 0.
unfoldable pub space_width : Text → ℕ
unfolding nat_eq
space_width [] = 0
space_width (a ∷ s) = if a == 0x20 || leb 0x09 a && leb a 0x0d then 1 else two s
  where
    three : ℕ → Text → ℕ
    three b [] = 0
    three b (c ∷ _) =
        if a == 0xe1 && b == 0x9a && c == 0x80
          || a == 0xe2
            && b == 0x80
            && leb 0x80 c
            && (leb c 0x8a || c == 0xa8 || c == 0xa9 || c == 0xaf)
          || a == 0xe2 && b == 0x81 && c == 0x9f
          || a == 0xe3 && b == 0x80 && c == 0x80
        then 3
        else 0

    two : Text → ℕ
    two [] = 0
    two (b ∷ r) = if a == 0xc2 && (b == 0x85 || b == 0xa0) then 2 else three b r

-- The text is white space and nothing else, after some bytes that belong to a space already read.
blank_after : ℕ → Text → Bool
unfolding space_width
blank_after k [] = true
blank_after (suc k) (c ∷ s) = blank_after k s
blank_after zero (c ∷ s) = elim (space_width (c ∷ s)) [ zero ↦ false | suc w ↦ blank_after w s ]

unfoldable pub is_blank : Text → Bool
unfolding blank_after
is_blank s = blank_after 0 s

trim_left : ℕ → Text → Text
unfolding space_width
trim_left k [] = []
trim_left (suc k) (c ∷ s) = trim_left k s
trim_left zero (c ∷ s) = elim (space_width (c ∷ s)) [ zero ↦ c ∷ s | suc w ↦ trim_left w s ]

trim_right : Text → Text
unfolding is_blank
trim_right [] = []
trim_right (c ∷ s) = let rest = trim_right s in if is_blank (c ∷ s) then [] else c ∷ rest

-- `strings.TrimSpace(s)`, of valid UTF-8.
unfoldable pub trim_space : Text → Text
unfolding trim_left trim_right
trim_space s = trim_right (trim_left 0 s)
