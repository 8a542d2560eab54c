-- ===== src/Base/Text/Laws.antt =====
-- Prefixes and replacement.
use Prim.Native.Nat.{ℕ, zero, suc, ◌-◌, ◌≤◌, ◌<◌}
use mathlib.Core.Path.{◌≡◌, refl, ap, ◌∙◌}
use mathlib.Core.Bool.{true, false}
use mathlib.Core.Logic.{◌↔◌, ◌≢◌, inl, inr}
use mathlib.Core.List.{[], ◌∷◌, ◌++◌}
use native.Mathlib.Omega.{arith}
use k8slan.Base.Equality.{Bool-cases, nat_eq}
use k8slan.Base.Lists.{length}
use k8slan.Base.Text.{Text, has_prefix, contains_text, replace_from, replace_all}

pub has_prefix-append : (p s : Text) → has_prefix (p ++ s) p ≡ true
unfolding has_prefix
has_prefix-append [] s = refl
has_prefix-append (c ∷ p) s = ground (arith, has_prefix-append p s)

-- Where the text to be replaced does not stand, nothing changes.
replace_all-eq_self : (s old new : Text) → contains_text s old ≡ false → replace_all s old new ≡ s
unfolding contains_text replace_all
replace_all-eq_self [] old new h = refl
replace_all-eq_self (c ∷ s) old new h = ground (arith, replace_all-eq_self s old new)

length-replace_from-le : (k : ℕ) (s old : Text) → length (replace_from k s old []) ≤ length s
unfolding replace_from
length-replace_from-le zero [] old = omega arith
length-replace_from-le (suc k) [] old = omega arith
length-replace_from-le (suc k) (c ∷ s) old = omega (arith, length-replace_from-le k s old)
length-replace_from-le zero (c ∷ s) old =
    ground (arith, length-replace_from-le (length old - 1) s old, length-replace_from-le zero s old)

-- Where it does stand, the text gets shorter.
length-replace_all-lt :
    (s old : Text)
    → length old ≢ 0
    → contains_text s old ≡ true
    → length (replace_all s old []) < length s
unfolding contains_text replace_all
length-replace_all-lt [] [] n h = absurd (n refl)
length-replace_all-lt [] (o ∷ old) n h = cc
length-replace_all-lt (c ∷ s) old n h =
    ground (arith, length-replace_from-le (length old - 1) s old, length-replace_all-lt s old n)

-- Removing a text changes nothing exactly when the text does not occur.
pub replace_all_iff :
    (s old : Text) → length old ≢ 0 → (replace_all s old [] ≡ s) ↔ (contains_text s old ≡ false)
replace_all_iff s old n = (
  λ e. elim (Bool-cases (contains_text s old)) [
    | inl found ↦ absurd (omega (arith, length-replace_all-lt s old n found, ap length e))
    | inr absent ↦ absent
  ],
  replace_all-eq_self s old [],
)

-- A text shorter than another does not hold it.
has_prefix-length : (s p : Text) → has_prefix s p ≡ true → length p ≤ length s
unfolding has_prefix
has_prefix-length s [] h = omega arith
has_prefix-length [] (c ∷ p) h = cc
has_prefix-length (d ∷ s) (c ∷ p) h = ground (arith, has_prefix-length s p)

pub contains_text_short : (s p : Text) → length s < length p → contains_text s p ≡ false
unfolding contains_text
contains_text_short [] p h = ground (arith, has_prefix-length [] p)
contains_text_short (c ∷ s) p h =
    ground (arith, has_prefix-length (c ∷ s) p, contains_text_short s p)

prefix_rest : (s p : Text) → has_prefix s p ≡ true → (r : Text) × (s ≡ p ++ r)
unfolding has_prefix
prefix_rest s [] h = (s, refl)
prefix_rest [] (c ∷ p) h = cc
prefix_rest (d ∷ s) (c ∷ p) h = let (r, e) = prefix_rest s p (ground arith) in (r, ground arith)

-- A text has a prefix exactly if it is the prefix and some rest.
pub has_prefix_iff : (s p : Text) → (has_prefix s p ≡ true) ↔ ((r : Text) × (s ≡ p ++ r))
has_prefix_iff s p = (prefix_rest s p, λ (r, e). ap (λ t. has_prefix t p) e ∙ has_prefix-append p r)
