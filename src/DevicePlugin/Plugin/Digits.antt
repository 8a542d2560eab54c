-- ===== src/DevicePlugin/Plugin/Digits.antt =====
-- The decimal numbers in the paths of tap devices (pkg/deviceplugin/plugin.go).
use mathlib.Core.List.{append_cancel_left}
use k8slan.Base.{
  ℕ, zero, suc, ◌+◌, ◌-◌, ◌*◌, ◌/◌, ◌%◌, ◌<◌, ◌≤◌, ◌≡◌, ◌≢◌, refl, sym, ap, ◌∙◌, [], ◌∷◌, ◌++◌, ltb,
  arith, Bool-cases, inl, inr,
}
use k8slan.Base.Text.{Text}
use k8slan.DevicePlugin.Plugin.{tap_path, print_from, print_nat, device_of}

-- The number that some digits stand for, after those read already
abbrev value : ℕ → Text → ℕ
value acc [] = acc
value acc (c ∷ s) = value (10 * acc + (c - 48)) s

value-append : (acc : ℕ) (s t : Text) → value acc (s ++ t) ≡ value (value acc s) t
value-append acc [] t = refl
value-append acc (c ∷ s) t = value-append (10 * acc + (c - 48)) s t

value-print_from : (fuel n : ℕ) → n < fuel → value 0 (print_from fuel n) ≡ n
unfolding print_from
value-print_from zero n h = elim h [ ]
value-print_from (suc fuel) n h = elim (Bool-cases (ltb n 10)) [
  | inl short ↦ rw short (omega arith)
  | inr long ↦
      let big : 10 ≤ n = ground arith in
      let smaller : n / 10 < fuel = omega arith in
      rw (long, value-append 0 (print_from fuel (n / 10)) ((48 + n % 10) ∷ []))
        (omega (arith, value-print_from fuel (n / 10) smaller))
]

-- The fuel is enough: the digits of a number stand for it.
value-print_nat : (n : ℕ) → value 0 (print_nat n) ≡ n
unfolding print_nat
value-print_nat n = value-print_from (suc n) n (omega arith)

-- The tap devices of two different macvtap interfaces are different.
device_of_apart : (i j : ℕ) → i ≢ j → device_of i ≢ device_of j
unfolding device_of
device_of_apart i j differ h =
    let same = append_cancel_left tap_path (print_nat i) (print_nat j) (ap (λ d. d.host_path) h) in
    differ (sym (value-print_nat i) ∙ ap (value 0) same ∙ value-print_nat j)
