-- ===== src/Tests/Paths.antt =====
-- Paths, numbers and the MTU at concrete values.
use k8slan.Base.{◌+◌, ◌≡◌, refl, some, ◌++◌, ok, arith, list_eq, nat_eq}
use k8slan.Base.Text.{Text, bytes}
use k8slan.Base.FilePath.Laws.{IsPlain}
use k8slan.Lan.Validation.{validate}
use k8slan.Interfaces.Namespace.{named_path}
use k8slan.Interfaces.Namespace.Paths.{named_path_escapes}
use k8slan.Interfaces.Vxlan.{to_uint32}
use k8slan.Interfaces.Apply.{inner_mtu}
use k8slan.Interfaces.Apply.Mtu.{to_uint32-inner_mtu}
use k8slan.DevicePlugin.Plugin.{print_nat}
use k8slan.Tests.Data.{lan_example}
use k8slan.Tests.Resource.{lan_example-Accepted}

abbrev knl : Text
knl = bytes "knlvrf"

knl-IsPlain : IsPlain knl
unfolding nat_eq
knl-IsPlain = record { no_slash = refl; named = λ h. cc; not_dot = λ h. cc; not_dots = λ h. cc }

named_path_escapes_example :
    (validate (record lan_example { ns = some (bytes "../" ++ knl) }) ≡ ok tt)
    × (named_path (bytes "../" ++ knl) ≡ bytes "/var/run/knlvrf")
named_path_escapes_example = named_path_escapes lan_example knl lan_example-Accepted knl-IsPlain

printed : print_nat 120 ≡ bytes "120"
unfolding print_nat
printed = refl

to_uint32-inner_mtu_example : to_uint32 (inner_mtu 1500) + 74 ≡ 1500
to_uint32-inner_mtu_example = to_uint32-inner_mtu 1500 (omega arith)
