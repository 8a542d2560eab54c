-- ===== src/Tests/Resource.antt =====
-- The checks of the resource and the webhooks, run on the README's LAN.
use mathlib.Core.Option.{or_else}
use k8slan.Base.{◌>>=◌, ◌≡◌, refl, none, some, All, ok, err, panic, list_eq, nat_eq, option_eq}
use k8slan.Base.Int.{negsuc, int_eq}
use k8slan.Base.Dict.{DistinctKeys, lookup}
use k8slan.Base.Text.{bytes, trim_space, has_prefix}
use k8slan.Daemon.{my_finalizer_name}
use k8slan.Netip.{parse_addr, is_multicast}
use k8slan.Lan.{Lan, elements, default_vx_grp, default_vx_port}
use k8slan.Lan.Validation.{bad_vni, validate}
use k8slan.Lan.Validation.Laws.{Accepted, validate_iff}
use k8slan.Lan.Validation.Errors.{Explains, validate-err}
use k8slan.Lan.Validation.Panics.{ReachesNil, validate-panic}
use k8slan.Webhook.{
  lan, foreign_finalizer, lan_defaulter, default, validate_update, validate_delete,
}
use k8slan.Webhook.Equal.{SameSpec}
use k8slan.Webhook.Defaults.{default-fills}
use k8slan.Webhook.Rules.{
  IsOwn, validate_update-SameSpec, validate_update_metadata, validate_delete_iff,
}
use k8slan.Tests.Data.{lan_example, bad_vni_spec, nil_spec, lan_object, registered, guarded}

example_passes : validate lan_example ≡ ok tt
unfolding validate list_eq trim_space parse_addr is_multicast
example_passes = refl

bad_vni_fails : validate bad_vni_spec ≡ err (bad_vni (negsuc 0))
unfolding validate list_eq trim_space
bad_vni_fails = refl

nil_vni_panics : validate nil_spec ≡ panic
unfolding validate list_eq trim_space
nil_vni_panics = refl

validate_iff_example : Accepted lan_example
validate_iff_example = (validate_iff lan_example).0 example_passes

pub lan_example-Accepted : Accepted lan_example
lan_example-Accepted = (validate_iff lan_example).0 example_passes

validate-err_example : Explains bad_vni_spec (bad_vni (negsuc 0))
validate-err_example = validate-err bad_vni_spec bad_vni_fails

validate-panic_example : ReachesNil nil_spec
validate-panic_example = (validate-panic nil_spec).0 nil_vni_panics

pub example_keys : DistinctKeys (elements lan_example.vx_dev_map)
unfolding lookup list_eq nat_eq
example_keys = (refl, (refl, tt))

update_passes : validate_update (lan lan_object) (lan registered) ≡ ok tt
update_passes =
    (validate_update_metadata lan_object registered example_keys refl).1 lan_example-Accepted

validate_update-SameSpec_example :
    SameSpec registered.spec lan_object.spec × Accepted registered.spec
validate_update-SameSpec_example =
    validate_update-SameSpec lan_object registered example_keys update_passes

registered_deletes : validate_delete (lan registered) ≡ ok tt
unfolding validate_delete list_eq nat_eq has_prefix my_finalizer_name
registered_deletes = refl

guarded_stays : validate_delete (lan guarded) ≡ err (foreign_finalizer (bytes "example.com/hold"))
unfolding validate_delete list_eq nat_eq has_prefix my_finalizer_name
guarded_stays = refl

validate_delete_iff_example : All IsOwn registered.finalizers
validate_delete_iff_example = (validate_delete_iff registered).0 registered_deletes

abbrev raw : Lan
raw = record lan_object { spec = record lan_example { vxlan_grp = none; vx_port = none } }

defaults_fill : default lan_defaulter (lan raw) ≡ ok (lan lan_object)
unfolding default
defaults_fill = refl

raw_filled :
    (default lan_defaulter (lan raw)
      ≡ ok (
          lan (record raw {
            spec = record raw.spec {
              vx_port = or_else raw.spec.vx_port (some default_vx_port);
              vxlan_grp = or_else raw.spec.vxlan_grp (some default_vx_grp);
            };
          })))
    × ((default lan_defaulter (lan raw) >>= default lan_defaulter)
        ≡ default lan_defaulter (lan raw))
raw_filled = default-fills lan_defaulter raw
