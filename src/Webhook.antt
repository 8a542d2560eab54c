-- ===== src/Webhook.antt =====
-- The admission webhooks of the LAN resource (internal/webhook/v1beta1/lan_webhook.go). The
-- warnings, always nil, and the log lines are left out; `SetupLANWebhookWithManager` stands in
-- Startup/Operator.
pub mod Defaults
pub mod Equal
pub mod Rules
use k8slan.Base.{
  Bool, true, false, ◌&&◌, not, Option, none, some, List, [], ◌∷◌, Result, ok, err, panic, ◌>>=◌,
  ◌>>◌, fail_if, ◌==◌, nat_eq, list_eq, option_eq, if◌then◌else◌,
}
use k8slan.Base.Int.{ℤ, int_eq}
use k8slan.Base.Text.{Text, has_prefix}
use k8slan.Base.Dict.{Dict, dict_equal}
use k8slan.Lan.{LanSpec, Lan, default_vx_port, default_vx_grp, finalizer_prefix}
use k8slan.Lan.Validation.{SpecError, validate}

-- A `runtime.Object`: the type assertion `obj.(*LAN)` holds of `lan` alone.
pub data Object : Type 0 where
  lan : Lan → Object
  other : Object

pub data WebhookError : Type 0 where
  not_a_lan : WebhookError
  new_not_a_lan : WebhookError
  old_not_a_lan : WebhookError
  spec_changed : WebhookError
  invalid_spec : SpecError → WebhookError
  foreign_finalizer : Text → WebhookError

pub record LanCustomDefaulter : Type 0 where
  pub vxport : ℤ
  pub vxgrp : Text

-- The defaulter that `SetupLANWebhookWithManager` registers.
abbrev pub lan_defaulter : LanCustomDefaulter
lan_defaulter = record { vxport = default_vx_port; vxgrp = default_vx_grp }

unfoldable pub set_default_generic {ℓ} : {A : Type ℓ} → Option A → A → Option A
set_default_generic (some v) def_val = some v
set_default_generic none def_val = some def_val

default_spec : LanCustomDefaulter → LanSpec → LanSpec
unfolding set_default_generic
default_spec d spec = record spec {
  vx_port = set_default_generic spec.vx_port d.vxport;
  vxlan_grp = set_default_generic spec.vxlan_grp d.vxgrp;
}

unfoldable pub default : LanCustomDefaulter → Object → Result WebhookError Object
unfolding default_spec
default d (lan l) = ok (lan (record l { spec = default_spec d l.spec }))
default d other = err not_a_lan

-- The result of `lan.Spec.Validate()` as the webhook's.
as_webhook : Result SpecError (Unit {0}) → Result WebhookError (Unit {0})
as_webhook (ok u) = ok u
as_webhook (err e) = err (invalid_spec e)
as_webhook panic = panic

unfoldable pub validate_create : Object → Result WebhookError (Unit {0})
unfolding as_webhook
validate_create (lan l) = as_webhook (validate l.spec)
validate_create other = err not_a_lan

-- `reflect.DeepEqual` on the map field: nil is not an empty map.
pub map_equal : Option (Dict Text Text) → Option (Dict Text Text) → Bool
map_equal none none = true
map_equal none (some d) = false
map_equal (some c) none = false
map_equal (some c) (some d) = dict_equal c d

-- `reflect.DeepEqual` on two specs, field by field.
unfoldable pub deep_equal : LanSpec → LanSpec → Bool
deep_equal s t =
    s.ns == t.ns
    && s.bridge_name == t.bridge_name
    && s.vxlan_name == t.vxlan_name
    && s.vni == t.vni
    && s.vxlan_grp == t.vxlan_grp
    && s.default_vx_dev == t.default_vx_dev
    && map_equal s.vx_dev_map t.vx_dev_map
    && s.vx_port == t.vx_port
    && s.spoke_list == t.spoke_list

unfoldable pub validate_update : Object → Object → Result WebhookError (Unit {0})
unfolding as_webhook
validate_update old_obj other = err new_not_a_lan
validate_update other (lan l) = err old_not_a_lan
validate_update (lan old) (lan l) = do
  fail_if (not (deep_equal l.spec old.spec)) spec_changed
  as_webhook (validate l.spec)

-- The loop over `lan.Finalizers`
check_finalizers : List Text → Result WebhookError (Unit {0})
check_finalizers [] = ok tt
check_finalizers (fin ∷ rest) = do
  fail_if (not (has_prefix fin finalizer_prefix)) (foreign_finalizer fin)
  check_finalizers rest

unfoldable pub validate_delete : Object → Result WebhookError (Unit {0})
unfolding check_finalizers
validate_delete (lan l) = check_finalizers l.finalizers
validate_delete other = err not_a_lan
