-- ===== src/Webhook/Defaults.antt =====
-- What the defaulting webhook does to an object, and what a defaulted LAN meets in validation.
use mathlib.Core.Option.{or_else}
use k8slan.Base.{
  ◌≡◌, ◌≢◌, refl, inl, inr, Option, none, some, [], ◌∷◌, Result, ok, err, panic, ◌>>=◌, nat_eq,
  list_eq,
}
use k8slan.Netip.{v6, parse_addr, is_multicast}
use k8slan.Lan.{LanSpec, Lan, default_vx_grp}
use k8slan.Lan.Validation.{SpecError}
use k8slan.Lan.Validation.Laws.{GroupSet}
use k8slan.Lan.Validation.Panics.{ReachesNil, validate-panic}
use k8slan.Webhook.{
  Object, lan, other, LanCustomDefaulter, set_default_generic, default_spec, default, as_webhook,
  validate_create,
}

set_default_idem {ℓ} :
    {A : Type ℓ} (o : Option A) (v : A)
    → set_default_generic (set_default_generic o v) v ≡ set_default_generic o v
unfolding set_default_generic
set_default_idem none v = refl
set_default_idem (some a) v = refl

set_default_or_else {ℓ} :
    {A : Type ℓ} (o : Option A) (v : A) → set_default_generic o v ≡ or_else o (some v)
unfolding set_default_generic or_else
set_default_or_else none v = refl
set_default_or_else (some a) v = refl

set_default_ne_none {ℓ} : {A : Type ℓ} (o : Option A) (v : A) → set_default_generic o v ≢ none
unfolding set_default_generic
set_default_ne_none none v h = cc
set_default_ne_none (some b) v h = cc

-- Defaulting what was defaulted changes nothing.
pub default_idem :
    (d : LanCustomDefaulter) (obj : Object) → (default d obj >>= default d) ≡ default d obj
unfolding default
default_idem d other = refl
default_idem d (lan l) = simp (
  default_spec,
  set_default_idem l.spec.vx_port d.vxport,
  set_default_idem l.spec.vxlan_grp d.vxgrp,
)

-- A defaulted LAN has the port and the group that it was given, or else the defaulter's, and all
-- else is as it was; defaulting it again changes nothing.
pub default-fills :
    (d : LanCustomDefaulter) (l : Lan)
    → (default d (lan l)
        ≡ ok (
            lan (record l {
              spec = record l.spec {
                vx_port = or_else l.spec.vx_port (some d.vxport);
                vxlan_grp = or_else l.spec.vxlan_grp (some d.vxgrp);
              };
            })))
      × ((default d (lan l) >>= default d) ≡ default d (lan l))
unfolding default default_spec
default-fills d l = (
  rw (set_default_or_else l.spec.vx_port d.vxport, set_default_or_else l.spec.vxlan_grp d.vxgrp),
  default_idem d (lan l),
)

-- The default group is an IPv6 multicast address.
pub default_group-GroupSet : GroupSet (some default_vx_grp)
unfolding parse_addr is_multicast nat_eq list_eq
default_group-GroupSet = (
  default_vx_grp,
  refl,
  v6 (0xff ∷ 0x02 ∷ 0 ∷ 0 ∷ 0 ∷ 0 ∷ 0 ∷ 0 ∷ 0 ∷ 0 ∷ 0 ∷ 0 ∷ 0 ∷ 0 ∷ 0 ∷ 0x14 ∷ []) [],
  refl,
  refl,
)

as_webhook_panic : (r : Result SpecError (Unit {0})) → as_webhook r ≡ panic → r ≡ panic
unfolding as_webhook
as_webhook_panic (ok u) h = cc
as_webhook_panic (err e) h = cc
as_webhook_panic panic h = refl

reaches_no_nil :
    (s : LanSpec)
    → s.ns ≢ none
    → s.bridge_name ≢ none
    → s.vxlan_name ≢ none
    → s.vni ≢ none
    → s.vxlan_grp ≢ none
    → ¬ (ReachesNil s)
reaches_no_nil s h₁ h₂ h₃ h₄ h₅ r = elim r [
  | inl nil ↦ h₂ nil
  | inr (_, inl nil) ↦ h₃ nil
  | inr (_, inr (_, inl nil)) ↦ h₁ nil
  | inr (_, inr (_, inr (_, inl nil))) ↦ h₄ nil
  | inr (_, inr (_, inr (_, inr (_, nil)))) ↦ h₅ nil
]

-- A LAN whose namespace, bridge, vxlan and VNI are set does not make `ValidateCreate` panic once it
-- has been defaulted.
pub default-create_ne_panic :
    (d : LanCustomDefaulter) (l : Lan)
    → l.spec.ns ≢ none
    → l.spec.bridge_name ≢ none
    → l.spec.vxlan_name ≢ none
    → l.spec.vni ≢ none
    → (default d (lan l) >>= validate_create) ≢ panic
unfolding default validate_create
default-create_ne_panic d l h₁ h₂ h₃ h₄ p =
    reaches_no_nil (default_spec d l.spec) h₁ h₂ h₃ h₄
      (set_default_ne_none l.spec.vxlan_grp d.vxgrp)
      ((validate-panic (default_spec d l.spec)).0 (as_webhook_panic _ p))
