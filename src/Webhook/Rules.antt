-- ===== src/Webhook/Rules.antt =====
-- What the validating webhook lets through.
use k8slan.Base.{
  ◌≡◌, refl, sym, ap, inl, inr, ◌↔◌, Bool, true, false, not, Result, ok, err, panic, fail_if,
  nat_eq, list_eq, List, [], ◌∷◌, ◌++◌, All, seq_ok, seq_err,
}
use k8slan.Base.Text.{Text}
use k8slan.Base.Text.Laws.{has_prefix_iff}
use k8slan.Base.Dict.{DistinctKeys}
use k8slan.Lan.{Lan, elements, finalizer_prefix}
use k8slan.Lan.Validation.{SpecError, validate}
use k8slan.Lan.Validation.Laws.{Accepted, validate_iff}
use k8slan.Webhook.{
  lan, WebhookError, foreign_finalizer, as_webhook, validate_create, validate_update,
  check_finalizers, validate_delete,
}
use k8slan.Webhook.Equal.{SameSpec, deep_equal-SameSpec, deep_equal_refl}

as_webhook-ok : (r : Result SpecError (Unit {0})) → (as_webhook r ≡ ok tt) ↔ (r ≡ ok tt)
unfolding as_webhook
as_webhook-ok (ok u) = (λ h. refl, λ h. refl)
as_webhook-ok (err e) = (λ h. cc, λ h. cc)
as_webhook-ok panic = (λ h. cc, λ h. cc)

-- A LAN is created exactly if its spec can be put into effect.
pub validate_create_iff : (l : Lan) → (validate_create (lan l) ≡ ok tt) ↔ Accepted l.spec
unfolding validate_create
validate_create_iff l = (
  λ h. (validate_iff l.spec).0 ((as_webhook-ok _).0 h),
  λ a. (as_webhook-ok _).1 ((validate_iff l.spec).1 a),
)

not_passes : (b : Bool) (e : WebhookError) → fail_if (not b) e ≡ ok tt → b ≡ true
not_passes true e h = refl
not_passes false e h = cc

-- An update that the webhook lets through keeps every setting of the spec, and the spec is one that
-- `Validate` accepts. The device map of the new spec has no key twice, as a map of Go.
pub validate_update-SameSpec :
    (old l : Lan)
    → DistinctKeys (elements l.spec.vx_dev_map)
    → validate_update (lan old) (lan l) ≡ ok tt
    → SameSpec l.spec old.spec × Accepted l.spec
unfolding validate_update
validate_update-SameSpec old l u h =
    let (same, valid) = seq_ok _ (as_webhook (validate l.spec)) h in
    (
      deep_equal-SameSpec l.spec old.spec u (not_passes _ _ same),
      (validate_iff l.spec).0 ((as_webhook-ok _).0 valid),
    )

-- An update that leaves the spec as it was is let through exactly if `Validate` accepts the spec.
-- The old device map has no key twice.
pub validate_update_metadata :
    (old l : Lan)
    → DistinctKeys (elements old.spec.vx_dev_map)
    → l.spec ≡ old.spec
    → (validate_update (lan old) (lan l) ≡ ok tt) ↔ Accepted old.spec
unfolding validate_update validate_create
validate_update_metadata old l u e = rw (e, deep_equal_refl old.spec u) (validate_create_iff old)

-- A finalizer of the program: its prefix, and then whatever host.
abbrev pub IsOwn : Text → Type 0
IsOwn fin = (host : Text) × (fin ≡ finalizer_prefix ++ host)

check_finalizers_iff : (fins : List Text) → (check_finalizers fins ≡ ok tt) ↔ All IsOwn fins
unfolding check_finalizers
check_finalizers_iff [] = (λ h. tt, λ h. refl)
check_finalizers_iff (fin ∷ rest) = (
  λ h.
      let (own, later) = seq_ok _ (check_finalizers rest) h in
      (
        (has_prefix_iff fin finalizer_prefix).0 (not_passes _ _ own),
        (check_finalizers_iff rest).0 later,
      ),
  λ (own, later).
      rw ((has_prefix_iff fin finalizer_prefix).1 own) ((check_finalizers_iff rest).1 later),
)

-- The webhook lets a LAN be deleted exactly if each of its finalizers has the program's prefix.
pub validate_delete_iff : (l : Lan) → (validate_delete (lan l) ≡ ok tt) ↔ All IsOwn l.finalizers
unfolding validate_delete
validate_delete_iff l = check_finalizers_iff l.finalizers

not_fails :
    (b : Bool) (e : WebhookError) {e' : WebhookError}
    → fail_if (not b) e ≡ err e'
    → (b ≡ false) × (e ≡ e')
not_fails true e h = cc
not_fails false e h = (refl, cc)

-- The finalizer at which the loop stops: those before it are the program's own.
abbrev pub Stops : List Text → WebhookError → Type 0
Stops fins e =
    (before : List Text) × (fin : Text) × (after : List Text) × (fins ≡ before ++ (fin ∷ after))
    × All IsOwn before
    × (¬ (IsOwn fin))
    × (e ≡ foreign_finalizer fin)

check_finalizers-err :
    (fins : List Text) {e : WebhookError} → check_finalizers fins ≡ err e → Stops fins e
unfolding check_finalizers
check_finalizers-err [] h = cc
check_finalizers-err (fin ∷ rest) h = elim (seq_err _ (check_finalizers rest) h) [
  | inl here ↦
      let (alien, same) = not_fails _ _ here in
      ([], fin, rest, refl, tt, λ own. cc ((has_prefix_iff fin finalizer_prefix).1 own), sym same)
  | inr (passed, later) ↦
      let (before, f, after, split, owned, alien, same) = check_finalizers-err rest later in
      (
        fin ∷ before,
        f,
        after,
        ap (λ l. fin ∷ l) split,
        ((has_prefix_iff fin finalizer_prefix).0 (not_passes _ _ passed), owned),
        alien,
        same,
      )
]

-- A deletion that is refused names the first finalizer that has not the program's prefix.
pub validate_delete-err :
    (l : Lan) {e : WebhookError} → validate_delete (lan l) ≡ err e → Stops l.finalizers e
unfolding validate_delete
validate_delete-err l h = check_finalizers-err l.finalizers h
