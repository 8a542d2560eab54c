-- ===== src/Startup/Up.antt =====
-- What has been set up when the operator (cmd/main.go) or the daemon (dset/main.go) runs.
use k8slan.Base.{
  ◌≡◌, refl, ◌∙◌, ap, ◌⊎◌, inl, inr, Bool, true, false, Bool-cases, Result, ok, err, panic, ◌==◌,
  ==_iff, list_eq, nat_eq,
}
use k8slan.Base.Int.{pos}
use k8slan.Base.Text.{Text, bytes}
use k8slan.Base.Io.{Io, Error, io_bind_ok, pure_ok}
use k8slan.Webhook.{lan_defaulter}
use k8slan.Controller.{extract_key}
use k8slan.DevicePlugin.Lister.{new_macvtap_lister, get_resource_namespace}
use k8slan.Startup.Options.{Flags, ManagerOptions, manager_options}
use k8slan.Startup.Flagged.{IsFlagged, manager_options-IsFlagged}
use k8slan.Startup.Runtime.{Runtime, no_error, must, client_go_types, nad_types, lan_types}
use k8slan.Startup.Operator.{
  init_scheme, enable_webhooks, setup_lan_webhook_with_manager, registr_resource,
  setup_with_manager, register, operator_manager, operator_main,
}
use k8slan.Startup.Node.{
  plain_options, node_scheme, daemon_setup_with_manager, node_manager, node_main,
}
use k8slan.Startup.Order.{StartsLast, reached, operator_manager_keeps, node_manager_keeps}

module _ (rt : Runtime) where
  -- The webhook with the defaults of the LAN was registered, if it was not turned off; the index and
  -- the controller, and the two checks, in this order.
  pub record IsRegistered (mgr : rt.Manager) (s t : rt.State) : Type 0 where
    pub s₁ : rt.State
    pub s₂ : rt.State
    pub s₃ : rt.State
    pub s₄ : rt.State
    pub webhook :
        ((rt.getenv (bytes "ENABLE_WEBHOOKS") s ≡ bytes "false") × (s ≡ s₁))
        ⊎ (rt.complete_webhook mgr
              (record { vxport = pos 4789; vxgrp = bytes "FF02:0:0:0:0:0:0:14" })
              s
            ≡ (ok tt, s₁))
    pub index : rt.index_field mgr (bytes ".metadata.controller") extract_key s₁ ≡ (ok tt, s₂)
    pub controller : rt.complete_operator mgr (bytes "lan") s₂ ≡ (ok tt, s₃)
    pub healthz : rt.add_healthz_check mgr (bytes "healthz") s₃ ≡ (ok tt, s₄)
    pub readyz : rt.add_readyz_check mgr (bytes "readyz") s₄ ≡ (ok tt, t)

  -- The types of client-go, of the attachments and of the LAN were added to a new scheme.
  pub record IsTyped (scheme : rt.Scheme) (s t : rt.State) : Type 0 where
    pub a : rt.Scheme
    pub b : rt.Scheme
    pub s₁ : rt.State
    pub s₂ : rt.State
    pub client_go : rt.add_to_scheme client_go_types rt.new_scheme s ≡ (ok a, s₁)
    pub nads : rt.add_to_scheme nad_types a s₁ ≡ (ok b, s₂)
    pub lans : rt.add_to_scheme lan_types b s₂ ≡ (ok scheme, t)

  -- The manager was made with the options of the flags, all was registered, and it was started.
  pub record IsOperatorUp (flags : Flags) (s t : rt.State) : Type 0 where
    pub scheme : rt.Scheme
    pub config : rt.Config
    pub mgr : rt.Manager
    pub s₁ : rt.State
    pub s₂ : rt.State
    pub s₃ : rt.State
    pub s₄ : rt.State
    pub types : IsTyped scheme s s₁
    pub options : ManagerOptions
    pub flagged : IsFlagged flags options
    pub configured : rt.get_config s₁ ≡ (ok config, s₂)
    pub made : rt.new_manager config scheme options s₂ ≡ (ok mgr, s₃)
    pub registered : IsRegistered mgr s₃ s₄
    pub started : (rt.start mgr s₄).1 ≡ t

  -- The manager was made, the reconciler of this host was registered, the device plugins were
  -- launched with an empty list of devices, and then the manager was started.
  pub record IsNodeUp (s t : rt.State) : Type 0 where
    pub host : Text
    pub scheme : rt.Scheme
    pub config : rt.Config
    pub mgr : rt.Manager
    pub s₁ : rt.State
    pub s₂ : rt.State
    pub s₃ : rt.State
    pub s₄ : rt.State
    pub s₅ : rt.State
    pub named : rt.hostname s ≡ (ok host, s₁)
    pub types : node_scheme rt s₁ ≡ (ok scheme, s₂)
    pub configured : rt.get_config s₂ ≡ (ok config, s₃)
    pub made : rt.new_manager config scheme plain_options s₃ ≡ (ok mgr, s₄)
    pub controller : rt.complete_daemon mgr host s₄ ≡ (ok tt, s₅)
    pub started :
        (rt.start mgr (rt.spawn_plugins get_resource_namespace new_macvtap_lister s₅)).1 ≡ t

  must_ok :
      {A : Type 0} (m : Io rt.State A) (s : rt.State) {a : A} {t : rt.State}
      → must m s ≡ (ok a, t)
      → m s ≡ (ok a, t)
  must_ok {A} m s {a} {t} h = split (m s) refl h
    where
      split :
          (r : Result Error A × rt.State)
          → m s ≡ r
          → Path (Result Error A × rt.State) (no_error r.0, r.1) (ok a, t)
          → m s ≡ (ok a, t)
      split (ok x, u) e h' = e ∙ h'
      split (err x, u) e h' = cc
      split (panic, u) e h' = cc

  init_scheme-IsTyped :
      (s t : rt.State) {scheme : rt.Scheme} → init_scheme rt s ≡ (ok scheme, t) → IsTyped scheme s t
  unfolding init_scheme
  init_scheme-IsTyped s t h =
      let add = rt.add_to_scheme client_go_types rt.new_scheme in
      let (a, s₁, e₁, h₁) = io_bind_ok (must add) _ s h in
      let (b, s₂, e₂, h₂) = io_bind_ok (must (rt.add_to_scheme nad_types a)) _ s₁ h₁ in
      record {
        a = a;
        b = b;
        s₁ = s₁;
        s₂ = s₂;
        client_go = must_ok add s e₁;
        nads = must_ok (rt.add_to_scheme nad_types a) s₁ e₂;
        lans = must_ok (rt.add_to_scheme lan_types b) s₂ h₂;
      }

  webhook_done :
      (mgr : rt.Manager) (s t : rt.State)
      → enable_webhooks rt mgr s ≡ (ok tt, t)
      → ((rt.getenv (bytes "ENABLE_WEBHOOKS") s ≡ bytes "false") × (s ≡ t))
        ⊎ (rt.complete_webhook mgr lan_defaulter s ≡ (ok tt, t))
  unfolding enable_webhooks setup_lan_webhook_with_manager
  webhook_done mgr s t h =
      elim (Bool-cases (rt.getenv (bytes "ENABLE_WEBHOOKS") s == bytes "false")) [
        | inl off ↦ inl (
          (==_iff (rt.getenv (bytes "ENABLE_WEBHOOKS") s) (bytes "false")).0 off,
          (pure_ok (rw (off, enable_webhooks) at h)).1,
        )
        | inr on ↦ inr (rw (on, enable_webhooks) at h)
      ]

  register-IsRegistered :
      (mgr : rt.Manager) (s t : rt.State) → register rt mgr s ≡ (ok tt, t) → IsRegistered mgr s t
  unfolding register setup_with_manager registr_resource
  register-IsRegistered mgr s t h =
      let (x₁, s₁, e₁, h₁) = io_bind_ok (enable_webhooks rt mgr) _ s h in
      let (x₂, s₃, e₂, h₂) = io_bind_ok (setup_with_manager rt mgr) _ s₁ h₁ in
      let (x₃, s₂, e₃, h₃) = io_bind_ok (registr_resource rt mgr) _ s₁ e₂ in
      let (x₄, s₄, e₄, h₄) = io_bind_ok (rt.add_healthz_check mgr (bytes "healthz")) _ s₃ h₂ in
      record {
        s₁ = s₁;
        s₂ = s₂;
        s₃ = s₃;
        s₄ = s₄;
        webhook = webhook_done mgr s s₁ e₁;
        index = e₃;
        controller = h₃;
        healthz = e₄;
        readyz = h₄;
      }

  module _ (running : rt.State → Bool) (l : StartsLast rt running) where
    -- Over a runtime in which only `Start` makes a manager run: if no manager runs before the
    -- operator's `main` and one runs after it, the types of client-go, of the attachments and of
    -- the LAN were added to a new scheme and the manager was made with it; its options have the
    -- addresses and the certificates of the flags, HTTP/2 on neither server unless the flag asks
    -- for it, and the metrics guarded if they are served securely; the webhook was registered with
    -- the port 4789 and the group FF02::14 as defaults unless `ENABLE_WEBHOOKS` is `false`, the
    -- index on the owner, the controller and both checks were registered without an error and in
    -- this order, and the end is what `Start` of this manager left.
    pub operator_main-IsOperatorUp :
        (flags : Flags) (s : rt.State)
        → running s ≡ false
        → running (operator_main rt flags s).1 ≡ true
        → IsOperatorUp flags s (operator_main rt flags s).1
    unfolding operator_main operator_manager
    operator_main-IsOperatorUp flags s idle runs =
        let (mgr, u, e, last) =
          reached running (operator_manager rt flags) rt.start s
            (operator_manager_keeps rt running l flags) idle runs in
        let (scheme, s₁, e₁, h₁) = io_bind_ok (init_scheme rt) _ s e in
        let (config, s₂, e₂, h₂) = io_bind_ok rt.get_config _ s₁ h₁ in
        let (m, s₃, e₃, h₃) =
          io_bind_ok (rt.new_manager config scheme (manager_options flags)) _ s₂ h₂ in
        let (x, s₄, e₄, h₄) = io_bind_ok (register rt m) _ s₃ h₃ in
        let (same, end) = pure_ok h₄ in
        record {
          scheme = scheme;
          config = config;
          mgr = m;
          s₁ = s₁;
          s₂ = s₂;
          s₃ = s₃;
          s₄ = s₄;
          types = init_scheme-IsTyped s s₁ e₁;
          options = manager_options flags;
          flagged = manager_options-IsFlagged flags;
          configured = e₂;
          made = e₃;
          registered = register-IsRegistered m s₃ s₄ e₄;
          started = ap (λ k. (rt.start k s₄).1) same ∙ ap (λ w. (rt.start mgr w).1) end ∙ last;
        }

    -- Over a runtime in which only `Start` makes a manager run: if no manager runs before the
    -- daemon's `main` and one runs after it, the name of the host was found, the manager was made,
    -- the reconciler of this host was registered with it without an error, the device plugins were
    -- launched with no devices yet under the resource namespace, and the end is what `Start` of
    -- this manager left after that.
    pub node_main-IsNodeUp :
        (s : rt.State)
        → running s ≡ false
        → running (node_main rt s).1 ≡ true
        → IsNodeUp s (node_main rt s).1
    unfolding node_main node_manager daemon_setup_with_manager
    node_main-IsNodeUp s idle runs =
        let (mgr, u, e, last) =
          reached running (node_manager rt) rt.start s (node_manager_keeps rt running l) idle
            runs in
        let (host, s₁, e₁, h₁) = io_bind_ok (must rt.hostname) _ s e in
        let (scheme, s₂, e₂, h₂) = io_bind_ok (node_scheme rt) _ s₁ h₁ in
        let (config, s₃, e₃, h₃) = io_bind_ok rt.get_config _ s₂ h₂ in
        let (m, s₄, e₄, h₄) = io_bind_ok (rt.new_manager config scheme plain_options) _ s₃ h₃ in
        let (x, s₅, e₅, h₅) = io_bind_ok (daemon_setup_with_manager rt m host) _ s₄ h₄ in
        let (same, end) = pure_ok h₅ in
        record {
          host = host;
          scheme = scheme;
          config = config;
          mgr = m;
          s₁ = s₁;
          s₂ = s₂;
          s₃ = s₃;
          s₄ = s₄;
          s₅ = s₅;
          named = must_ok rt.hostname s e₁;
          types = e₂;
          configured = e₃;
          made = e₄;
          controller = e₅;
          started =
              ap
                (λ k.
                  (rt.start k (rt.spawn_plugins get_resource_namespace new_macvtap_lister s₅)).1)
                same
              ∙ ap (λ w. (rt.start mgr w).1) end
              ∙ last;
        }
