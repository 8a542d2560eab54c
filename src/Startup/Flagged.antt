-- ===== src/Startup/Flagged.antt =====
-- What the options of the manager say, by the flags of the operator (cmd/main.go).
use k8slan.Base.{
  ◌≡◌, ◌≢◌, refl, sym, ◌∙◌, ◌⊎◌, inl, inr, Bool, true, false, List, [], ◌∷◌, ◌==◌, ==_iff,
  Bool-cases, list_eq, nat_eq, if◌then◌else◌,
}
use k8slan.Base.Text.{Text, bytes}
use k8slan.Startup.Options.{
  Flags, TlsConfig, disable_http2, tls_opts, Certs, certs, ManagerOptions, webhook_options,
  metrics_options, manager_options,
}

-- What a server makes of its configuration.
abbrev pub configured : List (TlsConfig → TlsConfig) → TlsConfig → TlsConfig
configured [] c = c
configured (change ∷ changes) c = configured changes (change c)

-- A certificate that is watched, if its directory was given.
pub record IsWatched (path name key : Text) (c : Certs) : Type 0 where
  pub unset : (path ≡ []) → (c.cert_dir ≡ []) × (c.cert_name ≡ []) × (c.key_name ≡ [])
  pub set : (path ≢ []) → (c.cert_dir ≡ path) × (c.cert_name ≡ name) × (c.key_name ≡ key)

-- HTTP/2 is left as it is, or else HTTP/1.1 is all that is offered.
abbrev pub IsLimited : Bool → List (TlsConfig → TlsConfig) → Type 0
IsLimited http2 changes =
    (c : TlsConfig)
    → ((http2 ≡ true) × (configured changes c ≡ c))
      ⊎ ((http2 ≡ false) × ((configured changes c).next_protos ≡ bytes "http/1.1" ∷ []))

pub record IsFlagged (flags : Flags) (o : ManagerOptions) : Type 0 where
  pub metrics_bound : o.metrics.bind_address ≡ flags.metrics_addr
  pub metrics_secured : o.metrics.secure_serving ≡ flags.secure_metrics
  pub metrics_guarded : o.metrics.with_auth ≡ flags.secure_metrics
  pub metrics_limited : IsLimited flags.enable_http2 o.metrics.tls
  pub metrics_certs :
      IsWatched flags.metrics_cert_path flags.metrics_cert_name flags.metrics_cert_key
        o.metrics.certs
  pub webhook_limited : IsLimited flags.enable_http2 o.webhook_server.tls
  pub webhook_certs :
      IsWatched flags.webhook_cert_path flags.webhook_cert_name flags.webhook_cert_key
        o.webhook_server.certs
  pub probed : o.health_probe_bind_address ≡ flags.probe_addr
  pub elected : o.leader_election ≡ flags.enable_leader_election
  pub election : o.leader_election_id ≡ bytes "41064f85.k8slan.io"

certs-IsWatched : (path name key : Text) → IsWatched path name key (certs path name key)
unfolding certs
certs-IsWatched path name key = elim (Bool-cases (path == [])) [
  | inl empty ↦
      rw (empty, certs)
        (record {
          unset = λ e. (refl, refl, refl);
          set = λ ne. absurd (ne ((==_iff path []).0 empty));
        })
  | inr filled ↦
      rw (filled, certs)
        (record {
          unset = λ e. let k : false ≡ true = sym filled ∙ (==_iff path []).1 e in cc;
          set = λ ne. (refl, refl, refl);
        })
]

tls_opts-IsLimited : (flags : Flags) → IsLimited flags.enable_http2 (tls_opts flags)
unfolding tls_opts disable_http2
tls_opts-IsLimited flags c = elim (Bool-cases flags.enable_http2) [
  | inl on ↦ inl (on, rw (on, tls_opts) refl)
  | inr off ↦ inr (off, rw (off, tls_opts) refl)
]

secured : (b : Bool) → (if b then true else false) ≡ b
secured true = refl
secured false = refl

pub manager_options-IsFlagged : (flags : Flags) → IsFlagged flags (manager_options flags)
unfolding manager_options metrics_options webhook_options
manager_options-IsFlagged flags = record {
  metrics_bound = refl;
  metrics_secured = refl;
  metrics_guarded = secured flags.secure_metrics;
  metrics_limited = tls_opts-IsLimited flags;
  metrics_certs =
      certs-IsWatched flags.metrics_cert_path flags.metrics_cert_name flags.metrics_cert_key;
  webhook_limited = tls_opts-IsLimited flags;
  webhook_certs =
      certs-IsWatched flags.webhook_cert_path flags.webhook_cert_name flags.webhook_cert_key;
  probed = refl;
  elected = refl;
  election = refl;
}
