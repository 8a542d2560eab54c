-- ===== src/Startup/Options.antt =====
-- The flags of the operator (cmd/main.go) and the options that `main` makes of them. The texts are
-- the values after `flag.Parse`; the options of the logger are left out.
use k8slan.Base.{Bool, true, false, not, List, [], ◌∷◌, ◌==◌, list_eq, nat_eq, if◌then◌else◌}
use k8slan.Base.Text.{Text, bytes}

pub record Flags : Type 0 where
  pub metrics_addr : Text
  pub probe_addr : Text
  pub enable_leader_election : Bool
  pub secure_metrics : Bool
  pub webhook_cert_path : Text
  pub webhook_cert_name : Text
  pub webhook_cert_key : Text
  pub metrics_cert_path : Text
  pub metrics_cert_name : Text
  pub metrics_cert_key : Text
  pub enable_http2 : Bool

-- With no flag given
abbrev pub default_flags : Flags
default_flags = record {
  metrics_addr = bytes "0";
  probe_addr = bytes ":8081";
  enable_leader_election = false;
  secure_metrics = true;
  webhook_cert_path = [];
  webhook_cert_name = bytes "tls.crt";
  webhook_cert_key = bytes "tls.key";
  metrics_cert_path = [];
  metrics_cert_name = bytes "tls.crt";
  metrics_cert_key = bytes "tls.key";
  enable_http2 = false;
}

-- What the program writes of a `tls.Config`.
pub record TlsConfig : Type 0 where
  pub next_protos : List Text

-- `disableHTTP2`
unfoldable pub disable_http2 : TlsConfig → TlsConfig
disable_http2 c = record { next_protos = bytes "http/1.1" ∷ [] }

unfoldable pub tls_opts : Flags → List (TlsConfig → TlsConfig)
tls_opts flags = if not flags.enable_http2 then disable_http2 ∷ [] else []

-- The directory and the names of a certificate; empty where they are not set.
pub record Certs : Type 0 where
  pub cert_dir : Text
  pub cert_name : Text
  pub key_name : Text

-- Set if the path is not empty.
unfoldable pub certs : Text → Text → Text → Certs
unfolding list_eq nat_eq
certs path name key =
    if not (path == [])
    then record { cert_dir = path; cert_name = name; key_name = key }
    else record { cert_dir = []; cert_name = []; key_name = [] }

-- `webhook.Options`
pub record WebhookOptions : Type 0 where
  pub tls : List (TlsConfig → TlsConfig)
  pub certs : Certs

-- `metricsserver.Options`; `with_auth` if the filter of authentication and authorization is set.
pub record MetricsOptions : Type 0 where
  pub bind_address : Text
  pub secure_serving : Bool
  pub tls : List (TlsConfig → TlsConfig)
  pub with_auth : Bool
  pub certs : Certs

-- `ctrl.Options`
pub record ManagerOptions : Type 0 where
  pub metrics : MetricsOptions
  pub webhook_server : WebhookOptions
  pub health_probe_bind_address : Text
  pub leader_election : Bool
  pub leader_election_id : Text

unfoldable pub webhook_options : Flags → WebhookOptions
unfolding tls_opts certs
webhook_options flags = record {
  tls = tls_opts flags;
  certs = certs flags.webhook_cert_path flags.webhook_cert_name flags.webhook_cert_key;
}

unfoldable pub metrics_options : Flags → MetricsOptions
unfolding tls_opts certs
metrics_options flags = record {
  bind_address = flags.metrics_addr;
  secure_serving = flags.secure_metrics;
  tls = tls_opts flags;
  with_auth = if flags.secure_metrics then true else false;
  certs = certs flags.metrics_cert_path flags.metrics_cert_name flags.metrics_cert_key;
}

unfoldable pub manager_options : Flags → ManagerOptions
unfolding metrics_options webhook_options
manager_options flags = record {
  metrics = metrics_options flags;
  webhook_server = webhook_options flags;
  health_probe_bind_address = flags.probe_addr;
  leader_election = flags.enable_leader_election;
  leader_election_id = bytes "41064f85.k8slan.io";
}
