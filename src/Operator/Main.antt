-- ===== src/Operator/Main.antt =====
-- services/labenv-operator/cmd/main.go: the manager that the operator runs, by its flags.
use rootenv.Common.{
  ℕ, ◌≡◌, Bool, true, false, not, ◌&&◌, List, [], ◌∷◌, Bytes, bytes_eq, nat_eq, codes, ◌==◌,
  if◌then◌else◌, arith,
}

pub record Flags : Type 0 where
  pub metrics_addr : Bytes
  pub probe_addr : Bytes
  pub enable_leader_election : Bool
  pub secure_metrics : Bool
  pub webhook_cert_path : Bytes
  pub webhook_cert_name : Bytes
  pub webhook_cert_key : Bytes
  pub metrics_cert_path : Bytes
  pub metrics_cert_name : Bytes
  pub metrics_cert_key : Bytes
  pub enable_http2 : Bool

abbrev pub default_flags : Flags
default_flags = record {
  metrics_addr = codes "0";
  probe_addr = codes ":8081";
  enable_leader_election = false;
  secure_metrics = true;
  webhook_cert_path = [];
  webhook_cert_name = codes "tls.crt";
  webhook_cert_key = codes "tls.key";
  metrics_cert_path = [];
  metrics_cert_name = codes "tls.crt";
  metrics_cert_key = codes "tls.key";
  enable_http2 = false;
}

-- The part of `tls.Config` that the options set.
pub record TlsConfig : Type 0 where
  pub next_protos : List Bytes

unfoldable pub disable_http2 : TlsConfig → TlsConfig
disable_http2 c = record { next_protos = codes "http/1.1" ∷ [] }

abbrev pub TlsOpts : Type 0
TlsOpts = List (TlsConfig → TlsConfig)

unfoldable pub tls_opts : Flags → TlsOpts
tls_opts f = if not f.enable_http2 then disable_http2 ∷ [] else []

-- What the servers make of the options: each in turn.
unfoldable pub apply_opts : TlsOpts → TlsConfig → TlsConfig
apply_opts [] c = c
apply_opts (o ∷ os) c = apply_opts os (o c)

-- A directory of certificates with the names of the certificate and the key; the zero values where
-- there is none.
pub record Certificates : Type 0 where
  pub dir : Bytes
  pub cert_name : Bytes
  pub key_name : Bytes

abbrev pub no_certificates : Certificates
no_certificates = record { dir = []; cert_name = []; key_name = [] }

unfoldable pub certificates : Bytes → Bytes → Bytes → Certificates
certificates path name key =
    if path == [] then no_certificates else record { dir = path; cert_name = name; key_name = key }

pub record WebhookOptions : Type 0 where
  pub tls_opts : TlsOpts
  pub certificates : Certificates

-- `has_filter` says whether `FilterProvider` authenticates and authorizes the requests.
pub record MetricsOptions : Type 0 where
  pub bind_address : Bytes
  pub secure_serving : Bool
  pub tls_opts : TlsOpts
  pub has_filter : Bool
  pub certificates : Certificates

pub record ManagerOptions : Type 0 where
  pub metrics : MetricsOptions
  pub webhook : WebhookOptions
  pub probe_addr : Bytes
  pub leader_election : Bool
  pub leader_election_id : Bytes

unfoldable pub manager_options : Flags → ManagerOptions
manager_options f = record {
  metrics = record {
    bind_address = f.metrics_addr;
    secure_serving = f.secure_metrics;
    tls_opts = tls_opts f;
    has_filter = f.secure_metrics;
    certificates = certificates f.metrics_cert_path f.metrics_cert_name f.metrics_cert_key;
  };
  webhook = record {
    tls_opts = tls_opts f;
    certificates = certificates f.webhook_cert_path f.webhook_cert_name f.webhook_cert_key;
  };
  probe_addr = f.probe_addr;
  leader_election = f.enable_leader_election;
  leader_election_id = codes "49f1dc1e.rootenv.io";
}

-- Whether the manager can be made with its options, the controller set up, the two checks added, and
-- the manager runs until it is told to stop.
pub record Manager : Type 0 where
  pub new_manager : ManagerOptions → Bool
  pub set_up : Bool
  pub add_healthz : Bool
  pub add_readyz : Bool
  pub starts : Bool

-- The exit code of `main`, and whether the manager was started.
unfoldable pub main : Manager → Flags → ℕ × Bool
main m f =
    if not (m.new_manager (manager_options f))
    then (1, false)
    else if not m.set_up
    then (1, false)
    else if not m.add_healthz
    then (1, false)
    else if not m.add_readyz
    then (1, false)
    else if not m.starts
    then (1, true)
    else (0, true)

-- Unless --enable-http2 is set, both servers of the operator offer HTTP/1.1 and nothing else,
-- whatever was configured before; the metrics have the filter that authorizes requests exactly where
-- they are served over TLS.
pub manager_options-http1 :
    (f : Flags) (c : TlsConfig)
    → f.enable_http2 ≡ false
    → let o = manager_options f in
      ((apply_opts o.metrics.tls_opts c).next_protos ≡ codes "http/1.1" ∷ [])
      × ((apply_opts o.webhook.tls_opts c).next_protos ≡ codes "http/1.1" ∷ [])
      × (o.metrics.has_filter ≡ o.metrics.secure_serving)
unfolding manager_options tls_opts apply_opts disable_http2
manager_options-http1 f c h = ground (arith, h)

-- The operator exits with 0 exactly if its manager could be made with the options of its flags, its
-- controller set up and its two checks added, and the manager ended without an error; otherwise it
-- exits with 1, and the manager was started only if all but its run succeeded.
pub main-exits :
    (m : Manager) (f : Flags)
    → let (code, started) = main m f in
      let is_made =
        m.new_manager (manager_options f) && m.set_up && m.add_healthz && m.add_readyz in
      (started ≡ is_made) × (code ≡ (if is_made && m.starts then 0 else 1))
unfolding main
main-exits m f = ground arith
