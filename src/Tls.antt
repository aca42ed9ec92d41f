-- ===== src/Tls.antt =====
-- exporter/tls.go: the configurations of crypto/tls for the client and for the server.
-- `Files` is what the exporter reads at one moment: tls.LoadX509KeyPair, os.ReadFile,
-- x509.SystemCertPool, and a new pool with the certificates of a PEM text; `none` is an error.
pub mod Laws
use redis_exporter.Base.{
  ℕ, Bool, true, false, not, ◌&&◌, Option, none, some, List, [], ◌∷◌, Bytes, codes, bytes_eq,
  if◌then◌else◌, Assoc, lookup,
}
use redis_exporter.Base.Chain.{◌>>=◌, ◌>>◌}
use redis_exporter.Options.{Options}

pub record Files (Cert Pool : Type 0) : Type 0 where
  pub load_x509_key_pair : Bytes → Bytes → Option Cert
  pub read_file : Bytes → Option Bytes
  pub system_cert_pool : Option Pool
  pub append_certs_from_pem : Bytes → Pool

-- The part of tls.Config that the client's configuration sets.
pub record ClientConfig (Cert Pool : Type 0) : Type 0 where
  pub insecure_skip_verify : Bool
  pub certificates : List Cert
  pub root_cas : Pool

-- The configuration of one handshake. `min_version` is 0 where it is not set.
pub record HandshakeConfig (Cert Pool : Type 0) : Type 0 where
  pub min_version : ℕ
  pub client_auth : Bool
  pub client_cas : Option Pool
  pub get_certificate : Files Cert Pool → Option Cert

-- The server's configuration: that of a handshake, or one that is made for each client.
pub record ServerConfig (Cert Pool : Type 0) : Type 0 where
  pub base : HandshakeConfig Cert Pool
  pub get_config_for_client : Option (Files Cert Pool → Option (HandshakeConfig Cert Pool))

-- tlsVersions, with the numbers of crypto/tls.
unfoldable pub tls_versions : Assoc ℕ
tls_versions =
    (codes "TLS1.3", 0x0304)
    ∷ (codes "TLS1.2", 0x0303)
    ∷ (codes "TLS1.1", 0x0302)
    ∷ (codes "TLS1.0", 0x0301)
    ∷ []

module _ {Cert Pool : Type 0} where
  unfoldable pub load_key_pair : Bytes → Bytes → Files Cert Pool → Option Cert
  load_key_pair cert_file key_file files = files.load_x509_key_pair cert_file key_file

  unfoldable pub load_ca_file : Bytes → Files Cert Pool → Option Pool
  load_ca_file ca_file files =
      files.read_file ca_file >>= λ pem. some (files.append_certs_from_pem pem)

  -- The certificates of the client: one, or none.
  unfoldable pub client_certificates : Options → Files Cert Pool → Option (List Cert)
  unfolding load_key_pair
  client_certificates options files =
      if not (bytes_eq options.client_cert_file []) && not (bytes_eq options.client_key_file [])
      then (load_key_pair options.client_cert_file options.client_key_file files >>= λ cert.
          some (cert ∷ []))
      else some []

  unfoldable pub root_pool : Options → Files Cert Pool → Option Pool
  unfolding load_ca_file
  root_pool options files =
      if not (bytes_eq options.ca_cert_file [])
      then load_ca_file options.ca_cert_file files
      else files.system_cert_pool

  unfoldable pub create_client_tls_config :
      Options → Files Cert Pool → Option (ClientConfig Cert Pool)
  unfolding client_certificates root_pool
  create_client_tls_config options files = client_certificates options files >>= λ certs.
      root_pool options files >>= λ pool. some (record {
        insecure_skip_verify = options.skip_tls_verification;
        certificates = certs;
        root_cas = pool;
      })

  -- GetServerCertificateFunc: the pair is read again for each handshake.
  unfoldable pub get_server_certificate : Bytes → Bytes → Files Cert Pool → Option Cert
  unfolding load_key_pair
  get_server_certificate cert_file key_file = load_key_pair cert_file key_file

  -- GetConfigForClientFunc
  unfoldable pub get_config_for_client :
      Bytes → Bytes → Bytes → Files Cert Pool → Option (HandshakeConfig Cert Pool)
  unfolding load_ca_file get_server_certificate
  get_config_for_client cert_file key_file ca_cert_file files =
      load_ca_file ca_cert_file files >>= λ certificates. some (record {
        min_version = 0;
        client_auth = true;
        client_cas = some certificates;
        get_certificate = get_server_certificate cert_file key_file;
      })

  -- What the server does with a file of certificate authorities.
  unfoldable pub for_clients :
      Bytes
      → Bytes
      → Bytes
      → Files Cert Pool
      → Option (Option (Files Cert Pool → Option (HandshakeConfig Cert Pool)))
  unfolding load_ca_file get_config_for_client
  for_clients cert_file key_file ca_cert_file files =
      if not (bytes_eq ca_cert_file [])
      then (load_ca_file ca_cert_file files >>= λ pool.
          some (some (get_config_for_client cert_file key_file ca_cert_file)))
      else some none

  unfoldable pub create_server_tls_config :
      Bytes → Bytes → Bytes → Bytes → Files Cert Pool → Option (ServerConfig Cert Pool)
  unfolding load_key_pair get_server_certificate for_clients tls_versions
  create_server_tls_config cert_file key_file ca_cert_file min_version_string files =
      load_key_pair cert_file key_file files >>= λ pair.
      lookup min_version_string tls_versions >>= λ min_version.
      for_clients cert_file key_file ca_cert_file files >>= λ clients. some (record {
        base = record {
          min_version = min_version;
          client_auth = false;
          client_cas = none;
          get_certificate = get_server_certificate cert_file key_file;
        };
        get_config_for_client = clients;
      })
