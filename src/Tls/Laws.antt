-- ===== src/Tls/Laws.antt =====
-- Which handshakes a server's configuration allows.
use redis_exporter.Base.{◌≡◌, ◌≢◌, true, Option, none, some, [], Bytes, bytes_eq-nil_ne, arith}
use redis_exporter.Tls.{
  Files, HandshakeConfig, ServerConfig, load_key_pair, load_ca_file, get_server_certificate,
  get_config_for_client, for_clients, create_server_tls_config,
}

module _ {Cert Pool : Type 0} where
  -- The configuration of a handshake, as crypto/tls documents it: that of GetConfigForClient where it
  -- is set, or else the server's.
  abbrev pub handshake :
      ServerConfig Cert Pool → Files Cert Pool → Option (HandshakeConfig Cert Pool)
  handshake config files = elim config.get_config_for_client [
    | none ↦ some config.base
    | some make ↦ make files
  ]

  clients_of :
      (cert_file key_file ca_cert_file version : Bytes) (files : Files Cert Pool)
      (config : ServerConfig Cert Pool)
      → ca_cert_file ≢ []
      → create_server_tls_config cert_file key_file ca_cert_file version files ≡ some config
      → config.get_config_for_client ≡ some (get_config_for_client cert_file key_file ca_cert_file)
  unfolding create_server_tls_config for_clients
  clients_of cert_file key_file ca version files config n made =
      ground (arith, bytes_eq-nil_ne ca n)

  handshake_of :
      (cert_file key_file ca_cert_file : Bytes) (later : Files Cert Pool)
      (h : HandshakeConfig Cert Pool)
      → get_config_for_client cert_file key_file ca_cert_file later ≡ some h
      → (h.client_auth ≡ true)
        × (h.client_cas ≡ load_ca_file ca_cert_file later)
        × (h.get_certificate later ≡ load_key_pair cert_file key_file later)
        × (h.min_version ≡ 0)
  unfolding get_config_for_client get_server_certificate load_key_pair
  handshake_of cert_file key_file ca later h made = ground arith

  -- With a file of certificate authorities a handshake wants a certificate of the client that they
  -- signed, as the files are then, and no minimal version of TLS is set for it, whatever was
  -- configured.
  pub create_server_tls_config-clients :
      (cert_file key_file ca_cert_file version : Bytes) (files later : Files Cert Pool)
      (config : ServerConfig Cert Pool) (h : HandshakeConfig Cert Pool)
      → ca_cert_file ≢ []
      → create_server_tls_config cert_file key_file ca_cert_file version files ≡ some config
      → handshake config later ≡ some h
      → (h.client_auth ≡ true)
        × (h.client_cas ≡ load_ca_file ca_cert_file later)
        × (h.get_certificate later ≡ load_key_pair cert_file key_file later)
        × (h.min_version ≡ 0)
  create_server_tls_config-clients cert_file key_file ca version files later config h n made
        shaken =
      handshake_of cert_file key_file ca later h
        (rw (clients_of cert_file key_file ca version files config n made) at shaken)
