-- ===== src/Examples/Handlers.antt =====
-- The handlers, the paths, the passwords and TLS with concrete requests and files.
use redis_exporter.Base.{
  inl, inr, ◌++◌, ℕ, ◌≡◌, ◌⊎◌, refl, Bool, true, false, not, Option, none, some, List, [], ◌∷◌, map,
  Assoc, Bytes, codes, bytes_eq, bytes_eq_iff, contains, has_prefix, strip_prefix, lookup, pos,
  arith,
}
use redis_exporter.Text.Split.{split, join}
use redis_exporter.Text.Trim.{trim_space}
use redis_exporter.Text.Query.{query_unescape, remove_db}
use redis_exporter.Text.Number.{parse_int}
use redis_exporter.Options.{Options, Exporter}
use redis_exporter.Redis.{Redis}
use redis_exporter.Keys.Parse.{parse_key_arg, parse_items, next_item, parse_item}
use redis_exporter.Construct.{new_redis_exporter, constructed}
use redis_exporter.Construct.Configured.{IsConfigured, new_redis_exporter-IsConfigured}
use redis_exporter.Connect.Options.{
  dial_connect_timeout, dial_read_timeout, dial_write_timeout, dial_tls_config, dial_use_tls, Urls,
  dial_username, dial_password, DialOption, configure_options, replace_first, replace_front,
  lookup_password_in_password_map,
}
use redis_exporter.Connect.Dial.{with_scheme}
use redis_exporter.Connect.Password.{last_password, IsEntry, chosen, configure_options-password}
use redis_exporter.Collectors.NodesLaws.{NodeLine}
use redis_exporter.Tls.{
  ClientConfig, HandshakeConfig, ServerConfig, create_server_tls_config, get_config_for_client,
  load_ca_file, load_key_pair,
}
use redis_exporter.Tls.Laws.{handshake, create_server_tls_config-clients}
use redis_exporter.Http.Handlers.{
  scraped, scrape_handler, no_file, failed, reloaded, reload_pwd_file, targets, discover_nodes,
}
use redis_exporter.Http.DiscoverLaws.{
  IsScheme, node_name, IsLine, print_lines, discover_nodes-print,
}
use redis_exporter.Http.ScrapeLaws.{IsAsked, scrape_handler-IsAsked}
use redis_exporter.Http.ReloadLaws.{HasNoFile, HasBadFile, HasFile, reload_pwd_file-passwords}
use redis_exporter.Http.Mux.{new_mux, is_among, new_mux_panics}
use redis_exporter.Examples.Server.{bulk, one_page, sample_options, sample_exporter}
use redis_exporter.Examples.Outside.{No, sample_files, text_urls, dialer_of}

abbrev to_replica : Assoc Bytes
to_replica = (codes "target", codes "replica:6380") ∷ (codes "check-keys", codes "db1=a*") ∷ []

abbrev replica_exporter : Exporter
replica_exporter = record sample_exporter {
  redis_addr = codes "redis://replica:6380";
  options = record sample_options { check_keys = codes "db1=a*" };
}

replica-scraped :
    scrape_handler text_urls sample_exporter to_replica 2 ≡ (scraped replica_exporter, 2)
unfolding scrape_handler new_redis_exporter parse_key_arg parse_items next_item parse_item split
    trim_space query_unescape remove_db parse_int bytes_eq with_scheme contains strip_prefix lookup
replica-scraped = refl

scrape_handler-IsAsked_example :
    (u : Bytes) × (some (with_scheme (codes "replica:6380")) ≡ some u)
    × IsAsked text_urls sample_exporter to_replica u replica_exporter
    × IsConfigured replica_exporter
    × (◌≡◌ {A = ℕ} 2 2)
unfolding lookup bytes_eq
scrape_handler-IsAsked_example =
    scrape_handler-IsAsked text_urls sample_exporter to_replica 2 2 replica_exporter replica-scraped

abbrev first_node : NodeLine
first_node = record {
  id = codes "07c37df";
  ip = codes "127.0.0.1";
  port = codes "30004";
  cport = codes "31004";
  behind = codes ",host";
  rest = codes "master - 0 1426238317239 4 connected 0-5460";
}

first-IsLine : IsLine first_node
first-IsLine = (
  record {
    has_id = (ground arith, omega arith);
    has_ip = (ground arith, omega arith);
    has_port = (ground arith, omega arith);
    has_cport = (ground arith, omega arith);
    no_colon = (omega arith, omega arith);
  },
  omega arith,
)

abbrev plain_client : ClientConfig No No
plain_client = record { insecure_skip_verify = false; certificates = []; root_cas = tt }

-- A server that answers CLUSTER NODES.
abbrev one_node : Redis
one_node = record one_page {
  do_cmd = λ args c. (some (bulk (join 10 (print_lines (first_node ∷ [])))), c);
}

abbrev tls_exporter : Exporter
tls_exporter = record sample_exporter { redis_addr = codes "rediss://localhost:6379" }

tls-IsScheme : IsScheme tls_exporter.redis_addr (codes "rediss://")
tls-IsScheme = inl ((codes "localhost:6379", refl), refl)

discover_nodes-print_example :
    discover_nodes text_urls one_node (dialer_of (some tt)) (some plain_client) tls_exporter tt
    ≡ some (targets (map (λ node. codes "rediss://" ++ node) (map node_name (first_node ∷ []))))
discover_nodes-print_example =
    discover_nodes-print text_urls one_node (dialer_of (some tt)) (some plain_client) tls_exporter
      (codes "rediss://") (first_node ∷ []) tt tls-IsScheme (first-IsLine, tt) refl

abbrev with_file : Exporter
with_file = record sample_exporter {
  options = record sample_options { redis_pwd_file = codes "/etc/passwords.json" };
}

abbrev parsed_file : Bytes → Option (Assoc Bytes)
parsed_file pem = some ((codes "redis://localhost:6379", codes "secret") ∷ [])

reload_pwd_file-passwords_example :
    (HasNoFile (λ path. some []) parsed_file with_file
      × (reload_pwd_file (λ path. some []) parsed_file with_file ≡ (no_file, with_file)))
    ⊎ ((HasBadFile (λ path. some []) parsed_file with_file
          × (reload_pwd_file (λ path. some []) parsed_file with_file ≡ (failed, with_file)))
        ⊎ ((passwords : Assoc Bytes) × HasFile (λ path. some []) parsed_file with_file passwords
            × (reload_pwd_file (λ path. some []) parsed_file with_file ≡ (
              reloaded,
              record with_file { options = record with_file.options { password_map = passwords } },
            ))))
reload_pwd_file-passwords_example =
    reload_pwd_file-passwords (λ path. some []) parsed_file with_file

-- A path is taken unless it is registered.
abbrev takes_new : Bytes → List Bytes → Bool
takes_new pattern registered = not (is_among pattern registered)

abbrev health_options : Options
health_options = record sample_options { metrics_path = codes "/health" }

abbrev health_exporter : Exporter
health_exporter = record sample_exporter { options = health_options }

health-constructed :
    new_redis_exporter (codes "redis://localhost:6379") health_options ≡ constructed health_exporter
unfolding new_redis_exporter parse_key_arg parse_items next_item parse_item split trim_space
    query_unescape remove_db parse_int bytes_eq
health-constructed = refl

same_path : (p : Bytes) → bytes_eq p p ≡ true
same_path p = (bytes_eq_iff p p).1 refl

takes_new-registered :
    (pattern : Bytes) (registered : List Bytes) → takes_new pattern (pattern ∷ registered) ≡ false
takes_new-registered pattern registered = rw (same_path pattern) refl

health_taken :
    is_among (codes "/health") (
      codes "/"
      ∷ codes "/scrape"
      ∷ codes "/discover-cluster-nodes"
      ∷ codes "/health"
      ∷ codes "/-/reload"
      ∷ [])
    ≡ true
unfolding bytes_eq
health_taken = refl

new_mux_panics_example : new_mux takes_new health_exporter ≡ none
new_mux_panics_example =
    new_mux_panics takes_new health_exporter takes_new-registered
      (new_redis_exporter-IsConfigured (codes "redis://localhost:6379") health_options
        health_exporter health-constructed)
      health_taken

-- A configured user, and URLs whose user is written with a solo `:` behind it.
abbrev user_urls : Urls
user_urls = record text_urls {
  set_user = λ name u. codes "redis://" ++ (name ++ (codes ":@" ++ codes "localhost:6379"));
  host = λ u. codes "localhost:6379";
}

abbrev mapped_exporter : Exporter
mapped_exporter = record sample_exporter {
  options = record sample_options {
    user = codes "bob";
    password = codes "plain";
    password_map = (codes "redis://bob@localhost:6379", codes "from-map") ∷ [];
  };
}

abbrev dial_options : List (DialOption No)
dial_options =
    dial_connect_timeout (pos 15000000000)
    ∷ dial_read_timeout (pos 15000000000)
    ∷ dial_write_timeout (pos 15000000000)
    ∷ dial_tls_config tt
    ∷ dial_use_tls false
    ∷ dial_username (codes "bob")
    ∷ dial_password (codes "plain")
    ∷ dial_password (codes "from-map")
    ∷ []

mapped_options :
    configure_options user_urls mapped_exporter (some tt) (codes "redis://localhost:6379")
    ≡ some dial_options
unfolding configure_options lookup_password_in_password_map replace_first replace_front lookup
    bytes_eq has_prefix strip_prefix
mapped_options = refl

mapped-IsEntry :
    IsEntry user_urls mapped_exporter (codes "redis://localhost:6379") (some (codes "from-map"))
unfolding lookup bytes_eq
mapped-IsEntry = inr (
  codes "redis://localhost:6379",
  codes "redis://bob:@localhost:6379",
  codes "redis://bob@localhost:6379",
  refl,
  inr (ground arith, refl),
  inr (codes "redis://bob", [], omega arith, refl, refl),
  refl,
)

configure_options-password_example :
    last_password dial_options ≡ chosen (some (codes "from-map")) (codes "plain")
configure_options-password_example =
    configure_options-password user_urls mapped_exporter (some tt) (codes "redis://localhost:6379")
      (some (codes "from-map")) dial_options mapped-IsEntry mapped_options

abbrev client_handshake : HandshakeConfig No No
client_handshake = record {
  min_version = 0;
  client_auth = true;
  client_cas = some tt;
  get_certificate = λ files. load_key_pair (codes "cert.pem") (codes "key.pem") files;
}

abbrev server_config : ServerConfig No No
server_config = record {
  base = record {
    min_version = 0x0303;
    client_auth = false;
    client_cas = none;
    get_certificate = λ files. load_key_pair (codes "cert.pem") (codes "key.pem") files;
  };
  get_config_for_client =
      some (get_config_for_client (codes "cert.pem") (codes "key.pem") (codes "ca.pem"));
}

server-made :
    create_server_tls_config
      (codes "cert.pem")
      (codes "key.pem")
      (codes "ca.pem")
      (codes "TLS1.2")
      sample_files
    ≡ some server_config
unfolding create_server_tls_config lookup bytes_eq
server-made = refl

client-shaken : handshake server_config sample_files ≡ some client_handshake
unfolding get_config_for_client
client-shaken = refl

create_server_tls_config-clients_example :
    (true ≡ true)
    × (some tt ≡ load_ca_file (codes "ca.pem") sample_files)
    × (load_key_pair (codes "cert.pem") (codes "key.pem") sample_files
        ≡ load_key_pair (codes "cert.pem") (codes "key.pem") sample_files)
    × (◌≡◌ {A = ℕ} 0 0)
create_server_tls_config-clients_example =
    create_server_tls_config-clients (codes "cert.pem") (codes "key.pem") (codes "ca.pem")
      (codes "TLS1.2") sample_files sample_files server_config client_handshake (ground arith)
      server-made client-shaken
