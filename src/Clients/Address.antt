-- ===== src/Clients/Address.antt =====
-- The address of a client: the port is behind the last colon, whatever the host holds.
use redis_exporter.Base.{◌≡◌, ◌≢◌, refl, ap, some, List, [], ◌∷◌, ◌++◌, Bytes}
use redis_exporter.Text.Split.{split, Lacks, join-split, split-snoc, split-ne-nil}
use redis_exporter.Clients.Parse.{ClientInfo, last_of, host_and_port, set_address}

last_of-append :
    (p : Bytes) (ps : List Bytes) (port : Bytes) → last_of p (ps ++ port ∷ []) ≡ (p ∷ ps, port)
unfolding last_of
last_of-append p [] port = refl
last_of-append p (q ∷ ps) port = rw (last_of-append q ps port)

host_and_port-append :
    (ps : List Bytes) (port : Bytes) → ps ≢ [] → host_and_port (ps ++ port ∷ []) ≡ some (ps, port)
unfolding host_and_port
host_and_port-append [] port h = absurd (h refl)
host_and_port-append (p ∷ []) port h = ap some (last_of-append p [] port)
host_and_port-append (p ∷ q ∷ ps) port h = ap some (last_of-append p (q ∷ ps) port)

-- The port of a client is the text behind the last colon of its address, and the host, also an
-- IPv6 one, is the text before it: both are read back from `host:port` for a port without a colon,
-- and nothing else of the client changes.
pub set_address-print :
    (host port : Bytes) (client : ClientInfo)
    → Lacks b':' port
    → set_address (host ++ b':' ∷ port) client ≡ some (record client { host = host; port = port })
unfolding set_address
set_address-print host port client h =
    rw
      (
        split-snoc b':' host port h,
        host_and_port-append (split b':' host) port (split-ne-nil b':' host),
      )
      (ap (λ x. some (record client { host = x; port = port })) (join-split b':' host))
