-- ===== src/Examples/Targets.antt =====
-- A target with a password, read by a parser of URLs that knows a scheme, a user and a host.
use redis_exporter.Base.{
  ◌≡◌, refl, Option, none, some, [], ◌∷◌, ◌++◌, Bytes, codes, bytes_eq, strip_prefix, contains,
  arith,
}
use redis_exporter.Text.Split.{cut}
use redis_exporter.Connect.Options.{Urls}
use redis_exporter.Connect.Dial.{with_scheme}
use redis_exporter.Http.Handlers.{scrape_reply}
use redis_exporter.Http.ScrapeLaws.{scrape_reply-password}
use redis_exporter.Examples.Server.{sample_exporter}

record Target : Type 0 where
  user : Option Bytes
  password : Bytes
  address : Bytes

abbrev user_of : Bytes → Bytes → Target
user_of info address = elim (cut b':' info) [
  | some (name, pwd) ↦ record { user = some name; password = pwd; address = address }
  | none ↦ record { user = some info; password = []; address = address }
]

abbrev parse_target : Bytes → Option Target
parse_target s = elim (strip_prefix (codes "redis://") s) [
  | none ↦ none
  | some rest ↦ elim (cut b'@' rest) [
    | some (info, address) ↦ some (user_of info address)
    | none ↦ some (record { user = none; password = []; address = rest })
  ]
]

abbrev target_urls : Urls
target_urls = record {
  Url = Target;
  parse = parse_target;
  set_user = λ name u. record u { user = some name; password = [] };
  clear_user = λ u. record u { user = none; password = [] };
  user_name = λ u. u.user;
  to_string = λ u. codes "redis://" ++ u.address;
  host = λ u. u.address;
  port = λ u. [];
}

abbrev target_for : Bytes → Target
target_for password = record {
  user = some (codes "bob");
  password = password;
  address = codes "replica:6380";
}

parsed_first :
    parse_target (with_scheme (codes "bob:secret@replica:6380"))
    ≡ some (target_for (codes "secret"))
unfolding with_scheme contains strip_prefix bytes_eq cut
parsed_first = refl

parsed_second :
    parse_target (with_scheme (codes "bob:guess@replica:6380")) ≡ some (target_for (codes "guess"))
unfolding with_scheme contains strip_prefix bytes_eq cut
parsed_second = refl

scrape_reply-password_example :
    scrape_reply target_urls sample_exporter
      ((codes "target", codes "bob:secret@replica:6380") ∷ [])
    ≡ scrape_reply target_urls sample_exporter
        ((codes "target", codes "bob:guess@replica:6380") ∷ [])
scrape_reply-password_example =
    scrape_reply-password target_urls sample_exporter (codes "bob:secret@replica:6380")
      (codes "bob:guess@replica:6380") (codes "bob") [] (target_for (codes "secret"))
      (target_for (codes "guess")) (ground arith) (ground arith) parsed_first parsed_second refl
      refl refl
