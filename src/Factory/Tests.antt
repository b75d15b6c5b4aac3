-- ===== src/Factory/Tests.antt =====
-- A factory whose objects are numbers: the class `udp` gives 1, the middleware `twice` doubles.
use flockwave_conn.Common.{
  ℕ, ◌+◌, Text, codes, text_eq, ◌≡◌, refl, none, some, [], ◌∷◌, ◌++◌, if◌then◌else◌,
}
use flockwave_conn.Common.Dict.{lookup, insert, erase}
use flockwave_conn.Factory.Registry.{ok, ◌>>=◌, Klass, Middleware, Factory, register, unregister}
use flockwave_conn.Factory.Create.{Specification, keyword_arguments, create, find_middleware, wrap}
use flockwave_conn.Factory.Laws.{create_with, create-append}
use flockwave_conn.Factory.Url.{UrlLibrary, url_specification_to_dict}
use flockwave_conn.Factory.Roundtrip.{Location, printed, url_roundtrip}
use flockwave_conn.Factory.Use.{use_class, use_class_restores}

abbrev udp : Klass ℕ ℕ
udp d = ok 1

abbrev other_udp : Klass ℕ ℕ
other_udp d = ok 2

abbrev twice : Middleware ℕ
twice n = ok (n + n)

abbrev factory : Factory ℕ ℕ
factory = record {
  registry = (codes "udp", udp) ∷ [];
  middleware_registry = (codes "twice", twice) ∷ [];
}

abbrev spec : Specification ℕ
spec = record {
  kind = some (codes "udp");
  middleware = none;
  parameters = some ((codes "port", 4242) ∷ []);
  fields = (codes "port", 80) ∷ (codes "color", 3) ∷ [];
}

created : create_with factory spec (codes "twice" ∷ codes "twice" ∷ []) ≡ ok 4
unfolding create find_middleware keyword_arguments wrap lookup text_eq
created = refl

create-append_example :
    create_with factory spec (codes "twice" ∷ [] ++ codes "twice" ∷ [])
    ≡ (create_with factory spec (codes "twice" ∷ []) >>= twice)
unfolding lookup text_eq
create-append_example = create-append factory spec (codes "twice" ∷ []) (codes "twice") twice refl

twice_found : find_middleware factory.middleware_registry (codes "twice" ∷ []) ≡ ok (twice ∷ [])
unfolding find_middleware lookup text_eq
twice_found = refl

abbrev remove_udp : Factory ℕ ℕ → Factory ℕ ℕ
remove_udp f = (unregister (codes "udp") f).1

abbrev add_tcp : Factory ℕ ℕ → Factory ℕ ℕ
add_tcp f = (register (codes "tcp") (some udp) f).1

tcp_keeps_udp :
    lookup (codes "udp") (add_tcp (register (codes "udp") (some other_udp) factory).1).registry
    ≡ some other_udp
unfolding register lookup text_eq insert
tcp_keeps_udp = refl

use_class_restores_example :
    let (r, f') = use_class other_udp (codes "udp") add_tcp factory in
    let after = add_tcp (register (codes "udp") (some other_udp) factory).1 in
    (r ≡ ok tt)
    × ((j : Text)
        → lookup j f'.registry ≡ (
            if text_eq (codes "udp") j
            then lookup (codes "udp") factory.registry
            else lookup j after.registry))
    × (f'.middleware_registry ≡ after.middleware_registry)
use_class_restores_example =
    use_class_restores other_udp (codes "udp") add_tcp factory other_udp tcp_keeps_udp

udp_removed :
    lookup (codes "udp") (remove_udp (register (codes "udp") (some other_udp) factory).1).registry
    ≡ none
unfolding register unregister lookup text_eq insert erase
udp_removed = refl

-- A library that gives one URL its parts, and reads every port as 80.
abbrev library : UrlLibrary
library = record {
  Integer = ℕ;
  urlparse = λ t. record {
    scheme = codes "tcp+log";
    netloc = codes "me:pw@host:80";
    path = codes "/dev";
    query = [];
  };
  parse_qs = λ t. [];
  parse_int = λ t. some 80;
}

abbrev location : Location
location = record {
  username = (b'm', codes "e");
  password = codes "pw";
  host = (b'h', codes "ost");
  port = (b'8', codes "0");
}

url_roundtrip_example :
    url_specification_to_dict library (codes "tcp+log://me:pw@host:80/dev")
    ≡ ok (printed library (b't', codes "cp") (codes "log" ∷ []) location (b'/', codes "dev") 80)
url_roundtrip_example =
    url_roundtrip library (codes "tcp+log://me:pw@host:80/dev") (b't', codes "cp")
      (codes "log" ∷ []) location (b'/', codes "dev") 80 refl (refl, tt)
      (record { username = refl; host = refl; location = refl }) refl refl
