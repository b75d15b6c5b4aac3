-- ===== src/Factory/Roundtrip.antt =====
-- A location that is written out is read back by `_url_specification_to_dict`
-- (src/flockwave/connections/factory.py).
use flockwave_conn.Common.{
  ℕ, Text, codes, text_eq, ◌≡◌, refl, ap, ◌∙◌, Bool, true, false, ◌||◌, some, List, [], ◌∷◌, ◌++◌,
  ◌==◌, ==_iff, arith, All,
}
use flockwave_conn.Common.Results.{ok}
use flockwave_conn.Common.Dict.{insert}
use flockwave_conn.Factory.Create.{Specification}
use flockwave_conn.Factory.Url.{
  UrlLibrary, UrlParts, Value, number, text, split_on, partition, rpartition, specification_of,
  fields_of, url_specification_to_dict, to_dict, with_scheme, with_location,
}

-- `sep in s`
abbrev pub has : ℕ → Text → Bool
has sep [] = false
has sep (c ∷ s) = c == sep || has sep s

-- `sep.join(w, *ws)`
abbrev pub join_with : ℕ → Text → List Text → Text
join_with sep w [] = w
join_with sep w (v ∷ ws) = w ++ sep ∷ join_with sep v ws

self_eq : (c : ℕ) → (c == c) ≡ true
self_eq c = (==_iff c c).1 refl

split_on-one : (sep : ℕ) (w : Text) → has sep w ≡ false → split_on sep w ≡ w ∷ []
unfolding split_on
split_on-one sep [] lacks = refl
split_on-one sep (c ∷ w) lacks = ground (arith, split_on-one sep w)

split_on-append :
    (sep : ℕ) (w s : Text) → has sep w ≡ false → split_on sep (w ++ sep ∷ s) ≡ w ∷ split_on sep s
unfolding split_on
split_on-append sep [] s lacks = rw (self_eq sep)
split_on-append sep (c ∷ w) s lacks = ground (arith, split_on-append sep w s)

split_on-join_with :
    (sep : ℕ) (w : Text) (ws : List Text)
    → has sep w ≡ false
    → All (λ v. has sep v ≡ false) ws
    → split_on sep (join_with sep w ws) ≡ w ∷ ws
split_on-join_with sep w [] lacks h = split_on-one sep w lacks
split_on-join_with sep w (v ∷ ws) lacks h =
    split_on-append sep w (join_with sep v ws) lacks
    ∙ ap (λ l. w ∷ l) (split_on-join_with sep v ws h.0 h.1)

partition-append :
    (sep : ℕ) (a b : Text) → has sep a ≡ false → partition sep (a ++ sep ∷ b) ≡ (a, true, b)
unfolding partition
partition-append sep [] b lacks = rw (self_eq sep)
partition-append sep (c ∷ a) b lacks = ground (arith, partition-append sep a b)

rpartition-none : (sep : ℕ) (b : Text) → has sep b ≡ false → rpartition sep b ≡ ([], false, b)
unfolding rpartition
rpartition-none sep [] lacks = refl
rpartition-none sep (c ∷ b) lacks = ground (arith, rpartition-none sep b)

rpartition-append :
    (sep : ℕ) (a b : Text) → has sep b ≡ false → rpartition sep (a ++ sep ∷ b) ≡ (a, true, b)
unfolding rpartition
rpartition-append sep [] b lacks = rw (rpartition-none sep b lacks, self_eq sep)
rpartition-append sep (c ∷ a) b lacks = rw (rpartition-append sep a b lacks)

-- A text with its first character apart.
abbrev pub whole : ℕ × Text → Text
whole (c, t) = c ∷ t

join_with-cons :
    (sep : ℕ) (w : ℕ × Text) (ws : List Text)
    → (c : ℕ) × (t : Text) × (join_with sep (whole w) ws ≡ c ∷ t)
join_with-cons sep (c, t) [] = (c, t, refl)
join_with-cons sep (c, t) (v ∷ ws) = (c, t ++ sep ∷ join_with sep v ws, refl)

-- A location, of which the first characters of the parts that may not be empty stand by themselves.
pub record Location : Type 0 where
  pub username : ℕ × Text
  pub password : Text
  pub host : ℕ × Text
  pub port : ℕ × Text

-- `username:password@host:port`
abbrev pub print_location : Location → Text
print_location l = (whole l.username ++ 58 ∷ l.password) ++ 64 ∷ (whole l.host ++ 58 ∷ whole l.port)

-- The parts hold no separator that would end them early. The password and the username may hold an
-- `@`, and the password a colon.
pub record IsPlain (l : Location) : Type 0 where
  pub username : has 58 (whole l.username) ≡ false
  pub host : has 58 (whole l.host) ≡ false
  pub location : has 64 (whole l.host ++ 58 ∷ whole l.port) ≡ false

module _ (lib : UrlLibrary) where
  -- The dictionary of a URL with all its parts.
  abbrev pub printed :
      ℕ × Text → List Text → Location → ℕ × Text → lib.Integer → Specification (Value lib)
  printed scheme middleware l path n = record {
    kind = some (whole scheme);
    middleware = some middleware;
    parameters = some [];
    fields =
        (codes "host", text (whole l.host))
        ∷ (codes "port", number n)
        ∷ (codes "path", text (whole path))
        ∷ (codes "username", text (whole l.username))
        ∷ (codes "password", text l.password)
        ∷ [];
  }

  scheme_to_dict :
      (specification : Text) (parts : UrlParts) {scheme : Text}
      → ((c : ℕ) × (t : Text) × (scheme ≡ c ∷ t))
      → parts.scheme ≡ scheme
      → to_dict lib specification parts.scheme parts
        ≡ with_scheme lib parts (rpartition 64 parts.netloc)
  unfolding to_dict
  scheme_to_dict specification parts (c, t, e) same =
      ap (λ s. to_dict lib specification s parts) (same ∙ e)

  located :
      (u : UrlParts) (scheme : ℕ × Text) (middleware : List Text) (l : Location) (path : ℕ × Text)
      (n : lib.Integer)
      → has 43 (whole scheme) ≡ false
      → All (λ v. has 43 v ≡ false) middleware
      → IsPlain l
      → lib.parse_int (whole l.port) ≡ some n
      → u ≡ record {
        scheme = join_with 43 (whole scheme) middleware;
        netloc = print_location l;
        path = whole path;
        query = [];
      }
      → with_location lib u (whole l.username ++ 58 ∷ l.password) (whole l.host, true, whole l.port)
        ≡ ok (printed scheme middleware l path n)
  unfolding with_location specification_of fields_of insert text_eq
  located u scheme middleware l path n one_type names plain is_port parsed =
      let split = split_on-join_with 43 (whole scheme) middleware one_type names in
      let login = partition-append 58 (whole l.username) l.password plain.username in
      rw (parsed, is_port, split, login)

  -- A URL of which the scheme is a type and middleware names joined by plus signs, and the location is
  -- written out as `username:password@host:port`, becomes the dictionary with that type, that middleware
  -- in the same order, and the host, the port as a number, the path, the username and the password. The
  -- names hold no plus sign and the first is not empty; the username, the host and the port are not
  -- empty; the username and the host hold no colon, and the host and the port no at sign; the port is a
  -- number; there is a path and no query; and `urlparse` gives these parts of the URL.
  pub url_roundtrip :
      (specification : Text) (scheme : ℕ × Text) (middleware : List Text) (l : Location)
      (path : ℕ × Text) (n : lib.Integer)
      → has 43 (whole scheme) ≡ false
      → All (λ v. has 43 v ≡ false) middleware
      → IsPlain l
      → lib.parse_int (whole l.port) ≡ some n
      → lib.urlparse specification ≡ record {
        scheme = join_with 43 (whole scheme) middleware;
        netloc = print_location l;
        path = whole path;
        query = [];
      }
      → url_specification_to_dict lib specification ≡ ok (printed scheme middleware l path n)
  unfolding url_specification_to_dict
  url_roundtrip specification scheme middleware l path n one_type names plain is_port parsed =
      let authority = whole l.username ++ 58 ∷ l.password in
      let place =
        rpartition-append 64 authority (whole l.host ++ 58 ∷ whole l.port) plain.location in
      let parts = partition-append 58 (whole l.host) (whole l.port) plain.host in
      let u = lib.urlparse specification in
      scheme_to_dict specification u (join_with-cons 43 scheme middleware)
        (ap UrlParts.scheme parsed)
      ∙ ap (λ t. with_scheme lib u (rpartition 64 t)) (ap UrlParts.netloc parsed)
      ∙ ap (with_scheme lib u) place
      ∙ ap (with_location lib u authority) parts
      ∙ located u scheme middleware l path n one_type names plain is_port parsed
