-- ===== src/Factory/Url.antt =====
-- `_url_specification_to_dict` of src/flockwave/connections/factory.py. `urlparse`, `parse_qs` and `int`
-- of the standard library are a record parameter; `split`, `partition` and `rpartition` on one character
-- are written out.
use flockwave_conn.Common.{
  ℕ, Text, codes, Bool, true, false, Option, none, some, List, [], ◌∷◌, ◌==◌, if◌then◌else◌,
}
use flockwave_conn.Common.Results.{Fallible, ok, err, ◌>>=◌, or_raise}
use flockwave_conn.Common.Dict.{Dict, insert}
use flockwave_conn.Factory.Create.{Specification}

-- The ValueError of a port that is no number, and that of a parameter that is given twice.
pub data UrlError : Type 0 where
  invalid_port repeated_parameter : UrlError

abbrev pub Result {ℓ} : Type ℓ → Type ℓ
Result A = Fallible UrlError A

pub record UrlParts : Type 0 where
  pub scheme : Text
  pub netloc : Text
  pub path : Text
  pub query : Text

pub record UrlLibrary : Type 1 where
  pub Integer : Type 0
  pub urlparse : Text → UrlParts
  -- each key with its values, of which there is one at least: the first, and the others
  pub parse_qs : Text → List (Text × Text × List Text)
  pub parse_int : Text → Option Integer

-- `s.split(c)`
abbrev to_first : ℕ → List Text → List Text
to_first c [] = (c ∷ []) ∷ []
to_first c (w ∷ ws) = (c ∷ w) ∷ ws

unfoldable pub split_on : ℕ → Text → List Text
split_on sep [] = [] ∷ []
split_on sep (c ∷ s) = if c == sep then [] ∷ split_on sep s else to_first c (split_on sep s)

-- `s.partition(c)`: what is before the first `c`, whether there is one, and what is behind it.
abbrev before : ℕ → Text × Bool × Text → Text × Bool × Text
before c (a, found, b) = (c ∷ a, found, b)

unfoldable pub partition : ℕ → Text → Text × Bool × Text
partition sep [] = ([], false, [])
partition sep (c ∷ s) =
    let rest = before c (partition sep s) in if c == sep then ([], true, s) else rest

-- `s.rpartition(c)`: with no `c` in it, the text is the last part.
abbrev from_right : ℕ → ℕ → Text → Text × Bool × Text → Text × Bool × Text
from_right sep c s (a, true, b) = (c ∷ a, true, b)
from_right sep c s (a, false, b) = if c == sep then ([], true, s) else ([], false, c ∷ s)

unfoldable pub rpartition : ℕ → Text → Text × Bool × Text
rpartition sep [] = ([], false, [])
rpartition sep (c ∷ s) = from_right sep c s (rpartition sep s)

module _ (lib : UrlLibrary) where
  open lib use {Integer, urlparse, parse_qs, parse_int}

  pub data Value : Type 0 where
    number : Integer → Value
    text : Text → Value

  unfoldable pub parse_port : Text → Result (Option Integer)
  parse_port [] = ok none
  parse_port (c ∷ s) = do n ← or_raise (parse_int (c ∷ s)) invalid_port; ok (some n)

  value_of : Option Integer → Text → Value
  value_of none t = text t
  value_of (some n) t = number n

  parameter : Text → List Text → Result Value
  unfolding value_of
  parameter v [] = ok (value_of (parse_int v) v)
  parameter v (_ ∷ _) = err repeated_parameter

  parse_parameters : List (Text × Text × List Text) → Dict Value → Result (Dict Value)
  unfolding parameter
  parse_parameters [] params = ok params
  parse_parameters ((k, v, more) ∷ raw) params = do
    value ← parameter v more
    parse_parameters raw (insert k value params)

  raw_parameters : Text → List (Text × Text × List Text)
  raw_parameters [] = []
  raw_parameters (c ∷ s) = parse_qs (c ∷ s)

  -- `if t: result[name] = t`
  unfoldable pub add_text : Text → Text → Dict Value → Dict Value
  add_text name [] d = d
  add_text name (c ∷ t) d = insert name (text (c ∷ t)) d

  unfoldable pub add_port : Option Integer → Dict Value → Dict Value
  add_port none d = d
  add_port (some n) d = insert (codes "port") (number n) d

  add_password : Text × Bool × Text → Dict Value → Dict Value
  add_password (username, sep, password) d =
      let d' = insert (codes "username") (text username) d in
      if sep then insert (codes "password") (text password) d' else d'

  unfoldable pub add_auth : Text → Dict Value → Dict Value
  unfolding add_password
  add_auth [] d = d
  add_auth (c ∷ auth) d = add_password (partition 58 (c ∷ auth)) d

  head_of : List Text → Text
  head_of [] = []
  head_of (w ∷ ws) = w

  tail_of : List Text → List Text
  tail_of [] = []
  tail_of (w ∷ ws) = ws

  -- `base_type, *middleware = ...split("+")`, with the parameters and the other fields
  unfoldable pub specification_of : Text → Option (Dict Value) → Dict Value → Specification Value
  unfolding head_of tail_of
  specification_of scheme params fields = record {
    kind = some (head_of (split_on 43 scheme));
    middleware = some (tail_of (split_on 43 scheme));
    parameters = params;
    fields = fields;
  }

  -- The fields, in the order in which they are put into the result.
  unfoldable pub fields_of : UrlParts → Text → Text → Option Integer → Dict Value
  unfolding add_auth add_text add_port
  fields_of parts auth host port =
      add_auth auth
        (add_text (codes "path") parts.path (add_port port (add_text (codes "host") host [])))

  unfoldable pub with_location : UrlParts → Text → Text × Bool × Text → Result (Specification Value)
  unfolding parse_port parse_parameters raw_parameters
  with_location parts auth (host, sep, port_text) = do
    port ← parse_port port_text
    params ← parse_parameters (raw_parameters parts.query) []
    ok (specification_of parts.scheme (some params) (fields_of parts auth host port))

  unfoldable pub with_scheme : UrlParts → Text × Bool × Text → Result (Specification Value)
  unfolding with_location
  with_scheme parts (auth, sep, host_and_port) =
      with_location parts auth (partition 58 host_and_port)

  unfoldable pub to_dict : Text → Text → UrlParts → Result (Specification Value)
  unfolding with_scheme
  to_dict specification [] parts = ok (specification_of specification none [])
  to_dict specification (c ∷ s) parts = with_scheme parts (rpartition 64 parts.netloc)

  unfoldable pub url_specification_to_dict : Text → Result (Specification Value)
  unfolding to_dict
  url_specification_to_dict specification =
      to_dict specification (urlparse specification).scheme (urlparse specification)
