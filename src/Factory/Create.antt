-- ===== src/Factory/Create.antt =====
-- `Factory.create` of src/flockwave/connections/factory.py, on a specification in dictionary form.
use flockwave_conn.Common.{Text, codes, Option, none, some, List, [], ◌∷◌}
use flockwave_conn.Common.Dict.{Dict, lookup, insert, update}
use flockwave_conn.Factory.Registry.{
  unknown_connection_type, unknown_middleware_type, key_error, Result, ok, ◌>>=◌, or_raise,
  Middleware, Factory,
}

-- The keys of the dictionary that `create` reads. `fields` holds the other ones, among which are
-- `host`, `port`, `path`, `username` and `password`.
pub record Specification (V : Type 0) : Type 0 where
  pub kind : Option Text
  pub middleware : Option (List Text)
  pub parameters : Option (Dict V)
  pub fields : Dict V

abbrev pub get_or {ℓ} : {A : Type ℓ} → Option A → A → A
get_or none d = d
get_or (some a) d = a

module _ {T : Type 0} where
  -- The loop that looks the middleware up.
  unfoldable pub find_middleware : Dict (Middleware T) → List Text → Result (List (Middleware T))
  find_middleware reg [] = ok []
  find_middleware reg (name ∷ names) = do
    mw ← or_raise (lookup name reg) (unknown_middleware_type name)
    rest ← find_middleware reg names
    ok (mw ∷ rest)

  -- The loop that wraps the result.
  unfoldable pub wrap : List (Middleware T) → T → Result T
  wrap [] t = ok t
  wrap (mw ∷ rest) t = do t' ← mw t; wrap rest t'

abbrev pub parameter_names : List Text
parameter_names =
    codes "host" ∷ codes "port" ∷ codes "path" ∷ codes "username" ∷ codes "password" ∷ []

module _ {V : Type 0} where
  copy_field : Text → Option V → Dict V → Dict V
  copy_field name none params = params
  copy_field name (some v) params = insert name v params

  -- `for name in (...): if name in specification: parameters[name] = specification[name]`
  unfoldable pub copy_fields : List Text → Dict V → Dict V → Dict V
  unfolding copy_field
  copy_fields [] fields params = params
  copy_fields (name ∷ names) fields params =
      copy_fields names fields (copy_field name (lookup name fields) params)

  unfoldable pub keyword_arguments : Specification V → Dict V
  unfolding copy_fields
  keyword_arguments spec =
      update (copy_fields parameter_names spec.fields []) (get_or spec.parameters [])

module _ {V T : Type 0} where
  unfoldable pub create : Factory V T → Specification V → Result T
  create f spec = do
    kind ← or_raise spec.kind (key_error (codes "type"))
    func ← or_raise (lookup kind f.registry) (unknown_connection_type kind)
    middleware ← find_middleware f.middleware_registry (get_or spec.middleware [])
    base ← func (keyword_arguments spec)
    wrap middleware base
