-- ===== src/Factory/Registry.antt =====
-- `Factory` of src/flockwave/connections/factory.py: its two dictionaries, and the methods that
-- change them. What is registered is called with a dictionary of keyword arguments and returns an
-- object or raises; a middleware takes an object and returns another or raises. `V` is the type of
-- the argument values and `T` that of the objects.
use flockwave_conn.Common.Results.{Fallible}
pub use flockwave_conn.Common.Results.{err, ok, ◌>>=◌, or_raise, Result-cases}
use flockwave_conn.Common.{Text, Option, none, some, [], ◌≡◌}
use flockwave_conn.Common.Dict.{Dict, lookup, insert, erase}

pub data Error : Type 0 where
  unknown_connection_type unknown_middleware_type key_error : Text → Error
  -- whatever the registered code raises
  foreign : Text → Error

abbrev pub Result {ℓ} : Type ℓ → Type ℓ
Result A = Fallible Error A

abbrev pub Klass : Type 0 → Type 0 → Type 0
Klass V T = Dict V → Result T

abbrev pub Middleware : Type 0 → Type 0
Middleware T = T → Result T

module _ (V T : Type 0) where
  pub record Factory : Type 0 where
    pub registry : Dict (Klass V T)
    pub middleware_registry : Dict (Middleware T)

-- What `register` returns: the class that it was given, or a decorator that waits for one.
pub data Registered (K : Type 0) : Type 0 where
  klass : K → Registered K
  decorator : Text → Registered K

module _ {V T : Type 0} where
  abbrev pub new_factory : Factory V T
  new_factory = record { registry = []; middleware_registry = [] }

  unfoldable pub register :
      Text → Option (Klass V T) → Factory V T → Registered (Klass V T) × Factory V T
  register name none f = (decorator name, f)
  register name (some k) f = (klass k, record f { registry = insert name k f.registry })

  unfoldable pub register_middleware :
      Text → Option (Middleware T) → Factory V T → Registered (Middleware T) × Factory V T
  register_middleware name none f = (decorator name, f)
  register_middleware name (some m) f =
      (klass m, record f { middleware_registry = insert name m f.middleware_registry })

  -- `del self._registry[name]`
  unfoldable pub unregister : Text → Factory V T → Result (Unit {0}) × Factory V T
  unregister name f = elim (lookup name f.registry) [
    | none ↦ (err (key_error name), f)
    | some _ ↦ (ok tt, record f { registry = erase name f.registry })
  ]

  unfoldable pub unregister_middleware : Text → Factory V T → Result (Unit {0}) × Factory V T
  unregister_middleware name f = elim (lookup name f.middleware_registry) [
    | none ↦ (err (key_error name), f)
    | some _ ↦ (ok tt, record f { middleware_registry = erase name f.middleware_registry })
  ]

  pub unregister-known :
      (name : Text) (f : Factory V T) {k : Klass V T}
      → lookup name f.registry ≡ some k
      → unregister name f ≡ (ok tt, record f { registry = erase name f.registry })
  unfolding unregister
  unregister-known name f known = rw (known, unregister)

  pub unregister-missing :
      (name : Text) (f : Factory V T)
      → lookup name f.registry ≡ none
      → unregister name f ≡ (err (key_error name), f)
  unfolding unregister
  unregister-missing name f missing = rw (missing, unregister)
