-- ===== src/Factory/Use.antt =====
-- The context managers `use` and `use_middleware` of src/flockwave/connections/factory.py, around a
-- body that may change the factory in any way, and the registration of the built-in middleware.
use flockwave_conn.Common.{
  Text, codes, ◌≡◌, refl, Option, none, some, arith, text_eq, text_eq_iff, if◌then◌else◌,
}
use flockwave_conn.Common.Dict.{lookup, erase, lookup-insert, lookup-erase}
use flockwave_conn.Factory.Registry.{
  key_error, Result, ok, err, Klass, Middleware, Factory, register, register_middleware, unregister,
  unregister_middleware, unregister-known, unregister-missing,
}

module _ {V T : Type 0} where
  -- `if old_klass is not None: self.register(name, old_klass)`
  restore : Text → Option (Klass V T) → Factory V T → Factory V T
  restore name none f = f
  restore name (some k) f = (register name (some k) f).1

  -- What follows `self.unregister(name)`, which may raise.
  finish :
      Text → Option (Klass V T) → Result (Unit {0}) × Factory V T → Result (Unit {0}) × Factory V T
  finish name old (ok _, f) = (ok tt, restore name old f)
  finish name old (err e, f) = (err e, f)

  -- The `finally` block of `use`.
  leave : Text → Option (Klass V T) → Factory V T → Result (Unit {0}) × Factory V T
  unfolding restore finish
  leave name old f = finish name old (unregister name f)

  -- `with factory.use(klass, name): body`
  unfoldable pub use_class :
      Klass V T → Text → (Factory V T → Factory V T) → Factory V T → Result (Unit {0}) × Factory V T
  unfolding leave
  use_class k name body f = leave name (lookup name f.registry) (body (register name (some k) f).1)

  restore_middleware : Text → Option (Middleware T) → Factory V T → Factory V T
  restore_middleware name none f = f
  restore_middleware name (some m) f = (register_middleware name (some m) f).1

  finish_middleware :
      Text
      → Option (Middleware T)
      → Result (Unit {0}) × Factory V T
      → Result (Unit {0}) × Factory V T
  finish_middleware name old (ok _, f) = (ok tt, restore_middleware name old f)
  finish_middleware name old (err e, f) = (err e, f)

  leave_middleware : Text → Option (Middleware T) → Factory V T → Result (Unit {0}) × Factory V T
  unfolding restore_middleware finish_middleware
  leave_middleware name old f = finish_middleware name old (unregister_middleware name f)

  -- `with factory.use_middleware(klass, name): body`
  unfoldable pub use_middleware :
      Middleware T
      → Text
      → (Factory V T → Factory V T)
      → Factory V T
      → Result (Unit {0}) × Factory V T
  unfolding leave_middleware
  use_middleware m name body f =
      leave_middleware name (lookup name f.middleware_registry)
        (body (register_middleware name (some m) f).1)

  -- `register_builtin_middleware`; the three classes are arguments.
  unfoldable pub register_builtin_middleware :
      Middleware T → Middleware T → Middleware T → Factory V T → Factory V T
  register_builtin_middleware logging read_only write_only f =
      let f₁ = (register_middleware (codes "log") (some logging) f).1 in
      let f₂ = (register_middleware (codes "rd") (some read_only) f₁).1 in
      (register_middleware (codes "wr") (some write_only) f₂).1

  -- What `leave` makes of the factory that the body left.
  abbrev Restored :
      Text → Option (Klass V T) → Factory V T → Result (Unit {0}) × Factory V T → Type 0
  Restored name old after (r, f') =
      (r ≡ ok tt)
      × ((j : Text)
          → lookup j f'.registry ≡ (if text_eq name j then old else lookup j after.registry))
      × (f'.middleware_registry ≡ after.middleware_registry)

  leave-Restored :
      (name : Text) (old : Option (Klass V T)) (after : Factory V T) (k' : Klass V T)
      → lookup name after.registry ≡ some k'
      → Restored name old after (leave name old after)
  unfolding leave register
  leave-Restored name none after k' kept =
      rw (unregister-known name after kept, leave)
        (refl, λ j. lookup-erase j name after.registry, refl)
  leave-Restored name (some k) after k' kept =
      rw (unregister-known name after kept, leave)
        (
          refl,
          λ j. ground (
            arith,
            lookup-insert j name k (erase name after.registry),
            lookup-erase j name after.registry,
            text_eq_iff name j,
          ),
          refl,
        )

  leave_gone :
      (name : Text) (old : Option (Klass V T)) (after : Factory V T)
      → lookup name after.registry ≡ none
      → leave name old after ≡ (err (key_error name), after)
  unfolding leave
  leave_gone name old after gone = rw (unregister-missing name after gone, leave)

  -- After `use` around a body that leaves something registered under the name, no error is raised,
  -- the name has what it had before, every other name what the body left there, and the middleware
  -- is what the body left.
  pub use_class_restores :
      (k : Klass V T) (name : Text) (body : Factory V T → Factory V T) (f : Factory V T)
      (k' : Klass V T)
      → lookup name (body (register name (some k) f).1).registry ≡ some k'
      → let (r, f') = use_class k name body f in
        let after = body (register name (some k) f).1 in
        (r ≡ ok tt)
        × ((j : Text)
            → lookup j f'.registry
              ≡ (if text_eq name j then lookup name f.registry else lookup j after.registry))
        × (f'.middleware_registry ≡ after.middleware_registry)
  unfolding use_class
  use_class_restores k name body f k' kept =
      leave-Restored name (lookup name f.registry) (body (register name (some k) f).1) k' kept

  -- When the body has unregistered the name, leaving `use` raises a KeyError and changes nothing
  -- more: the name has no class, whatever was registered before.
  use_class_loses :
      (k : Klass V T) (name : Text) (body : Factory V T → Factory V T) (f : Factory V T)
      → lookup name (body (register name (some k) f).1).registry ≡ none
      → use_class k name body f ≡ (err (key_error name), body (register name (some k) f).1)
  unfolding use_class
  use_class_loses k name body f gone =
      leave_gone name (lookup name f.registry) (body (register name (some k) f).1) gone
