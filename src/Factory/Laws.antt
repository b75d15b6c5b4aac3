-- ===== src/Factory/Laws.antt =====
-- What `create` builds: the arguments that it passes on, the wrapping, and the errors.
use flockwave_conn.Common.{
  Text, ◌≡◌, refl, ap, ◌∙◌, fun_ext, Bool, false, Option, none, some, List, [], ◌∷◌, ◌++◌, arith,
  ◌||◌, text_eq, text_eq_iff, if◌then◌else◌, Option-cases, inl, inr,
}
use flockwave_conn.Common.Dict.{
  Dict, lookup, insert, lookup-update, lookup-insert, NodupKeys, or_else, lookup-nil,
}
use flockwave_conn.Factory.Registry.{
  unknown_middleware_type, Result, ok, err, ◌>>=◌, or_raise, Klass, Middleware, Factory,
  Result-cases,
}
use flockwave_conn.Factory.Create.{
  Specification, get_or, find_middleware, wrap, parameter_names, copy_fields, keyword_arguments,
  create,
}

-- `name in names`
abbrev pub among : Text → List Text → Bool
among k [] = false
among k (name ∷ names) = text_eq name k || among k names

module _ {V : Type 0} where
  lookup-copy_fields :
      (k : Text) (names : List Text) (fields params : Dict V)
      → lookup k (copy_fields names fields params)
        ≡ (if among k names then or_else (lookup k fields) (lookup k params) else lookup k params)
  unfolding copy_fields
  lookup-copy_fields k [] fields params = refl
  lookup-copy_fields k (name ∷ names) fields params = elim (Option-cases (lookup name fields)) [
    | inl missing ↦
        rw missing
          (ground (arith, missing, text_eq_iff name k, lookup-copy_fields k names fields params))
    | inr (v, found) ↦ rw found (
        ground (
          arith,
          found,
          text_eq_iff name k,
          lookup-copy_fields k names fields (insert name v params),
          lookup-insert k name v params,
        ))
  ]

  -- The keyword argument of a name is the entry of `parameters`, if it has one; otherwise it is the
  -- entry of the specification, for the names `host`, `port`, `path`, `username` and `password`; and
  -- there is none for any other name.
  lookup-keyword_arguments :
      (k : Text) (spec : Specification V)
      → NodupKeys (get_or spec.parameters [])
      → lookup k (keyword_arguments spec)
        ≡ or_else
            (lookup k (get_or spec.parameters []))
            (if among k parameter_names then lookup k spec.fields else none)
  unfolding keyword_arguments
  lookup-keyword_arguments k spec nodup =
      rw
        (lookup-update k (copy_fields parameter_names spec.fields []) (get_or spec.parameters [])
          nodup)
        (ap (or_else (lookup k (get_or spec.parameters []))) (
          ground
            (arith, lookup-copy_fields k parameter_names spec.fields [], lookup-nil {V = V} k)))

module _ {T : Type 0} where
  find_middleware-append :
      (reg : Dict (Middleware T)) (xs ys : List Text)
      → find_middleware reg (xs ++ ys)
        ≡ (do a ← find_middleware reg xs; b ← find_middleware reg ys; ok (a ++ b))
  unfolding find_middleware
  find_middleware-append reg [] ys = elim (Result-cases (find_middleware reg ys)) [
    | inl (b, e) ↦ rw e
    | inr (b, e) ↦ rw e
  ]
  find_middleware-append reg (x ∷ xs) ys =
      elim (Result-cases (or_raise (lookup x reg) (unknown_middleware_type x))) [
        | inl (mw, e) ↦
            rw (e, find_middleware-append reg xs ys)
              (elim (Result-cases (find_middleware reg xs)) [
                | inl (a, ea) ↦ rw ea (elim (Result-cases (find_middleware reg ys)) [
                  | inl (b, eb) ↦ rw eb
                  | inr (b, eb) ↦ rw eb
                ])
                | inr (a, ea) ↦ rw ea
              ])
        | inr (x', e) ↦ rw e
      ]

  wrap-append : (xs ys : List (Middleware T)) (t : T) → wrap (xs ++ ys) t ≡ (wrap xs t >>= wrap ys)
  unfolding wrap
  wrap-append [] ys t = refl
  wrap-append (mw ∷ xs) ys t = elim (Result-cases (mw t)) [
    | inl (t', e) ↦ rw e (wrap-append xs ys t')
    | inr (x, e) ↦ rw e
  ]

  wrap-one : (mw : Middleware T) (t : T) → wrap (mw ∷ []) t ≡ mw t
  unfolding wrap
  wrap-one mw t = elim (Result-cases (mw t)) [ inl (t', e) ↦ rw e | inr (x, e) ↦ rw e ]

  find_middleware-known :
      (reg : Dict (Middleware T)) (name : Text) (mw : Middleware T)
      → lookup name reg ≡ some mw
      → find_middleware reg (name ∷ []) ≡ ok (mw ∷ [])
  unfolding find_middleware
  find_middleware-known reg name mw found = rw found

  find_middleware-unknown :
      (reg : Dict (Middleware T)) (name : Text) (rest : List Text)
      → lookup name reg ≡ none
      → find_middleware reg (name ∷ rest) ≡ err (unknown_middleware_type name)
  unfolding find_middleware
  find_middleware-unknown reg name rest missing = rw missing

  wrap-append_one :
      (found : List (Middleware T)) (mw : Middleware T) (t : T)
      → wrap (found ++ mw ∷ []) t ≡ (wrap found t >>= mw)
  wrap-append_one found mw t =
      wrap-append found (mw ∷ []) t ∙ ap (λ g. wrap found t >>= g) (fun_ext (wrap-one mw))

keyword_arguments-middleware :
    {V : Type 0} (spec : Specification V) (m : Option (List Text))
    → keyword_arguments (record spec { middleware = m }) ≡ keyword_arguments spec
unfolding keyword_arguments
keyword_arguments-middleware spec m = refl

module _ {V T : Type 0} (f : Factory V T) (spec : Specification V) where
  -- `create` for another list of middleware
  abbrev pub create_with : List Text → Result T
  create_with names = create f (record spec { middleware = some names })

  -- One more middleware at the end of the list, under a name that is registered, wraps the object
  -- that the shorter list gives; where the shorter list raises, the longer one raises the same error.
  pub create-append :
      (names : List Text) (name : Text) (mw : Middleware T)
      → lookup name f.middleware_registry ≡ some mw
      → create_with (names ++ name ∷ []) ≡ (create_with names >>= mw)
  unfolding create find_middleware keyword_arguments wrap
  create-append names name mw found = elim (Option-cases spec.kind) [
    | inl e ↦ simp e
    | inr (kind, e) ↦ simp e (elim (Option-cases (lookup kind f.registry)) [
      | inl missing ↦ rw missing
      | inr (func, known) ↦
          rw
            (
              known,
              find_middleware-append f.middleware_registry names (name ∷ []),
              find_middleware-known f.middleware_registry name mw found,
            )
            (simp keyword_arguments-middleware
              (elim (Result-cases (find_middleware f.middleware_registry names)) [
                | inl (found_mw, em) ↦ rw em (elim (Result-cases (func (keyword_arguments spec))) [
                  | inl (t, et) ↦ rw et (wrap-append_one found_mw mw t)
                  | inr (x, ex) ↦ rw ex
                ])
                | inr (x, ex) ↦ rw ex
              ]))
    ])
  ]

  -- A middleware that is not registered, behind ones that are, makes `create` raise before anything is
  -- built: the error is the same whatever the class does.
  create_unknown_middleware :
      (kind : Text) (func : Klass V T) (names rest : List Text) (found : List (Middleware T))
      (name : Text)
      → spec.kind ≡ some kind
      → lookup kind f.registry ≡ some func
      → find_middleware f.middleware_registry names ≡ ok found
      → lookup name f.middleware_registry ≡ none
      → create_with (names ++ name ∷ rest) ≡ err (unknown_middleware_type name)
  unfolding create
  create_unknown_middleware kind func names rest found name ek ef em en =
      simp (ek, ef)
        (rw (
          find_middleware-append f.middleware_registry names (name ∷ rest),
          em,
          find_middleware-unknown f.middleware_registry name rest en,
        ))
