-- ===== src/Callable/Calls.antt =====
-- A resolved handler calls the user's function with what its signature asks for.
use anywise.Common.{
  ℕ, Bool, not, ◌≡◌, refl, subst, Option, none, some, List, [], ◌∷◌, arith, if◌then◌else◌,
}
use anywise.Errors.{Error, ok, err}
use anywise.Exec.{Exec}
use anywise.Metas.{FuncMeta}
use anywise.Callable.{
  Callable, method, entry, Entry, Arg, self, message, context, Call, invoke, maybe_thread,
  maybe_wrapped, resolve_meta,
}

-- What the handler of a meta is due, by the instance that its owner type resolved to.
module _ (supply : Entry) where
  abbrev pub of_message : Bool → List Arg
  of_message is_contexted = message ∷ (if is_contexted then context ∷ [] else [])

  abbrev pub due : FuncMeta → Option ℕ → Call
  due meta none = record {
    func = meta.handler;
    args = supply meta.ignore (maybe_thread meta) (of_message meta.is_contexted);
    in_thread = not meta.is_async;
  }
  due meta (some instance_ref) = record {
    func = meta.handler;
    args = self instance_ref ∷ of_message meta.is_contexted;
    in_thread = not meta.is_async;
  }

module _ {D : Type 0} (supply : Entry) (resolve : ℕ → Exec D ℕ) where
  pub resolve_meta_function :
      (meta : FuncMeta) (d : D)
      → meta.owner_type ≡ none
      → (c : Callable) × (resolve_meta resolve meta d ≡ (ok c, d))
        × (invoke supply c (message ∷ context ∷ []) ≡ due supply meta none)
  unfolding resolve_meta invoke
  resolve_meta_function meta d e = (
    maybe_wrapped meta.is_contexted (entry meta.ignore (maybe_thread meta)),
    ground arith,
    ground arith,
  )

  resolve_meta_method :
      (meta : FuncMeta) (owner instance_ref : ℕ) (d d' : D)
      → meta.owner_type ≡ some owner
      → resolve owner d ≡ (ok instance_ref, d')
      → (c : Callable) × (resolve_meta resolve meta d ≡ (ok c, d'))
        × (invoke supply c (message ∷ context ∷ []) ≡ due supply meta (some instance_ref))
  unfolding resolve_meta invoke
  resolve_meta_method meta owner instance_ref d d' e r = (
    maybe_wrapped meta.is_contexted (method (maybe_thread meta) instance_ref),
    ground arith,
    ground arith,
  )

  -- The instance that a handler is bound to, and the scope afterwards: a function has no owner, and
  -- a method has what its owner type resolves to.
  abbrev pub Binds : Option ℕ → D → Option ℕ → D → Type 0
  Binds none d none d' = d ≡ d'
  Binds none d (some instance_ref) d' = ⊥
  Binds (some owner) d none d' = ⊥
  Binds (some owner) d (some instance_ref) d' = resolve owner d ≡ (ok instance_ref, d')

  resolve_owner :
      (meta : FuncMeta) (owner_type bound : Option ℕ) (d d' : D)
      → meta.owner_type ≡ owner_type
      → Binds owner_type d bound d'
      → (c : Callable) × (resolve_meta resolve meta d ≡ (ok c, d'))
        × (invoke supply c (message ∷ context ∷ []) ≡ due supply meta bound)
  resolve_owner meta none none d d' e b =
      subst
        (λ s.
          (c : Callable) × (resolve_meta resolve meta d ≡ (ok c, s))
          × (invoke supply c (message ∷ context ∷ []) ≡ due supply meta none))
        b (resolve_meta_function meta d e)
  resolve_owner meta none (some instance_ref) d d' e b = absurd b
  resolve_owner meta (some owner) none d d' e b = absurd b
  resolve_owner meta (some owner) (some instance_ref) d d' e b =
      resolve_meta_method meta owner instance_ref d d' e b

  -- A function handler is resolved without touching the scope, and a method handler if the scope
  -- resolves its owner type. Called with message and context, a method gets the instance, the
  -- message, and the context exactly if it declares one; a function gets what ididi's `entry` makes
  -- of the message, and of the context exactly if it declares one, around the function if it is
  -- async and around its call in a thread if it is not. The user's function runs in a thread
  -- exactly if it is not async.
  pub resolve_meta_lem :
      (meta : FuncMeta) (bound : Option ℕ) (d d' : D)
      → Binds meta.owner_type d bound d'
      → (c : Callable) × (resolve_meta resolve meta d ≡ (ok c, d'))
        × (invoke supply c (message ∷ context ∷ []) ≡ due supply meta bound)
  resolve_meta_lem meta bound d d' b = resolve_owner meta meta.owner_type bound d d' refl b

  -- If the scope cannot resolve the owner type, its exception ends the resolution.
  pub resolve_meta_fails :
      (meta : FuncMeta) (owner : ℕ) (x : Error) (d d' : D)
      → meta.owner_type ≡ some owner
      → resolve owner d ≡ (err x, d')
      → resolve_meta resolve meta d ≡ (err x, d')
  unfolding resolve_meta
  resolve_meta_fails meta owner x d d' e r = ground arith
