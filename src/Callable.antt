-- ===== src/Callable.antt =====
-- The wrappers that `ManagerBase._resolve_meta` of anywise/anywise.py puts around a handler, and
-- what a call of the result hands to the user's function.
pub mod Calls
use anywise.Common.{ℕ, Bool, true, false, Option, none, some, List, [], ◌∷◌, ◌++◌, if◌then◌else◌}
use anywise.Metas.{Function, FuncMeta, Ignored}
use anywise.Exec.{Exec, pure, ◌>>=◌}

pub data Callable : Type 0 where
  function : Function → Callable
  -- `partial(to_thread, handler)`
  to_thread : Callable → Callable
  -- `MethodType(handler, instance)`
  method : Callable → ℕ → Callable
  -- `self._dg.entry(ignore=ignore)(handler)`, of the dependency graph
  entry : List Ignored → Callable → Callable
  -- `context_wrapper(origin)`
  context_wrapper : Callable → Callable

-- An argument: an instance, the message, the context, or what the dependency graph may supply for
-- the parameters that are not ignored.
pub data Arg : Type 0 where
  self : ℕ → Arg
  message context : Arg
  injected : List Ignored → Arg

pub record Call : Type 0 where
  pub func : Function
  pub args : List Arg
  pub in_thread : Bool

-- `inner(message, _)` awaits `origin(message)`.
abbrev pub first_arg : List Arg → List Arg
first_arg [] = []
first_arg (a ∷ _) = a ∷ []

-- ididi's `entry`: the arguments that it calls what it wraps with, by the parameters that it is told
-- to ignore, what it wraps, whose signature it reads, and the arguments that it is called with.
abbrev pub Entry : Type 0
Entry = List Ignored → Callable → List Arg → List Arg

-- The call of the user's function that a call of the wrapper comes down to.
module _ (supply : Entry) where
  unfoldable pub invoke : Callable → List Arg → Call
  invoke (function f) args = record { func = f; args = args; in_thread = false }
  invoke (to_thread c) args = record (invoke c args) { in_thread = true }
  invoke (method c instance_ref) args = invoke c (self instance_ref ∷ args)
  invoke (entry ignore c) args = invoke c (supply ignore c args)
  invoke (context_wrapper c) args = invoke c (first_arg args)

abbrev pub maybe_thread : FuncMeta → Callable
maybe_thread meta =
    if meta.is_async then function meta.handler else to_thread (function meta.handler)

abbrev pub maybe_wrapped : Bool → Callable → Callable
maybe_wrapped is_contexted handler = if is_contexted then handler else context_wrapper handler

-- `_resolve_meta`; `resolve` is `scope.resolve` of the dependency graph, on its own state.
module _ {D : Type 0} (resolve : ℕ → Exec D ℕ) where
  abbrev pub bind_owner : Option ℕ → List Ignored → Callable → Exec D Callable
  bind_owner none ignore handler = pure (entry ignore handler)
  bind_owner (some owner_type) ignore handler =
      resolve owner_type >>= λ instance_ref. pure (method handler instance_ref)

  unfoldable pub resolve_meta : FuncMeta → Exec D Callable
  resolve_meta meta = bind_owner meta.owner_type meta.ignore (maybe_thread meta) >>= λ handler.
      pure (maybe_wrapped meta.is_contexted handler)
