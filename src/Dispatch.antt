-- ===== src/Dispatch.antt =====
-- Sending and publishing: `resolve_handler`, `_chain_guards`, `resolve_listeners`, `Anywise.send`
-- and `Anywise.publish` of anywise/anywise.py, and the sequential strategies of
-- anywise/strategies.py. One task runs alone here, and the user's code does not send in turn.
pub mod Send
pub mod Publish
pub mod Hooks
pub mod Concurrent
use anywise.Common.{ℕ, Option, none, some, List, [], ◌∷◌, map}
use anywise.Common.Dict.{Dict, lookup, touch}
use anywise.Errors.{Error, Result, ok, err, unregistered_message}
use anywise.Exec.{Exec, pure, raise, modify, skip, ◌>>=◌, ◌>>◌}
use anywise.Metas.{FuncMeta}
use anywise.Registry.{GuardRef, instance_of, guard_class, GuardMeta}
use anywise.Manager.{HandlerManager, Managers, command_guards}
use anywise.Callable.{Callable, resolve_meta}
use anywise.Guard.{Message, Callback, Target, guard, handler, Store, link, call}

-- The context of a message: a dict, or a `MappingProxyType`, which no one can write through.
pub data Context (V : Type 0) : Type 0 where
  dict : Dict V → Context V
  mapping_proxy : Dict V → Context V

-- What the user's code can reach: the context of the message, and the rest of the world.
pub record Env (V W : Type 0) : Type 0 where
  pub context : Context V
  pub world : W

-- `if context is None: context = …`
abbrev pub given_or : {V : Type 0} → Context V → Option (Context V) → Context V
given_or context none = context
given_or context (some given) = given

module _ {V W : Type 0} where
  -- `default_send`: a context that is not given is a new dict.
  unfoldable pub default_send :
      Message V → Option (Context V) → Callback (Env V W) V → W → Result V × Env V W
  default_send message context handle w =
      handle message (record { context = given_or (dict []) context; world = w })

  -- The loop of `default_publish`
  unfoldable pub await_all : Message V → List (Callback (Env V W) V) → Exec (Env V W) (Unit {0})
  await_all message [] = skip
  await_all message (listener ∷ listeners) = listener message >> await_all message listeners

  -- `default_publish`: a context that is not given is an empty one that cannot be written.
  unfoldable pub default_publish :
      Message V → Option (Context V) → List (Callback (Env V W) V) → W → Result (Unit {0}) × Env V W
  default_publish message context listeners w =
      await_all message listeners
        (record { context = given_or (mapping_proxy []) context; world = w })

-- The guard objects, and the state of the dependency graph and its scopes.
pub record Objects (S V D : Type 0) : Type 0 where
  pub store : Store S V Callable
  pub container : D

pub record System (S V D : Type 0) : Type 0 where
  pub managers : Managers
  pub objects : Objects S V D

module _ {S V D : Type 0} where
  -- The action on the objects alone.
  abbrev pub on_objects : {A : Type 0} → Exec (Objects S V D) A → Exec (System S V D) A
  on_objects m sys = let (r, o) = m sys.objects in (r, record sys { objects = o })

  -- The read of `self._guard_mapping[msg_type]`.
  abbrev pub touched : ℕ → System S V D → System S V D
  touched msg_type sys = record sys {
    managers = record sys.managers {
      handlers = record sys.managers.handlers {
        guard_mapping = touch msg_type sys.managers.handlers.guard_mapping;
      };
    };
  }

  -- `head, *rest = guards` and the linking loop
  unfoldable pub link_guards : List ℕ → Callable → Exec (Objects S V D) (Target Callable)
  link_guards [] h = pure (handler h)
  link_guards (head ∷ rest) h =
      modify (λ o. record o { store = link head rest h o.store }) >> pure (guard head)

  -- `resolve` is `scope.resolve`: the object that stands for a class in the scope.
  module _ (resolve : ℕ → Exec (Objects S V D) ℕ) where
    unfoldable pub resolve_guard : GuardRef → Exec (Objects S V D) ℕ
    resolve_guard (instance_of o pre post) = pure o
    resolve_guard (guard_class c) = resolve c

    unfoldable pub resolve_guards : List GuardMeta → Exec (Objects S V D) (List ℕ)
    resolve_guards [] = pure []
    resolve_guards (meta ∷ metas) = do
      g ← resolve_guard meta.guard
      gs ← resolve_guards metas
      pure (g ∷ gs)

    -- `_chain_guards`, behind the read of the guards
    unfoldable pub chain_guards : List GuardMeta → Callable → Exec (Objects S V D) (Target Callable)
    chain_guards [] h = pure (handler h)
    chain_guards (meta ∷ metas) h = do guards ← resolve_guards (meta ∷ metas); link_guards guards h

    abbrev pub chained : ℕ → Callable → Exec (System S V D) (Target Callable)
    chained msg_type h sys =
        on_objects (chain_guards (command_guards msg_type sys.managers.handlers) h)
          (touched msg_type sys)

    abbrev pub resolve_found : ℕ → Option FuncMeta → Exec (System S V D) (Target Callable)
    resolve_found msg_type none = raise (unregistered_message msg_type)
    resolve_found msg_type (some meta) = on_objects (resolve_meta resolve meta) >>= chained msg_type

    -- `HandlerManager.resolve_handler`
    unfoldable pub resolve_handler : ℕ → Exec (System S V D) (Target Callable)
    resolve_handler msg_type sys =
        resolve_found msg_type (lookup msg_type sys.managers.handlers.handler_metas) sys

    unfoldable pub resolve_metas : List FuncMeta → Exec (Objects S V D) (List Callable)
    resolve_metas [] = pure []
    resolve_metas (meta ∷ metas) = do
      c ← resolve_meta resolve meta
      cs ← resolve_metas metas
      pure (c ∷ cs)

    abbrev pub listeners_found : ℕ → Option (List FuncMeta) → Exec (Objects S V D) (List Callable)
    listeners_found msg_type none = raise (unregistered_message msg_type)
    listeners_found msg_type (some metas) = resolve_metas metas

    -- `ListenerManager.resolve_listeners`
    unfoldable pub resolve_listeners : ℕ → Exec (System S V D) (List Callable)
    resolve_listeners msg_type sys =
        on_objects (listeners_found msg_type (lookup msg_type sys.managers.listeners)) sys

abbrev pub SendStrategy : Type 0 → Type 0 → Type 0
SendStrategy V W = Message V → Option (Context V) → Callback (Env V W) V → W → Result V × Env V W

abbrev pub PublishStrategy : Type 0 → Type 0 → Type 0
PublishStrategy V W =
    Message V → Option (Context V) → List (Callback (Env V W) V) → W → Result (Unit {0}) × Env V W

-- `perform` runs a resolved handler, and `depth` is how deep Python's stack may still grow.
module _ {V W D : Type 0} (resolve : ℕ → Exec (Objects (Env V W) V D) ℕ)
    (perform : Callable → Callback (Env V W) V) (depth : ℕ) where
  abbrev pub finish_send :
      SendStrategy V W
      → Message V
      → Option (Context V)
      → W
      → Result (Target Callable) × System (Env V W) V D
      → (Result V × Env V W) × System (Env V W) V D
  finish_send sender message context w (ok target, sys) =
      (sender message context (call perform depth sys.objects.store target) w, sys)
  finish_send sender message context w (err e, sys) =
      ((err e, record { context = given_or (dict []) context; world = w }), sys)

  -- `Anywise.send`, in the scope that `resolve` stands for
  unfoldable pub send :
      SendStrategy V W
      → Message V
      → Option (Context V)
      → W
      → System (Env V W) V D
      → (Result V × Env V W) × System (Env V W) V D
  send sender message context w sys =
      finish_send sender message context w (resolve_handler resolve message.cls sys)

  abbrev pub finish_publish :
      PublishStrategy V W
      → Message V
      → Option (Context V)
      → W
      → Result (List Callable) × System (Env V W) V D
      → (Result (Unit {0}) × Env V W) × System (Env V W) V D
  finish_publish publisher message context w (ok listeners, sys) =
      (publisher message context (map perform listeners) w, sys)
  finish_publish publisher message context w (err e, sys) =
      ((err e, record { context = given_or (dict []) context; world = w }), sys)

  -- `Anywise.publish`
  unfoldable pub publish :
      PublishStrategy V W
      → Message V
      → Option (Context V)
      → W
      → System (Env V W) V D
      → (Result (Unit {0}) × Env V W) × System (Env V W) V D
  publish publisher message context w sys =
      finish_publish publisher message context w (resolve_listeners resolve message.cls sys)
