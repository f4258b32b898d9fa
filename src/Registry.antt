-- ===== src/Registry.antt =====
-- `MessageRegistry` of anywise/registry.py. Methods mutate the registry and may raise; what was
-- written before a raise stays. `fresh` is the identity of the next object that Python creates.
pub mod Handlers
pub mod Attempts
pub mod Mixed
pub mod Sorted
pub mod Hooked
pub mod Guards
pub mod Invariant
use anywise.Common.{
  ℕ, suc, Bool, true, false, Option, none, some, List, [], ◌∷◌, ◌++◌, map, if◌then◌else◌,
}
use anywise.Common.Dict.{Dict, lookup, insert, update, get_list, extend}
use anywise.Errors.{
  Error, Result, ok, err, is_register_fail, not_supported_handler_type, message_handler_not_found,
}
use anywise.Exec.{Exec, pure, raise, lift, modify, skip, ◌>>=◌, ◌>>◌}
use anywise.Classes.{ClassTable, issubclass}
use anywise.Visitor.{Annotation, gather_types}
use anywise.Metas.{Function, FuncMeta, ClassObject, get_funcmetas, get_methodmetas}

-- What may be handed to the registry: `inspect.isfunction`, `inspect.isclass`, or neither, such
-- as a module or an instance.
pub data Target : Type 0 where
  function : Function → Target
  class : ClassObject → Target
  object : ℕ → Target

-- A guard that a meta holds: an object of class `Guard` with the functions of its hooks, or a
-- guard class that is resolved for each message.
pub data GuardRef : Type 0 where
  instance_of : ℕ → Option Target → Option Target → GuardRef
  guard_class : ℕ → GuardRef

pub record GuardMeta : Type 0 where
  pub guard_target : ℕ
  pub guard : GuardRef

-- What `add_guards` takes: `IGuard | type[IGuard]`.
pub data GuardArg : Type 0 where
  guard_type : ClassObject → GuardArg
  guard_object : ℕ → GuardArg

abbrev pub arg_target : GuardArg → Target
arg_target (guard_type c) = class c
arg_target (guard_object o) = object o

abbrev pub guard_ref : GuardArg → GuardRef
guard_ref (guard_type c) = guard_class c.ref
guard_ref (guard_object o) = instance_of o none none

pub record Registry : Type 0 where
  pub command_base : Option ℕ
  pub event_base : Option ℕ
  pub command_mapping : Dict FuncMeta
  pub event_mapping : Dict (List FuncMeta)
  pub guard_mapping : Dict (List GuardMeta)
  pub fresh : ℕ

-- The class `BaseGuard`.
abbrev pub base_guard : ℕ
base_guard = 2

-- `{meta.message_type: meta for meta in metas}`
abbrev pub to_mapping : List FuncMeta → Dict FuncMeta
to_mapping metas = update [] (map (λ m. (m.message_type, m)) metas)

-- The body of the loop of `_register_eventlisteners`.
abbrev pub append_listener : FuncMeta → Dict (List FuncMeta) → Dict (List FuncMeta)
append_listener meta d = elim (lookup meta.message_type d) [
  | none ↦ insert meta.message_type (meta ∷ []) d
  | some metas ↦ insert meta.message_type (metas ++ meta ∷ []) d
]

unfoldable pub append_listeners : List FuncMeta → Dict (List FuncMeta) → Dict (List FuncMeta)
append_listeners [] d = d
append_listeners (m ∷ ms) d = append_listeners ms (append_listener m d)

-- `self.guard_mapping[target].append(meta)`
abbrev pub append_guard : ℕ → GuardRef → Registry → Registry
append_guard target guard reg = record reg {
  guard_mapping =
      extend target (record { guard_target = target; guard = guard } ∷ []) reg.guard_mapping;
}

-- The loop of `pre_handle` and of `post_handle`: a `Guard` of its own for each target.
unfoldable pub add_hooks : Option Target → Option Target → List ℕ → Registry → Registry
add_hooks pre post [] reg = reg
add_hooks pre post (target ∷ targets) reg =
    add_hooks pre post targets
      (append_guard target (instance_of reg.fresh pre post) (record reg { fresh = suc reg.fresh }))

-- The inner loop of `add_guards`: one guard for all the targets.
unfoldable pub add_guard : GuardRef → List ℕ → Registry → Registry
add_guard guard [] reg = reg
add_guard guard (target ∷ targets) reg = add_guard guard targets (append_guard target guard reg)

-- A loop of calls that each may raise.
unfoldable pub for_each :
    (Target → Exec Registry (Unit {0})) → List Target → Exec Registry (Unit {0})
for_each f [] = skip
for_each f (x ∷ xs) = f x >> for_each f xs

-- `except HandlerRegisterFailError: pass`
abbrev pub ignore_register_fail : Result (Unit {0}) × Registry → Result (Unit {0}) × Registry
ignore_register_fail (ok done, reg) = (ok done, reg)
ignore_register_fail (err e, reg) = (if is_register_fail e then ok tt else err e, reg)

module _ (t : ClassTable) where
  -- The choice by the kind of target in both `_register_…` methods.
  unfoldable pub target_metas : ℕ → Target → Result (List FuncMeta)
  target_metas base (function f) = get_funcmetas t base f
  target_metas base (class c) = get_methodmetas t base c
  target_metas base (object o) = err not_supported_handler_type

  abbrev pub command_metas : Option ℕ → Target → Exec Registry (Unit {0})
  command_metas none handler = skip
  command_metas (some base) handler = lift (target_metas base handler) >>= λ metas.
      modify λ reg. record reg { command_mapping = update reg.command_mapping (to_mapping metas) }

  -- `_register_commandhanlders`
  unfoldable pub register_commandhandlers : Target → Exec Registry (Unit {0})
  register_commandhandlers handler reg = command_metas reg.command_base handler reg

  abbrev pub event_metas : Option ℕ → Target → Exec Registry (Unit {0})
  event_metas none listener = skip
  event_metas (some base) listener = lift (target_metas base listener) >>= λ metas.
      modify λ reg. record reg { event_mapping = append_listeners metas reg.event_mapping }

  -- `_register_eventlisteners`
  unfoldable pub register_eventlisteners : Target → Exec Registry (Unit {0})
  register_eventlisteners listener reg = event_metas reg.event_base listener reg

  -- What `_register` does after its first `try`.
  abbrev pub after_commands : Target → Result (Unit {0}) × Registry → Result (Unit {0}) × Registry
  after_commands handler (ok done, reg) = ignore_register_fail (register_eventlisteners handler reg)
  after_commands handler (err e, reg) =
      if is_register_fail e then register_eventlisteners handler reg else (err e, reg)

  -- `_register`
  unfoldable pub register_target : Target → Exec Registry (Unit {0})
  register_target handler reg = after_commands handler (register_commandhandlers handler reg)

  abbrev pub first_types : List Annotation → Result (List ℕ)
  first_types [] = err message_handler_not_found
  first_types (cmd_type ∷ rest) = gather_types t cmd_type

  abbrev pub drop_self : List Annotation → List Annotation
  drop_self [] = []
  drop_self (self ∷ params) = params

  -- `get_guardtarget`
  unfoldable pub get_guardtarget : Target → Result (List ℕ)
  get_guardtarget (class c) = first_types (drop_self c.call_params)
  get_guardtarget (function f) = first_types f.params
  get_guardtarget (object o) = err message_handler_not_found

  unfoldable pub pre_handle : Target → Exec Registry (Unit {0})
  pre_handle func = do
    targets ← lift (get_guardtarget func)
    modify (add_hooks (some func) none targets)

  unfoldable pub post_handle : Target → Exec Registry (Unit {0})
  post_handle func = do
    targets ← lift (get_guardtarget func)
    modify (add_hooks none (some func) targets)

  -- `add_guards` with one guard
  unfoldable pub add_guards : GuardArg → Exec Registry (Unit {0})
  add_guards guard = do
    targets ← lift (get_guardtarget (arg_target guard))
    modify (add_guard (guard_ref guard) targets)

  -- The body of the first loop of `register`.
  unfoldable pub register_one : Target → Exec Registry (Unit {0})
  register_one (class c) =
      if issubclass t c.ref base_guard then add_guards (guard_type c) else register_target (class c)
  register_one handler = register_target handler

  -- `register`; an absent list of hooks is the empty one.
  unfoldable pub register : List Target → List Target → List Target → Exec Registry (Unit {0})
  register handlers pre_handles post_handles =
      for_each register_one handlers
      >> for_each pre_handle pre_handles
      >> for_each post_handle post_handles

-- `MessageRegistry(command_base=…, event_base=…)`
unfoldable pub init : Option ℕ → Option ℕ → ℕ → Registry
init command_base event_base fresh = record {
  command_base = command_base;
  event_base = event_base;
  command_mapping = [];
  event_mapping = [];
  guard_mapping = [];
  fresh = fresh;
}
