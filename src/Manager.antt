-- ===== src/Manager.antt =====
-- The state of `HandlerManager`, `ListenerManager` and `Inspect` of anywise/anywise.py: what
-- including a registry writes, and what the lookups read.
pub mod Include
pub mod Lookups
use anywise.Common.{
  ℕ, Bool, true, false, Option, none, some, List, [], ◌∷◌, ◌++◌, map, if◌then◌else◌, ◌==◌, ◌||◌,
}
use anywise.Common.Dict.{Dict, lookup, insert, update, get_list, touch, extend}
use anywise.Metas.{Function, FuncMeta}
use anywise.Registry.{GuardRef, GuardMeta, Registry}

-- The classes `typing.Any` and `object`.
abbrev pub any_type : ℕ
any_type = 0

abbrev pub object_type : ℕ
object_type = 1

pub record HandlerManager : Type 0 where
  pub handler_metas : Dict FuncMeta
  pub guard_mapping : Dict (List GuardMeta)
  pub global_guards : List GuardMeta

abbrev pub ListenerMetas : Type 0
ListenerMetas = Dict (List FuncMeta)

-- `HandlerManager(dg)`
abbrev pub no_handlers : HandlerManager
no_handlers = record { handler_metas = []; guard_mapping = []; global_guards = [] }

-- `include_handlers`: a copy of the mapping, and `update`.
unfoldable pub include_handlers : Dict FuncMeta → HandlerManager → HandlerManager
include_handlers command_mapping hm = record hm {
  handler_metas = update hm.handler_metas (update [] command_mapping);
}

-- The body of the loop of `include_guards`.
unfoldable pub include_guard : ℕ → List GuardMeta → HandlerManager → HandlerManager
include_guard origin_target metas hm =
    if origin_target == any_type || origin_target == object_type
    then record hm { global_guards = hm.global_guards ++ metas }
    else record hm { guard_mapping = extend origin_target metas hm.guard_mapping }

unfoldable pub include_guards : Dict (List GuardMeta) → HandlerManager → HandlerManager
include_guards [] hm = hm
include_guards ((origin_target, metas) ∷ rest) hm =
    include_guards rest (include_guard origin_target metas hm)

-- The body of the loop of `include_listeners`, on a copy of the list.
unfoldable pub include_listener : ℕ → List FuncMeta → ListenerMetas → ListenerMetas
include_listener msg_type metas lm = elim (lookup msg_type lm) [
  | none ↦ insert msg_type metas lm
  | some there ↦ insert msg_type (there ++ metas) lm
]

unfoldable pub include_listeners : Dict (List FuncMeta) → ListenerMetas → ListenerMetas
include_listeners [] lm = lm
include_listeners ((msg_type, metas) ∷ rest) lm =
    include_listeners rest (include_listener msg_type metas lm)

pub record Managers : Type 0 where
  pub handlers : HandlerManager
  pub listeners : ListenerMetas

abbrev pub no_managers : Managers
no_managers = record { handlers = no_handlers; listeners = [] }

-- The body of the loop of `Anywise.include`, but for the dependency graph.
unfoldable pub include_registry : Registry → Managers → Managers
include_registry r ms = record {
  handlers = include_guards r.guard_mapping (include_handlers r.command_mapping ms.handlers);
  listeners = include_listeners r.event_mapping ms.listeners;
}

-- The mappings of registries, one after the other.
unfoldable pub include : List Registry → Managers → Managers
include [] ms = ms
include (r ∷ rs) ms = include rs (include_registry r ms)

-- `get_handler`
unfoldable pub get_handler : ℕ → HandlerManager → Option Function
get_handler msg_type hm = elim (lookup msg_type hm.handler_metas) [
  | none ↦ none
  | some meta ↦ some meta.handler
]

-- `get_guards`: the read of the `defaultdict` stores an empty list under a missing type.
unfoldable pub get_guards : ℕ → HandlerManager → List GuardRef × HandlerManager
get_guards msg_type hm = (
  map (λ (m : GuardMeta). m.guard) (get_list msg_type hm.guard_mapping),
  record hm { guard_mapping = touch msg_type hm.guard_mapping },
)

-- `self._global_guards + self._guard_mapping[msg_type]`
unfoldable pub command_guards : ℕ → HandlerManager → List GuardMeta
command_guards msg_type hm = hm.global_guards ++ get_list msg_type hm.guard_mapping

-- `get_listeners`
unfoldable pub get_listeners : ℕ → ListenerMetas → List Function
get_listeners msg_type lm = elim (lookup msg_type lm) [
  | none ↦ []
  | some metas ↦ map (λ (m : FuncMeta). m.handler) metas
]

-- `Inspect` holds weak references: `none` is a manager that is gone.
unfoldable pub inspect_listeners : ℕ → Option ListenerMetas → Option (List Function)
inspect_listeners key none = none
inspect_listeners key (some lm) = elim (get_listeners key lm) [ [] ↦ none | f ∷ fs ↦ some (f ∷ fs) ]

unfoldable pub inspect_handler : ℕ → Option HandlerManager → Option Function
inspect_handler key none = none
inspect_handler key (some hm) = get_handler key hm

unfoldable pub inspect_guards : ℕ → Option HandlerManager → List GuardRef × Option HandlerManager
inspect_guards key none = ([], none)
inspect_guards key (some hm) =
    let (command_guards, hm') = get_guards key hm in
    (map (λ (m : GuardMeta). m.guard) hm.global_guards ++ command_guards, some hm')
