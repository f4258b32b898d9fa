-- ===== src/Manager/Include.antt =====
-- What the managers hold after registries are included.
use mathlib.Core.List.{append_assoc, append-nil}
use anywise.Common.{
  ℕ, false, ◌≡◌, refl, Option, List, [], ◌∷◌, ◌++◌, arith, contains, Bool, All, IsDistinct,
  Bool-cases, inl, inr, if◌then◌else◌, ◌==◌, ◌||◌,
}
use anywise.Common.Dict.{
  Dict, lookup, get_list, keys, or_else, lookup-insert, lookup-update_built, last-eq-lookup,
  get_list-extend,
}
use anywise.Metas.{FuncMeta}
use anywise.Registry.{GuardMeta, Registry}
use anywise.Manager.{
  any_type, object_type, HandlerManager, ListenerMetas, include_handlers, include_guard,
  include_guards, include_listener, include_listeners, Managers, include_registry, include,
  command_guards,
}

module _ {A : Type 0} where
  pub get_list_absent :
      (e : ℕ) (d : Dict (List A)) → contains e (keys d) ≡ false → get_list e d ≡ []
  get_list_absent e [] h = refl
  get_list_absent e ((k, xs) ∷ d) h = ground (arith, get_list_absent e d)

-- A handler that the registry has replaces the one before it.
pub lookup-include_handlers :
    (e : ℕ) (mapping : Dict FuncMeta) (hm : HandlerManager)
    → IsDistinct (keys mapping)
    → lookup e (include_handlers mapping hm).handler_metas
      ≡ or_else (lookup e mapping) (lookup e hm.handler_metas)
unfolding include_handlers
lookup-include_handlers e mapping hm h = rw (lookup-update_built, last-eq-lookup e mapping h)

get_list-include_listener :
    (k e : ℕ) (metas : List FuncMeta) (lm : ListenerMetas)
    → get_list e (include_listener k metas lm)
      ≡ (if e == k then get_list e lm ++ metas else get_list e lm)
unfolding include_listener
get_list-include_listener k e metas lm =
    ground (arith, lookup-insert k e metas lm, lookup-insert k e (get_list k lm ++ metas) lm)

-- The listeners of a registry follow those that are there.
pub get_list-include_listeners :
    (e : ℕ) (mapping : Dict (List FuncMeta)) (lm : ListenerMetas)
    → IsDistinct (keys mapping)
    → get_list e (include_listeners mapping lm) ≡ get_list e lm ++ get_list e mapping
unfolding include_listeners
get_list-include_listeners e [] lm h = rw append-nil
get_list-include_listeners e ((k, metas) ∷ rest) lm h = ground (
  arith,
  get_list-include_listeners e rest (include_listener k metas lm) h.1,
  get_list-include_listener k e metas lm,
  get_list_absent e rest,
  append-nil (get_list e lm ++ metas),
)

abbrev pub is_global : ℕ → Bool
is_global k = k == any_type || k == object_type

-- The guards of a registry that stand under `Any` or `object`, in the order of its dict.
abbrev pub global_metas : Dict (List GuardMeta) → List GuardMeta
global_metas [] = []
global_metas ((k, metas) ∷ rest) = (if is_global k then metas else []) ++ global_metas rest

global_guards-include_guards :
    (mapping : Dict (List GuardMeta)) (hm : HandlerManager)
    → (include_guards mapping hm).global_guards ≡ hm.global_guards ++ global_metas mapping
unfolding include_guards include_guard
global_guards-include_guards [] hm = rw append-nil
global_guards-include_guards ((k, metas) ∷ rest) hm = elim (Bool-cases (is_global k)) [
  | inl global ↦
      rw (global_guards-include_guards rest (include_guard k metas hm), global)
        (append_assoc hm.global_guards metas (global_metas rest))
  | inr specific ↦ rw (global_guards-include_guards rest (include_guard k metas hm), specific)
]

get_list-include_guard :
    (k e : ℕ) (metas : List GuardMeta) (hm : HandlerManager)
    → is_global e ≡ false
    → get_list e (include_guard k metas hm).guard_mapping
      ≡ (if e == k then get_list e hm.guard_mapping ++ metas else get_list e hm.guard_mapping)
unfolding include_guard
get_list-include_guard k e metas hm specific =
    ground (arith, get_list-extend k e metas hm.guard_mapping)

get_list-include_guards :
    (e : ℕ) (mapping : Dict (List GuardMeta)) (hm : HandlerManager)
    → is_global e ≡ false
    → IsDistinct (keys mapping)
    → get_list e (include_guards mapping hm).guard_mapping
      ≡ get_list e hm.guard_mapping ++ get_list e mapping
unfolding include_guards
get_list-include_guards e [] hm specific h = rw append-nil
get_list-include_guards e ((k, metas) ∷ rest) hm specific h = ground (
  arith,
  get_list-include_guards e rest (include_guard k metas hm) specific h.1,
  get_list-include_guard k e metas hm specific,
  get_list_absent e rest,
  append-nil (get_list e hm.guard_mapping ++ metas),
)

metas-include_guards :
    (mapping : Dict (List GuardMeta)) (hm : HandlerManager)
    → (include_guards mapping hm).handler_metas ≡ hm.handler_metas
unfolding include_guards include_guard
metas-include_guards [] hm = refl
metas-include_guards ((k, metas) ∷ rest) hm = elim (Bool-cases (is_global k)) [
  | inl global ↦ rw (metas-include_guards rest (include_guard k metas hm), global)
  | inr specific ↦ rw (metas-include_guards rest (include_guard k metas hm), specific)
]

-- A dict has each key once.
abbrev pub HasDicts : Registry → Type 0
HasDicts r =
    IsDistinct (keys r.command_mapping)
    × IsDistinct (keys r.event_mapping)
    × IsDistinct (keys r.guard_mapping)

-- What the registries, from the first to the last, contribute for one message type.
abbrev pub concat : {A : Type 0} → (Registry → List A) → List Registry → List A
concat f [] = []
concat f (r ∷ rs) = f r ++ concat f rs

abbrev pub latest : ℕ → List Registry → Option FuncMeta → Option FuncMeta
latest e [] old = old
latest e (r ∷ rs) old = latest e rs (or_else (lookup e r.command_mapping) old)

-- Of registries whose dicts have each key once, the last included one that has a handler for a
-- command decides it; if none has, the handler from before stays.
pub lookup-include :
    (e : ℕ) (rs : List Registry) (ms : Managers)
    → All HasDicts rs
    → lookup e (include rs ms).handlers.handler_metas
      ≡ latest e rs (lookup e ms.handlers.handler_metas)
unfolding include include_registry
lookup-include e [] ms h = refl
lookup-include e (r ∷ rs) ms h = rw (
  lookup-include e rs (include_registry r ms) h.1,
  metas-include_guards,
  lookup-include_handlers e r.command_mapping ms.handlers h.0.0,
)

-- An event has the listeners from before, then those of every included registry, in the order of
-- inclusion, where the dicts of the registries have each key once.
pub get_list-include :
    (e : ℕ) (rs : List Registry) (ms : Managers)
    → All HasDicts rs
    → get_list e (include rs ms).listeners
      ≡ get_list e ms.listeners ++ concat (λ r. get_list e r.event_mapping) rs
unfolding include include_registry
get_list-include e [] ms h = rw append-nil
get_list-include e (r ∷ rs) ms h = rw (
  get_list-include e rs (include_registry r ms) h.1,
  get_list-include_listeners e r.event_mapping ms.listeners h.0.1,
  append_assoc,
)

global-include :
    (rs : List Registry) (ms : Managers)
    → (include rs ms).handlers.global_guards
      ≡ ms.handlers.global_guards ++ concat (λ r. global_metas r.guard_mapping) rs
unfolding include include_registry include_handlers
global-include [] ms = rw append-nil
global-include (r ∷ rs) ms =
    rw (global-include rs (include_registry r ms), global_guards-include_guards, append_assoc)

specific-include :
    (e : ℕ) (rs : List Registry) (ms : Managers)
    → is_global e ≡ false
    → All HasDicts rs
    → get_list e (include rs ms).handlers.guard_mapping
      ≡ get_list e ms.handlers.guard_mapping ++ concat (λ r. get_list e r.guard_mapping) rs
unfolding include include_registry include_handlers
specific-include e [] ms specific h = rw append-nil
specific-include e (r ∷ rs) ms specific h = rw (
  specific-include e rs (include_registry r ms) specific h.1,
  get_list-include_guards e r.guard_mapping (include_handlers r.command_mapping ms.handlers)
      specific h.0.2,
  append_assoc,
)

-- A command type other than `Any` and `object` meets the global guards from before and of all
-- included registries, then the guards for its own type, each group in the order of inclusion,
-- where the dicts of the registries have each key once.
pub command_guards-include :
    (e : ℕ) (rs : List Registry) (ms : Managers)
    → is_global e ≡ false
    → All HasDicts rs
    → command_guards e (include rs ms).handlers
      ≡ (ms.handlers.global_guards ++ concat (λ r. global_metas r.guard_mapping) rs)
        ++ (get_list e ms.handlers.guard_mapping ++ concat (λ r. get_list e r.guard_mapping) rs)
unfolding command_guards
command_guards-include e rs ms specific h = rw (global-include, specific-include e rs ms specific h)
