-- ===== src/Tests/Managers.antt =====
-- Including registries, looking up and publishing.
use anywise.Common.{◌≡◌, refl, false, some, List, [], ◌∷◌}
use anywise.Errors.{ok}
use anywise.Metas.{FuncMeta}
use anywise.Registry.{Registry}
use anywise.Callable.{Callable, invoke, resolve_meta, message, context}
use anywise.Callable.Calls.{due, resolve_meta_lem}
use anywise.Tests.Sample.{supply, create_user_meta, objects, resolve, guard_meta}

abbrev pub first_registry : Registry
first_registry = record {
  command_base = some 10;
  event_base = some 20;
  command_mapping = (11, create_user_meta) ∷ [];
  event_mapping = (21, create_user_meta ∷ []) ∷ [];
  guard_mapping = (0, guard_meta 0 3 ∷ []) ∷ (11, guard_meta 11 4 ∷ []) ∷ [];
  fresh = 5;
}

abbrev pub second_registry : Registry
second_registry = record first_registry { guard_mapping = (11, guard_meta 11 6 ∷ []) ∷ [] }

abbrev registries : List Registry
registries = first_registry ∷ second_registry ∷ []

abbrev method_meta : FuncMeta
method_meta = record create_user_meta { owner_type = some 40; is_contexted = false }

resolve_meta_lem_example :
    (c : Callable) × (resolve_meta resolve method_meta objects ≡ (ok c, objects))
    × (invoke supply c (message ∷ context ∷ []) ≡ due supply method_meta (some 140))
resolve_meta_lem_example =
    resolve_meta_lem supply resolve method_meta (some 140) objects objects refl
