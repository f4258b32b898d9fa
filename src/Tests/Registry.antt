-- ===== src/Tests/Registry.antt =====
-- Registering handlers, listeners and guards.
use anywise.Common.{refl, true, none, some, [], ◌∷◌}
use anywise.Errors.{is_register_fail}
use anywise.Classes.{issubclass, subclasses}
use anywise.Visitor.{cls, gather_types, all_subclasses}
use anywise.Metas.{Function, ClassObject, check_types, get_funcmetas}
use anywise.Registry.{
  function, guard_type, guard_class, Registry, target_metas, register_commandhandlers,
  register_eventlisteners, register_target, pre_handle, post_handle, add_guards, register, init,
}
use anywise.Registry.Handlers.{
  Handles, register_commandhandlers_function, Listens, register_eventlisteners_function,
}
use anywise.Registry.Guards.{Guards, add_guards_class, Hooks, Hooks-function}
use anywise.Registry.Invariant.{IsValid, init-IsValid}
use anywise.Registry.Invariant.Methods.{register-IsValid}
use anywise.Tests.Sample.{table, table-IsClassTable, create_user, on_created}

abbrev both : Registry
both = record {
  command_base = some 10;
  event_base = some 20;
  command_mapping = [];
  event_mapping = [];
  guard_mapping = [];
  fresh = 0;
}

-- `async def random_func(cmd: Any)` fits neither base.
abbrev random_func : Function
random_func = record { ref = 8; params = cls 0 ∷ []; is_async = true }

abbrev ip_limiter : ClassObject
ip_limiter = record { ref = 30; members = []; call_params = cls 2 ∷ cls 10 ∷ [] }

register_commandhandlers_function_example :
    Handles table 10 create_user
      (cls 11)
      []
      both
      (register_commandhandlers table (function create_user) both)
register_commandhandlers_function_example =
    register_commandhandlers_function table 10 create_user (cls 11) [] both table-IsClassTable refl
      refl

register_eventlisteners_function_example :
    Listens table 20 on_created
      (cls 21)
      []
      both
      (register_eventlisteners table (function on_created) both)
register_eventlisteners_function_example =
    register_eventlisteners_function table 20 on_created (cls 21) [] both table-IsClassTable refl
      refl

program : Unit {0}
unfolding register_target register_commandhandlers register_eventlisteners target_metas
    get_funcmetas check_types gather_types all_subclasses subclasses issubclass is_register_fail
program = tt

add_guards_class_example :
    Guards table (cls 10) [] both (guard_class 30) (add_guards table (guard_type ip_limiter) both)
add_guards_class_example =
    add_guards_class table (cls 10) [] both ip_limiter (cls 2) table-IsClassTable refl

Hooks-function_example :
    Hooks table
      (cls 11)
      []
      both
      (some (function create_user))
      none
      (pre_handle table (function create_user) both)
    × Hooks table
        (cls 11)
        []
        both
        none
        (some (function create_user))
        (post_handle table (function create_user) both)
Hooks-function_example = Hooks-function table (cls 11) [] both create_user table-IsClassTable refl

start-IsValid : IsValid table both
unfolding init
start-IsValid = init-IsValid table (some 10) (some 20) 0

register-IsValid_example :
    IsValid table (register table (function create_user ∷ function random_func ∷ []) [] [] both).1
register-IsValid_example =
    register-IsValid table (function create_user ∷ function random_func ∷ []) [] [] both
      start-IsValid
