-- ===== src/Demo/Api.antt =====
-- demo/api.py, and the registry of demo/todo.py: what a route sends, and which function handles it.
use anywise.Common.{ℕ, true, ◌≡◌, refl, Option, none, some, List, [], ◌∷◌}
use anywise.Common.Dict.{Dict}
use anywise.Errors.{Result, ok}
use anywise.Exec.{Exec, lift, ◌>>=◌}
use anywise.Classes.{ClassDef, ClassTable}
use anywise.Visitor.{empty, cls}
use anywise.Metas.{Function, ClassObject}
use anywise.Classes.{subclasses, issubclass}
use anywise.Visitor.{gather_types, all_subclasses, all_subclasses_from}
use anywise.Metas.{
  get_funcmetas, get_methodmetas, collect_members, methodmetas_of, check_types, is_contextparam,
}
use anywise.Errors.{is_register_fail}
use anywise.Registry.{
  Registry, function, class, init, register, for_each, register_one, register_target,
  register_commandhandlers, register_eventlisteners, target_metas, append_listeners,
}
use anywise.Registry.Mixed.{handler_of}
use anywise.Fastapi.{get_anywise}

-- The commands of demo/message.py.
pub data TodoCommand : Type 0 where
  list_todo_events : ℕ → TodoCommand
  create_todo : ℕ → ℕ → ℕ → TodoCommand
  rename_todo : ℕ → ℕ → TodoCommand
  list_todos : TodoCommand

-- `TodoCommand` is 50 and its subclasses 51 to 54, in their order in the source; `Event` is 60,
-- `TodoEvent` 61, and its subclasses 62 and 63.
abbrev pub class_of_command : TodoCommand → ℕ
class_of_command (list_todo_events i) = 51
class_of_command (create_todo i title content) = 52
class_of_command (rename_todo i title) = 53
class_of_command list_todos = 54

-- A request: what the query or the body holds, and first of all for `put_todo` the id in its path.
pub data Route : Type 0 where
  read_todos : Route
  read_todo_events : ℕ → Route
  post_todo : ℕ → ℕ → ℕ → Route
  put_todo : ℕ → ℕ → ℕ → Route

-- What the route sends: the id in the path is not a parameter of the function.
unfoldable pub command_of : Route → TodoCommand
command_of read_todos = list_todos
command_of (read_todo_events todo_id) = list_todo_events todo_id
command_of (post_todo i title content) = create_todo i title content
command_of (put_todo path_id todo_id title) = rename_todo todo_id title

-- The answer to a request in the scope; `send` is that of the `Anywise` that is found.
unfoldable pub respond :
    {A V W : Type 0} → (A → TodoCommand → Exec W V) → Dict (Dict A) → Route → Exec W V
unfolding command_of
respond send scope route = lift (get_anywise scope) >>= λ aw. send aw (command_of route)

abbrev define : ℕ → List ℕ → ClassDef
define c bases = record { name = c; bases = bases }

abbrev pub todo_classes : ClassTable
todo_classes =
    define 63 (61 ∷ [])
    ∷ define 62 (61 ∷ [])
    ∷ define 54 (50 ∷ [])
    ∷ define 53 (50 ∷ [])
    ∷ define 52 (50 ∷ [])
    ∷ define 61 (60 ∷ [])
    ∷ define 51 (50 ∷ [])
    ∷ define 50 (1 ∷ [])
    ∷ define 60 (1 ∷ [])
    ∷ define 70 (1 ∷ [])
    ∷ define 2 (1 ∷ [])
    ∷ define 3 (1 ∷ [])
    ∷ define 1 []
    ∷ []

-- `list_events(query: ListTodoEvents, es: EventStore)`
abbrev pub list_events : Function
list_events = record { ref = 0; params = cls 51 ∷ cls 70 ∷ []; is_async = true }

abbrev pub service_method : ℕ → ℕ → Function
service_method ref message = record {
  ref = ref;
  params = empty ∷ cls message ∷ [];
  is_async = true;
}

-- `TodoService`, its members by name.
abbrev pub todo_service : ClassObject
todo_service = record {
  ref = 80;
  members =
      ("__init__", service_method 1 71)
      ∷ ("add_new_todo", service_method 2 52)
      ∷ ("list_todos", service_method 3 54)
      ∷ ("rename_todo", service_method 4 53)
      ∷ [];
  call_params = [];
}

-- `MessageRegistry(command_base=TodoCommand, event_base=TodoEvent)` and the last line of
-- demo/todo.py
unfoldable pub demo_registry : Result (Unit {0}) × Registry
demo_registry =
    register todo_classes (function list_events ∷ class todo_service ∷ []) [] []
      (init (some 50) (some 61) 0)

-- Where the function and the class that owns it stand for a command.
abbrev pub handled_by : TodoCommand → Function × Option ℕ
handled_by (list_todo_events i) = (list_events, none)
handled_by (create_todo i title content) = (service_method 2 52, some 80)
handled_by (rename_todo i title) = (service_method 4 53, some 80)
handled_by list_todos = (service_method 3 54, some 80)

-- The registry of the demo is filled without an exception, and has a handler for every command: for
-- a listing of events the function `list_events`, for the others the method of `TodoService` that is
-- annotated with the command.
pub demo_registry-handles :
    (command : TodoCommand)
    → (demo_registry.0 ≡ ok tt)
      × (handler_of (class_of_command command) demo_registry.1 ≡ some (handled_by command))
unfolding demo_registry register for_each register_one register_target register_commandhandlers
    register_eventlisteners target_metas get_funcmetas get_methodmetas collect_members
    methodmetas_of gather_types all_subclasses all_subclasses_from subclasses issubclass check_types
    append_listeners is_contextparam is_register_fail init
demo_registry-handles (list_todo_events i) = (refl, refl)
demo_registry-handles (create_todo i title content) = (refl, refl)
demo_registry-handles (rename_todo i title) = (refl, refl)
demo_registry-handles list_todos = (refl, refl)
