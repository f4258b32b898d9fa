-- ===== src/Tests/Sample.antt =====
-- The classes, handlers and guards that the tests share, after tests/conftest.py.
use anywise.Common.{ℕ, refl, All, ◌+◌, true, false, none, some, List, [], ◌∷◌, ◌++◌}
use anywise.Errors.{ok, err, raised}
use anywise.Exec.{Exec}
use anywise.Classes.{ClassDef, ClassTable, IsClassTable, issubclass}
use anywise.Visitor.{cls}
use anywise.Metas.{Function, FuncMeta, build_meta}
use anywise.Visitor.Gather.{fault, accepts}
use anywise.Registry.Sorted.{Role, command, event, IsSorted}
use anywise.Registry.{instance_of, GuardMeta}
use anywise.Manager.{HandlerManager, Managers}
use anywise.Callable.{Callable, function, Entry, Arg, injected}
use anywise.Guard.{Message, Callback, Kind, hooks, Store}
use anywise.Dispatch.{Env, Objects, System}
use native.Mathlib.Omega.{arith}

-- `UserCommand` is 10, `CreateUser` 11, `UpdateUser` 12, `UserEvent` 20 and `UserCreated` 21.
abbrev pub def : ℕ → List ℕ → ClassDef
def c bases = record { name = c; bases = bases }

abbrev pub table : ClassTable
table =
    def 12 (10 ∷ [])
    ∷ def 11 (10 ∷ [])
    ∷ def 10 (1 ∷ [])
    ∷ def 21 (20 ∷ [])
    ∷ def 20 (1 ∷ [])
    ∷ def 2 (1 ∷ [])
    ∷ def 0 (1 ∷ [])
    ∷ def 3 (1 ∷ [])
    ∷ def 1 []
    ∷ []

pub table-IsClassTable : IsClassTable table
table-IsClassTable = ground arith

-- `async def create_user(cmd: CreateUser)`
abbrev pub create_user : Function
create_user = record { ref = 5; params = cls 11 ∷ []; is_async = true }

-- `def on_created(event: UserCreated)`
abbrev pub on_created : Function
on_created = record { ref = 6; params = cls 21 ∷ []; is_async = false }

-- `async def create_user_again(cmd: CreateUser)`
abbrev pub create_user_again : Function
create_user_again = record { ref = 7; params = cls 11 ∷ []; is_async = true }

abbrev pub functions : List (Role × Function)
functions = (command, create_user) ∷ (event, on_created) ∷ (command, create_user_again) ∷ []

pub functions-IsSorted : All (IsSorted table 10 20) functions
unfolding fault issubclass accepts
functions-IsSorted = (
  ((cls 11, [], refl, refl), (λ e h. ground arith), (11, refl, refl)),
  (
    ((cls 21, [], refl, refl), (21, refl, refl), (λ e h. ground arith)),
    (((cls 11, [], refl, refl), (λ e h. ground arith), (11, refl, refl)), tt),
  ),
)

abbrev pub create_user_meta : FuncMeta
create_user_meta = build_meta create_user [] (11 ∷ []) none 11

-- The user's code appends to a log.
abbrev pub World : Type 0
World = List ℕ

abbrev pub UserEnv : Type 0
UserEnv = Env ℕ World

abbrev pub log : ℕ → Callback UserEnv ℕ
log n message s = (ok n, record s { world = s.world ++ n ∷ [] })

abbrev pub refuse : Callback UserEnv ℕ
refuse message s = (err (raised 9), s)

abbrev pub kind : ℕ → Kind UserEnv ℕ
kind g = hooks (some (log g)) none

abbrev pub store : Store UserEnv ℕ Callable
store = record { kind = kind; next_guard = λ g. none }

abbrev pub perform : Callable → Callback UserEnv ℕ
perform c = log 7

abbrev pub objects : Objects UserEnv ℕ (Unit {0})
objects = record { store = store; container = tt }

-- A guard class `c` resolves to the object 100 + `c`.
abbrev pub resolve : ℕ → Exec (Objects UserEnv ℕ (Unit {0})) ℕ
resolve c o = (ok (100 + c), o)

abbrev pub guard_meta : ℕ → ℕ → GuardMeta
guard_meta target g = record { guard_target = target; guard = instance_of g none none }

abbrev pub handlers : HandlerManager
handlers = record {
  handler_metas = (11, create_user_meta) ∷ [];
  guard_mapping = (11, guard_meta 11 4 ∷ []) ∷ [];
  global_guards = guard_meta 0 3 ∷ [];
}

abbrev pub managers : Managers
managers = record { handlers = handlers; listeners = (21, create_user_meta ∷ []) ∷ [] }

abbrev pub system : System UserEnv ℕ (Unit {0})
system = record { managers = managers; objects = objects }

abbrev pub create : Message ℕ
create = record { cls = 11; payload = 1 }

abbrev pub created : Message ℕ
created = record { cls = 21; payload = 1 }

-- The signature of a function is seen, and that of anything around one is not.
abbrev supplied : Callable → List Arg → List Arg → List Arg
supplied (function f) args more = args ++ more
supplied _ args more = args

abbrev pub supply : Entry
supply ignore c args = supplied c args (injected ignore ∷ [])
