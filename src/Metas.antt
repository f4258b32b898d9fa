-- ===== src/Metas.antt =====
-- anywise/_ds.py, and the functions of anywise/registry.py that read a handler's signature:
-- `is_contextparam`, `get_funcmetas` and `get_methodmetas`.
pub mod Bases
pub mod Laws
use Prim.Native.String.{String}
use text.Mathlib.Text.{starts_with}
use anywise.Common.{
  ℕ, Bool, true, false, Option, none, some, List, [], ◌∷◌, ◌++◌, map, contains, all, if◌then◌else◌,
}
use anywise.Errors.{
  Result, ok, err, message_handler_not_found, invalid_handler, value_error, ◌>>=◌, ◌>>◌,
}
use anywise.Classes.{ClassTable, issubclass}
use anywise.Visitor.{Annotation, alias, gather_types}

-- What `inspect` tells of a function: its identity, the annotations of its parameters in order,
-- and `iscoroutinefunction`.
pub record Function : Type 0 where
  pub ref : ℕ
  pub params : List Annotation
  pub is_async : Bool

-- An item of `FuncMeta.ignore`.
pub data Ignored : Type 0 where
  message : ℕ → Ignored
  context_alias frozen_context_alias : Ignored

-- `FuncMeta`; a `MethodMeta` is one with an owner type.
pub record FuncMeta : Type 0 where
  pub message_type : ℕ
  pub handler : Function
  pub is_async : Bool
  pub is_contexted : Bool
  pub ignore : List Ignored
  pub owner_type : Option ℕ

-- The metadata `CTX_MARKER`.
abbrev pub ctx_marker : ℕ
ctx_marker = 0

-- `IGNORE_TYPES`
abbrev pub ignore_types : List Ignored
ignore_types = context_alias ∷ frozen_context_alias ∷ []

-- Only a `type` alias has a `__value__`, and only the first of the parameters counts.
unfoldable pub is_contextparam : List Annotation → Bool
is_contextparam [] = false
is_contextparam (alias subscripted origin metadata ∷ rest) = contains ctx_marker metadata
is_contextparam (_ ∷ rest) = false

abbrev pub build_meta : Function → List Annotation → List ℕ → Option ℕ → ℕ → FuncMeta
build_meta func rest types owner t = record {
  message_type = t;
  handler = func;
  is_async = func.is_async;
  is_contexted = is_contextparam rest;
  ignore = map message types ++ ignore_types;
  owner_type = owner;
}

-- The loop that raises `InvalidHandlerError` at the first type outside the base.
unfoldable pub check_types : ClassTable → ℕ → List ℕ → Result (Unit {0})
check_types t msg_base [] = ok tt
check_types t msg_base (c ∷ cs) =
    if issubclass t c msg_base then check_types t msg_base cs else err (invalid_handler msg_base c)

abbrev pub funcmetas_from : ClassTable → ℕ → Function → List Annotation → Result (List FuncMeta)
funcmetas_from t msg_base func [] = err message_handler_not_found
funcmetas_from t msg_base func (msg ∷ rest) = do
  derived_msgtypes ← gather_types t msg
  check_types t msg_base derived_msgtypes
  ok (map (build_meta func rest derived_msgtypes none) derived_msgtypes)

unfoldable pub get_funcmetas : ClassTable → ℕ → Function → Result (List FuncMeta)
get_funcmetas t msg_base func = funcmetas_from t msg_base func func.params

-- The body of the loop of `get_methodmetas` for one public method: `_, msg, *rest = params` fails
-- to unpack where there is no parameter at all, and a method with `self` alone is passed over.
unfoldable pub methodmetas_of :
    ClassTable → ℕ → ℕ → Function → List Annotation → Result (List FuncMeta)
methodmetas_of t msg_base owner func [] = err value_error
methodmetas_of t msg_base owner func (self ∷ []) = ok []
methodmetas_of t msg_base owner func (self ∷ msg ∷ rest) = do
  derived_msgtypes ← gather_types t msg
  ok (
      if all (λ c. issubclass t c msg_base) derived_msgtypes
      then map (build_meta func rest derived_msgtypes (some owner)) derived_msgtypes
      else [])

-- The loop over `inspect.getmembers(cls, predicate=inspect.isfunction)`.
unfoldable pub collect_members :
    ClassTable → ℕ → ℕ → List (String × Function) → Result (List FuncMeta)
collect_members t msg_base owner [] = ok []
collect_members t msg_base owner ((name, func) ∷ members) = do
  metas ← if starts_with name "_" then ok [] else methodmetas_of t msg_base owner func func.params
  rest ← collect_members t msg_base owner members
  ok (metas ++ rest)

-- A class: its identity, its members as `inspect.getmembers` sorts them, and the parameters of
-- its `__call__`, `self` included.
pub record ClassObject : Type 0 where
  pub ref : ℕ
  pub members : List (String × Function)
  pub call_params : List Annotation

abbrev pub found_any : List FuncMeta → Result (List FuncMeta)
found_any [] = err message_handler_not_found
found_any (m ∷ ms) = ok (m ∷ ms)

unfoldable pub get_methodmetas : ClassTable → ℕ → ClassObject → Result (List FuncMeta)
get_methodmetas t msg_base c = do
  method_metas ← collect_members t msg_base c.ref c.members
  found_any method_metas
