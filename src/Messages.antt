-- ===== src/Messages.antt =====
-- anywise/messages/model.py: events, their normalized form, and the registry of event types. A
-- string that is only compared is a number: field names and type ids are. `V` are the values of
-- attributes.
pub mod Registry
pub mod Table
pub mod Attrs
pub mod Row
pub mod Keywords
pub mod RoundTrip
pub mod EventStore
pub mod Entity
pub mod Streams
use anywise.Common.{ℕ, ◌-◌, Option, none, some, List, [], ◌∷◌, map, length, take}
use anywise.Common.Dict.{Dict, lookup, insert, update}
use anywise.Errors.{Result, ok, err, attribute_error, unregistered_event, ◌>>=◌}
use anywise.Exec.{◌>>◌, pure, Exec}
use anywise.Classes.{ClassTable}
use anywise.Visitor.{all_subclasses}

-- The names that the code spells out.
abbrev pub id_key : ℕ
id_key = 0

abbrev pub version_key : ℕ
version_key = 1

abbrev pub source_key : ℕ
source_key = 2

abbrev pub event_type_key : ℕ
event_type_key = 3

abbrev pub event_body_key : ℕ
event_body_key = 4

abbrev pub gmt_created_key : ℕ
gmt_created_key = 5

abbrev pub gmt_modified_key : ℕ
gmt_modified_key = 6

abbrev pub entity_id_key : ℕ
entity_id_key = 7

abbrev pub event_id_key : ℕ
event_id_key = 8

abbrev pub timestamp_key : ℕ
timestamp_key = 9

-- An event class: what `__type_id__` returns, which a class may override, what `deafult_typeid`
-- makes of its module and name, and its fields in the order of the library that it is built with.
pub record EventClass (V : Type 0) : Type 0 where
  pub type_id : ℕ
  pub default_typeid : ℕ
  pub source : V
  pub version : V
  pub fields : List ℕ

pub record Event (V : Type 0) : Type 0 where
  pub cls : ℕ
  pub attrs : ℕ → Option V

-- What stands under a key of a normalized event or of a row: a string that the code looks at, the
-- event body, or any other value.
pub data Cell (V : Type 0) : Type 0 where
  text : ℕ → Cell V
  value : V → Cell V
  body : Dict V → Cell V

-- `MsgSpecEvent.__struct_fields__`, and the keys of `PydanticEvent.__pydantic_fields__`
abbrev pub base_fields : List ℕ
base_fields = entity_id_key ∷ event_id_key ∷ timestamp_key ∷ []

-- `fields[: -len(base_fields)]`
unfoldable pub current_only_fields : List ℕ → List ℕ
current_only_fields fields = take (length fields - length base_fields) fields

module _ {V : Type 0} where
  abbrev pub with_attr : ℕ → Option V → Result (Dict V) → Result (Dict V)
  with_attr f none rest = err attribute_error
  with_attr f (some v) rest = rest >>= λ d. ok ((f, v) ∷ d)

  -- `{f: getattr(self, f) for f in fields}`
  unfoldable pub getattrs : List ℕ → (ℕ → Option V) → Result (Dict V)
  getattrs [] attrs = ok []
  getattrs (f ∷ fs) attrs = with_attr f (attrs f) (getattrs fs attrs)

  abbrev pub cells : Dict V → Dict (Cell V)
  cells [] = []
  cells ((f, v) ∷ d) = (f, value v) ∷ cells d

  module _ (classes : ℕ → EventClass V) where
    -- `__normalized__` of `MsgSpecEvent` and of `PydanticEvent`
    unfoldable pub normalized : Event V → Result (Dict (Cell V))
    normalized event = do
      mapping ← getattrs base_fields event.attrs
      current ← getattrs (current_only_fields (classes event.cls).fields) event.attrs
      ok (
          insert event_body_key (body current) (
            insert source_key (value (classes event.cls).source) (
              insert version_key (value (classes event.cls).version)
                (insert event_type_key (text (classes event.cls).default_typeid) (cells mapping)))))

    -- `{cls.__type_id__(): cls for cls in ...}`
    abbrev pub by_type_id : List ℕ → Dict ℕ
    by_type_id = map (λ c. ((classes c).type_id, c))

    -- The second `try`
    abbrev pub found_or_fail : ℕ → Option ℕ → Exec (Dict ℕ) ℕ
    found_or_fail event_type_id none registry = (err (unregistered_event event_type_id), registry)
    found_or_fail event_type_id (some c) registry = (ok c, registry)

    -- The body of the `except KeyError`
    abbrev pub update_registry : Result (List ℕ) → Exec (Dict ℕ) (Unit {0})
    update_registry (err e) registry = (err e, registry)
    update_registry (ok subclasses) registry =
        (ok tt, update registry (update [] (by_type_id subclasses)))

    abbrev pub found_or_update : ClassTable → ℕ → ℕ → Option ℕ → Exec (Dict ℕ) ℕ
    found_or_update t event_type_id event_cls none =
        update_registry (all_subclasses t event_cls) >> λ registry.
        found_or_fail event_type_id (lookup event_type_id registry) registry
    found_or_update t event_type_id event_cls (some c) = pure c

    -- `get_event_cls`, on the module's `__EventTypeRegistry__`
    unfoldable pub get_event_cls : ClassTable → ℕ → ℕ → Exec (Dict ℕ) ℕ
    get_event_cls t event_type_id event_cls registry =
        found_or_update t event_type_id event_cls (lookup event_type_id registry) registry
