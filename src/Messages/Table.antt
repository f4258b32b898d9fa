-- ===== src/Messages/Table.antt =====
-- anywise/messages/table.py: events to rows and back. The table and the database are SQLAlchemy's; a
-- row is a mapping from column names. `construct` is what calling an event class does, which is
-- msgspec's or pydantic's.
use anywise.Common.{
  ℕ, Bool, true, false, Option, none, some, List, [], ◌∷◌, ◌++◌, map, contains, any, if◌then◌else◌,
}
use anywise.Common.Dict.{Dict, lookup, keys, reject}
use anywise.Errors.{Result, ok, err, key_error, type_error, attribute_error}
use anywise.Exec.{Exec, raise, lift, ◌>>=◌, ◌>>◌}
use anywise.Visitor.{all_subclasses}
use anywise.Classes.{ClassTable}
use anywise.Messages.{
  id_key, version_key, source_key, event_type_key, event_body_key, gmt_created_key,
  gmt_modified_key, entity_id_key, event_id_key, timestamp_key, EventClass, Event, Cell, text,
  value, body, cells, normalized, update_registry, get_event_cls,
}

-- A column of a table: its name, and whether an insert has to name it, which it does where the column
-- is `nullable=False`. The primary key is counted by the database.
pub record Column : Type 0 where
  pub name : ℕ
  pub is_required : Bool

abbrev column : ℕ → Column
column name = record { name = name; is_required = false }

abbrev required_column : ℕ → Column
required_column name = record { name = name; is_required = true }

-- `TableBase`
abbrev pub table_base : List Column
table_base = column id_key ∷ column gmt_modified_key ∷ column gmt_created_key ∷ []

-- `EventTable`
abbrev pub event_table : List Column
event_table =
    table_base
    ++ required_column event_id_key
      ∷ column event_type_key
      ∷ column event_body_key
      ∷ required_column source_key
      ∷ required_column entity_id_key
      ∷ column timestamp_key
      ∷ column version_key
      ∷ []

abbrev pub column_names : List ℕ
column_names = map (λ c. c.name) event_table

abbrev required_of : List Column → List ℕ
required_of [] = []
required_of (c ∷ columns) =
    let rest = required_of columns in if c.is_required then c.name ∷ rest else rest

abbrev pub required_names : List ℕ
required_names = required_of event_table

-- `TABLE_RESERVED_VARS`
abbrev pub table_reserved_vars : List ℕ
table_reserved_vars =
    id_key ∷ version_key ∷ source_key ∷ event_type_key ∷ event_body_key ∷ gmt_created_key
    ∷ gmt_modified_key ∷ []

module _ {V : Type 0} where
  -- `{k: v for k, v in row_mapping.items() if k not in TABLE_RESERVED_VARS}`
  abbrev pub unreserved : Dict (Cell V) → Dict (Cell V)
  unreserved = reject (λ k. contains k table_reserved_vars)

  -- `**mapping, **body`: what is no mapping cannot be spread, and no keyword may come twice.
  unfoldable pub kwargs : Dict (Cell V) → Option (Cell V) → Result (Dict (Cell V))
  kwargs mapping none = err key_error
  kwargs mapping (some (body d)) =
      if any (λ k. contains k (keys mapping)) (keys d)
      then err type_error
      else ok (mapping ++ cells d)
  kwargs mapping (some (text s)) = err type_error
  kwargs mapping (some (value v)) = err type_error

  module _ (classes : ℕ → EventClass V) where
    unfoldable pub event_to_mapping : Event V → Result (Dict (Cell V))
    event_to_mapping event = normalized classes event

    module _ (t : ClassTable) (event_cls : ℕ)
        (construct : ℕ → Dict (Cell V) → Result (Event V)) where
      -- `get_event_cls(row_mapping["event_type"])`: a type id that is no string is not found, and
      -- the error then fails on its `replace`; a dict is no key.
      abbrev pub class_of : Option (Cell V) → Exec (Dict ℕ) ℕ
      class_of none = raise key_error
      class_of (some (text type_id)) = get_event_cls classes t type_id event_cls
      class_of (some (value v)) =
          update_registry classes (all_subclasses t event_cls) >> raise attribute_error
      class_of (some (body d)) = raise type_error

      unfoldable pub mapping_to_event : Dict (Cell V) → Exec (Dict ℕ) (Event V)
      mapping_to_event row = class_of (lookup event_type_key row) >>= λ cls.
          lift (kwargs (unreserved row) (lookup event_body_key row)) >>= λ kw.
          lift (construct cls kw)
