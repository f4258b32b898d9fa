-- ===== src/Messages/EventStore.antt =====
-- anywise/messages/eventstore.py. The database is SQLAlchemy's: what `insert`, `select` and the truth
-- of a condition do are parameters.
pub mod Reading
pub mod Stored
pub mod Listing
use anywise.Common.{
  ℕ, Bool, true, false, not, ◌&&◌, Option, none, some, List, [], ◌∷◌, ◌++◌, ◌==◌, if◌then◌else◌,
}
use anywise.Common.Dict.{Dict, get_list, extend, reject}
use anywise.Errors.{Result, ok, err}
use anywise.Exec.{Exec, pure, lift, gets, ◌>>=◌}
use anywise.Messages.{EventClass, Event, Cell}
use anywise.Messages.Table.{event_to_mapping}

-- `EventTable.entity_id == entity_id` and `EventTable.version == version`
pub data Condition (V : Type 0) : Type 0 where
  entity_is : ℕ → Condition V
  version_is : V → Condition V

-- What the engine does: `insert(EventTable).values(...)`, `select(EventTable)` with or without a
-- `where`, and `bool` of a condition.
pub record Engine (D V : Type 0) : Type 0 where
  pub insert : Dict (Cell V) → Exec D (Unit {0})
  pub select : Option (Condition V) → D → List (Dict (Cell V))
  pub truth : Condition V → Bool

-- The `and` of Python: its first operand if that is false, else its second.
abbrev pub python_and :
    {V : Type 0} → (Condition V → Bool) → Condition V → Condition V → Condition V
python_and truth a b = if truth a then b else a

module _ {V : Type 0} (read : Dict (Cell V) → Exec (Dict ℕ) (Event V)) where
  -- `[mapping_to_event(mapping) for mapping in mappings]`
  unfoldable pub read_rows : List (Dict (Cell V)) → Exec (Dict ℕ) (List (Event V))
  read_rows [] = pure []
  read_rows (row ∷ rows) =
      let rest = read_rows rows in read row >>= λ event. rest >>= λ events. pure (event ∷ events)

module _ {D V : Type 0} (engine : Engine D V) (classes : ℕ → EventClass V)
    (read : Dict (Cell V) → Exec (Dict ℕ) (Event V)) where
  -- `EventStore.add`
  unfoldable pub add : Event V → Exec D (Unit {0})
  add event = lift (event_to_mapping classes event) >>= engine.insert

  -- `EventStore.list_events`, and `list_all_events` read to its end
  unfoldable pub list_events : ℕ → D → Exec (Dict ℕ) (List (Event V))
  list_events entity_id db = read_rows read (engine.select (some (entity_is entity_id)) db)

  unfoldable pub list_all_events : D → Exec (Dict ℕ) (List (Event V))
  list_all_events db = read_rows read (engine.select none db)

  abbrev pub stream_of : List (Dict (Cell V)) → Exec (Dict ℕ) (Option (List (Event V)))
  stream_of [] = pure none
  stream_of (row ∷ rows) = read_rows read (row ∷ rows) >>= λ events. pure (some events)

  -- `EventStore.event_stream`
  unfoldable pub event_stream : ℕ → V → D → Exec (Dict ℕ) (Option (List (Event V)))
  event_stream entity_id version db =
      stream_of (
        engine.select (some (python_and engine.truth (entity_is entity_id) (version_is version)))
          db)

-- The state of the generator `all_event_streams`: `grouped` and `current_id`. The empty id is 0.
pub record Grouping (E : Type 0) : Type 0 where
  pub grouped : Dict (List E)
  pub current_id : ℕ

module _ {E : Type 0} (entity_id : E → ℕ) where
  -- `if current_id and current_id != e.entity_id`
  abbrev pub is_new : E → Grouping E → Bool
  is_new e s = not (s.current_id == 0) && not (s.current_id == entity_id e)

  -- The body of the loop: what it yields, and the state after it.
  unfoldable pub group_event : E → Grouping E → List (List E) × Grouping E
  group_event e s =
      let left = if is_new e s then reject (λ k. k == s.current_id) s.grouped else s.grouped in
      (
        (if is_new e s then get_list s.current_id s.grouped ∷ [] else []),
        record { grouped = extend (entity_id e) (e ∷ []) left; current_id = entity_id e },
      )

  unfoldable pub streams_from : List E → Grouping E → List (List E)
  streams_from [] s = if s.current_id == 0 then [] else get_list s.current_id s.grouped ∷ []
  streams_from (e ∷ events) s = let (out, s') = group_event e s in out ++ streams_from events s'

  -- `EventStore.all_event_streams`, on the events that `list_all_events` yields
  unfoldable pub all_event_streams : List E → List (List E)
  all_event_streams events = streams_from events (record { grouped = []; current_id = 0 })
