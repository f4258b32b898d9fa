-- ===== src/Messages/EventStore/Reading.antt =====
-- What the methods that read an event store return for the events that were added to it.
use anywise.Common.{ℕ, Bool, false, ◌≡◌, refl, ap, subst, Option, none, some, List, [], ◌∷◌}
use anywise.Common.Dict.{Dict}
use anywise.Common.Reorder.{IsReordered}
use anywise.Errors.{Result, ok}
use anywise.Exec.{Exec, pure, continue}
use anywise.Classes.{ClassTable, IsClassTable}
use anywise.Messages.{EventClass, Event, Cell}
use anywise.Visitor.Subclasses.{has_metaclass}
use anywise.Messages.Registry.{IsRegistry}
use anywise.Messages.Row.{IsConstructor}
use anywise.Messages.EventStore.{
  entity_is, Engine, read_rows, stream_of, event_stream, list_events, list_all_events,
}
use anywise.Messages.EventStore.Stored.{selected, selected_all, IsEngine, AreApart, read, Stored}
use anywise.Messages.EventStore.Listing.{AreReadAs, nil, cons, read_rows-AreReadAs, Stored-rows}

module _ {D V : Type 0} (engine : Engine D V) (classes : ℕ → EventClass V)
    (read : Dict (Cell V) → Exec (Dict ℕ) (Event V)) where
  -- If the comparison of the entity id is false as a Python truth value, as SQLAlchemy's comparison
  -- of a column with a value is, `event_stream` does not look at the version.
  pub event_stream_any_version :
      (entity_id : ℕ) (v w : V) (db : D)
      → engine.truth (entity_is entity_id) ≡ false
      → event_stream engine classes read entity_id v db
        ≡ event_stream engine classes read entity_id w db
  unfolding event_stream
  event_stream_any_version entity_id v w db t = rw t refl

-- What `event_stream` returns for the events that it finds.
abbrev pub stream : {V : Type 0} → List (Event V) → Option (List (Event V))
stream [] = none
stream (event ∷ events) = some (event ∷ events)

module _ {V : Type 0} (classes : ℕ → EventClass V) (t : ClassTable) (base : ℕ)
    (construct : ℕ → Dict (Cell V) → Result (Event V)) where
  stream_of-AreReadAs :
      {D : Type 0} (engine : Engine D V) (rows : List (Dict (Cell V))) (events : List (Event V))
      (registry registry' : Dict ℕ)
      → AreReadAs classes t base construct rows events
      → read_rows (read classes t base construct) rows registry ≡ (ok events, registry')
      → stream_of engine classes (read classes t base construct) rows registry
        ≡ (ok (stream events), registry')
  unfolding read_rows
  stream_of-AreReadAs engine [] [] registry registry' nil e = ap (λ r. (ok none, r.1)) e
  stream_of-AreReadAs engine [] (event ∷ events) registry registry' h e = elim h [ ]
  stream_of-AreReadAs engine (row ∷ rows) [] registry registry' h e = elim h [ ]
  stream_of-AreReadAs engine (row ∷ rows) (event ∷ events) registry registry' (cons h rest) e =
      ap (λ r. continue r.0 (λ events'. pure (some events')) r.1) e

  module _ (v : IsClassTable t) (plain : has_metaclass t base ≡ false)
      (apart : AreApart classes t base) (builds : IsConstructor classes construct) {D : Type 0}
      (engine : Engine D V) (equals : V → ℕ → Bool) (inserts : IsEngine equals engine) where
    -- In a table that defines each class once, after its bases, let neither the event class nor a
    -- class below it be a metaclass, let no two event classes have one type id, let a class be
    -- built from exactly its fields, let an insert that returns add one row to what the selections
    -- that take it give, in any order, and let the comparison of a column with an entity id be
    -- false as a truth value. Let a store that was empty take events by calls of `add` that
    -- returned: events of subclasses of the event class that list their own fields first, do not
    -- override `__type_id__` and have values for their fields. Then, whatever the registry of event
    -- types has cached, `list_events` returns exactly the events that were added with the entity
    -- id, with all their fields, each as often as it was added, in some order; `event_stream`
    -- returns the same events, whatever the version it is given, or `None` if there are none; and
    -- `list_all_events` yields all the events that were added, in some order.
    pub listings-Stored :
        {events : List (Event V)} {db : D}
        → Stored classes t base construct engine events db
        → (entity_id : ℕ) (version : V) (registry : Dict ℕ) → IsRegistry classes t base registry
        → engine.truth (entity_is entity_id) ≡ false
        → ((found : List (Event V)) × (registry' : Dict ℕ) × (list_events engine classes
                (read classes t base construct)
                entity_id
                db
                registry
              ≡ (ok found, registry'))
            × (event_stream engine classes
                  (read classes t base construct)
                  entity_id
                  version
                  db
                  registry
                ≡ (ok (stream found), registry'))
            × IsReordered found (selected equals (some entity_id) events)
            × IsRegistry classes t base registry')
          × ((all : List (Event V)) × (registry' : Dict ℕ) × (list_all_events engine classes
                  (read classes t base construct)
                  db
                  registry
                ≡ (ok all, registry'))
              × IsReordered all events
              × IsRegistry classes t base registry')
    unfolding list_events event_stream list_all_events
    listings-Stored {events = events} {db = db} s entity_id version registry known is_false =
        let (found, r, q) =
          Stored-rows classes t base construct v plain apart builds engine equals inserts s
            (some entity_id) in
        let (registry', e, next) = read_rows-AreReadAs classes t base construct r registry known in
        let (all, r', q') =
          Stored-rows classes t base construct v plain apart builds engine equals inserts s none in
        let (registry'', e', next') =
          read_rows-AreReadAs classes t base construct r' registry known in
        (
          (
            found,
            registry',
            e,
            rw is_false (
                stream_of-AreReadAs engine (engine.select (some (entity_is entity_id)) db) found
                  registry registry' r e),
            q,
            next,
          ),
          (all, registry'', e', subst (IsReordered all) (selected_all equals events) q', next'),
        )
