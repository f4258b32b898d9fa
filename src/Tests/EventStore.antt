-- ===== src/Tests/EventStore.antt =====
-- An event store whose database is a list of rows.
use anywise.Common.{
  ℕ, Bool, false, ◌≡◌, refl, ap, subst, inl, inr, Bool-cases, Option, none, some, List, [], ◌∷◌,
  ◌++◌, arith, ◌==◌, if◌then◌else◌,
}
use anywise.Common.Dict.{Dict, lookup}
use anywise.Common.Reorder.{IsReordered, IsReordered-same}
use anywise.Errors.{ok}
use anywise.Classes.{subclasses, issubclass}
use anywise.Classes.Below.{Below}
use anywise.Messages.{Event, Cell, entity_id_key, normalized, getattrs, current_only_fields}
use anywise.Visitor.Subclasses.{has_metaclass}
use anywise.Messages.Registry.{IsRegistry}
use anywise.Messages.Table.{event_to_mapping}
use anywise.Messages.EventStore.{
  Condition, entity_is, version_is, Engine, add, list_events, list_all_events, event_stream,
}
use anywise.Messages.EventStore.Stored.{
  takes, condition, is_entity, IsEngine, IsSound, AreApart, read, Stored, empty, added,
}
use anywise.Messages.EventStore.Reading.{stream, listings-Stored}
use anywise.Tests.Messages.{
  classes, user_created, construct, construct-IsConstructor, write, write-IsRowOf,
}
use anywise.Tests.Sample.{table, table-IsClassTable}

abbrev Rows : Type 0
Rows = List (Dict (Cell ℕ))

abbrev equals : ℕ → ℕ → Bool
equals v entity_id = v == entity_id

abbrev rows_of : ℕ → Rows → Rows
rows_of entity_id [] = []
rows_of entity_id (row ∷ rows) =
    let rest = rows_of entity_id rows in
    if is_entity equals (lookup entity_id_key row) entity_id then row ∷ rest else rest

abbrev selection : Option (Condition ℕ) → Rows → Rows
selection (some (entity_is entity_id)) db = rows_of entity_id db
selection (some (version_is v)) db = db
selection none db = db

all_rows_none_yet : (which : Option ℕ) → selection (condition which) [] ≡ []
all_rows_none_yet none = refl
all_rows_none_yet (some entity_id) = refl

abbrev engine : Engine Rows ℕ
engine = record {
  insert = λ mapping db. (ok tt, write mapping ∷ db);
  select = selection;
  truth = λ condition. false;
}

selection-write :
    (which : Option ℕ) (mapping : Dict (Cell ℕ)) (db : Rows)
    → lookup entity_id_key (write mapping) ≡ lookup entity_id_key mapping
    → IsReordered (selection (condition which) (write mapping ∷ db)) (
        (if takes which (is_entity equals (lookup entity_id_key mapping))
          then write mapping ∷ []
          else [])
        ++ selection (condition which) db)
selection-write none mapping db id = IsReordered-same (write mapping ∷ db)
selection-write (some entity_id) mapping db id =
    elim (Bool-cases (is_entity equals (lookup entity_id_key mapping) entity_id)) [
      | inl yes_it ↦ rw (id, yes_it) (IsReordered-same (write mapping ∷ rows_of entity_id db))
      | inr other ↦ rw (id, other) (IsReordered-same (rows_of entity_id db))
    ]

engine-IsEngine : IsEngine equals engine
engine-IsEngine mapping db db' fits done =
    let r = write-IsRowOf mapping fits in
    let id : lookup entity_id_key (write mapping) ≡ lookup entity_id_key mapping =
      r.agrees entity_id_key (fits.complete entity_id_key refl) in
    record {
      row = write mapping;
      written = r;
      rows = λ which.
          subst
            (λ d. IsReordered (selection (condition which) d) (
              (if takes which (is_entity equals (lookup entity_id_key mapping))
                then write mapping ∷ []
                else [])
              ++ selection (condition which) db))
            (ap (λ out. out.1) done) (selection-write which mapping db id);
    }

below_events : has_metaclass table 20 ≡ false
unfolding issubclass
below_events = refl

classes-AreApart : AreApart classes table 20
classes-AreApart c d c_below d_below same = omega (arith, same)

-- Of another entity.
abbrev user_created_too : Event ℕ
user_created_too = record {
  cls = 21;
  attrs = λ f. lookup f ((7, 200) ∷ (8, 201) ∷ (9, 202) ∷ (20, 203) ∷ (21, 204) ∷ []);
}

user_created-IsSound : IsSound classes table 20 user_created
unfolding subclasses
user_created-IsSound = record {
  own = 20 ∷ 21 ∷ [];
  lists = refl;
  distinct = ground arith;
  complete = λ f. ground arith;
  below = Below.direct refl;
  type_id = refl;
}

user_created_too-IsSound : IsSound classes table 20 user_created_too
unfolding subclasses
user_created_too-IsSound = record {
  own = 20 ∷ 21 ∷ [];
  lists = refl;
  distinct = ground arith;
  complete = λ f. ground arith;
  below = Below.direct refl;
  type_id = refl;
}

abbrev db_after : Event ℕ → Rows → Rows
db_after event db = (add engine classes (read classes table 20 construct) event db).1

store-Stored :
    Stored classes table 20 construct engine
      (user_created ∷ user_created_too ∷ user_created ∷ [])
      (db_after user_created (db_after user_created_too (db_after user_created [])))
unfolding add event_to_mapping normalized getattrs current_only_fields
store-Stored = added user_created-IsSound refl (
    added user_created_too-IsSound refl (added user_created-IsSound refl (empty all_rows_none_yet)))

abbrev stored : Rows
stored = db_after user_created (db_after user_created_too (db_after user_created []))

listings-Stored_example :
    ((found : List (Event ℕ)) × (registry' : Dict ℕ) × (list_events engine classes
          (read classes table 20 construct)
          100
          stored
          []
        ≡ (ok found, registry'))
      × (event_stream engine classes (read classes table 20 construct) 100 2 stored []
          ≡ (ok (stream found), registry'))
      × IsReordered found (user_created ∷ user_created ∷ [])
      × IsRegistry classes table 20 registry')
    × ((all : List (Event ℕ)) × (registry' : Dict ℕ) × (list_all_events engine classes
            (read classes table 20 construct)
            stored
            []
          ≡ (ok all, registry'))
        × IsReordered all (user_created ∷ user_created_too ∷ user_created ∷ [])
        × IsRegistry classes table 20 registry')
listings-Stored_example =
    listings-Stored classes table 20 construct table-IsClassTable below_events classes-AreApart
      construct-IsConstructor engine equals engine-IsEngine store-Stored 100 2 []
      (λ i c h. absurd (ground (arith, h))) refl
