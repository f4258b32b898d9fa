-- ===== src/Messages/EventStore/Stored.antt =====
-- A store that starts empty and takes events by `add`, and the events of an entity.
use anywise.Common.{
  ℕ, Bool, true, false, ap, ◌≡◌, refl, Option, none, some, List, [], ◌∷◌, ◌++◌, if◌then◌else◌,
  IsDistinct,
}
use anywise.Common.Dict.{Dict, lookup}
use anywise.Common.Reorder.{IsReordered}
use anywise.Errors.{Result, ok}
use anywise.Exec.{Exec}
use anywise.Classes.{ClassTable}
use anywise.Classes.Below.{Below}
use anywise.Messages.{EventClass, Event, Cell, value, base_fields, entity_id_key}
use anywise.Messages.Attrs.{cell_of}
use anywise.Messages.Row.{Fits, IsRowOf, IsComplete}
use anywise.Messages.Table.{mapping_to_event}
use anywise.Messages.EventStore.{Condition, entity_is, Engine, add}

-- A selection takes all rows, or those of one entity.
abbrev pub takes : Option ℕ → (ℕ → Bool) → Bool
takes none of_id = true
takes (some entity_id) of_id = of_id entity_id

module _ {V : Type 0} where
  -- What a comparison of the column with an id says of a row or a mapping.
  abbrev pub is_entity : (V → ℕ → Bool) → Option (Cell V) → ℕ → Bool
  is_entity equals (some (value v)) entity_id = equals v entity_id
  is_entity equals _ entity_id = false

  abbrev pub has_id : (V → ℕ → Bool) → Option V → ℕ → Bool
  has_id equals (some v) entity_id = equals v entity_id
  has_id equals none entity_id = false

  pub is_entity-cell_of :
      (equals : V → ℕ → Bool) (o : Option V) (entity_id : ℕ)
      → is_entity equals (cell_of o) entity_id ≡ has_id equals o entity_id
  is_entity-cell_of equals (some v) entity_id = refl
  is_entity-cell_of equals none entity_id = refl

  abbrev pub condition : Option ℕ → Option (Condition V)
  condition none = none
  condition (some entity_id) = some (entity_is entity_id)

  pub takes-cell_of :
      (equals : V → ℕ → Bool) (o : Option V) (which : Option ℕ)
      → takes which (is_entity equals (cell_of o)) ≡ takes which (has_id equals o)
  takes-cell_of equals o none = refl
  takes-cell_of equals o (some entity_id) = is_entity-cell_of equals o entity_id

  -- The events that a selection takes.
  abbrev pub selected : (V → ℕ → Bool) → Option ℕ → List (Event V) → List (Event V)
  selected equals which [] = []
  selected equals which (event ∷ events) =
      let rest = selected equals which events in
      if takes which (has_id equals (event.attrs entity_id_key)) then event ∷ rest else rest

  pub selected_all :
      (equals : V → ℕ → Bool) (events : List (Event V)) → selected equals none events ≡ events
  selected_all equals [] = refl
  selected_all equals (event ∷ events) = ap (λ rest. event ∷ rest) (selected_all equals events)

  -- An insert that returned: a row was written from the mapping, and a selection that takes it gives
  -- it besides the rows from before, in any order.
  pub record IsInserted {D : Type 0} (equals : V → ℕ → Bool) (engine : Engine D V)
      (mapping : Dict (Cell V)) (db db' : D) : Type 0 where
    pub row : Dict (Cell V)
    pub written : IsRowOf mapping row
    pub rows :
        (which : Option ℕ)
        → IsReordered (engine.select (condition which) db') (
            (if takes which (is_entity equals (lookup entity_id_key mapping)) then row ∷ [] else [])
            ++ engine.select (condition which) db)

  abbrev pub IsEngine : {D : Type 0} → (V → ℕ → Bool) → Engine D V → Type 0
  IsEngine {D} equals engine =
      (mapping : Dict (Cell V)) (db db' : D)
      → Fits mapping
      → engine.insert mapping db ≡ (ok tt, db')
      → IsInserted equals engine mapping db db'

module _ {V : Type 0} (classes : ℕ → EventClass V) (t : ClassTable) (base : ℕ) where
  -- An event of a subclass of the event class that lists its own fields first, does not override
  -- `__type_id__`, and has values for its fields.
  pub record IsSound (event : Event V) : Type 0 where
    pub own : List ℕ
    pub lists : (classes event.cls).fields ≡ own ++ base_fields
    pub distinct : IsDistinct (own ++ base_fields)
    pub complete : IsComplete (own ++ base_fields) event.attrs
    pub below : Below t event.cls base
    pub type_id : (classes event.cls).type_id ≡ (classes event.cls).default_typeid

  -- No two event classes have one type id.
  abbrev pub AreApart : Type 0
  AreApart =
      (c d : ℕ)
      → Below t c base
      → Below t d base
      → (classes c).type_id ≡ (classes d).type_id
      → c ≡ d

module _ {V : Type 0} (classes : ℕ → EventClass V) (t : ClassTable) (base : ℕ)
    (construct : ℕ → Dict (Cell V) → Result (Event V)) where
  abbrev pub read : Dict (Cell V) → Exec (Dict ℕ) (Event V)
  read = mapping_to_event classes t base construct

  -- A store that was empty and that the events were added to, the last one first.
  pub data Stored {D : Type 0} (engine : Engine D V) : List (Event V) → D → Type 0 where
    empty :
        {db : D}
        → ((which : Option ℕ) → engine.select (condition which) db ≡ [])
        → Stored engine [] db
    added :
        {event : Event V} {events : List (Event V)} {db db' : D}
        → IsSound classes t base event
        → add engine classes read event db ≡ (ok tt, db')
        → Stored engine events db
        → Stored engine (event ∷ events) db'
