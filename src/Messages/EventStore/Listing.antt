-- ===== src/Messages/EventStore/Listing.antt =====
-- What `list_events` makes of a store that events were added to.
use anywise.Common.{
  ℕ, Bool, false, ◌≡◌, refl, ap, subst, sym, ◌∙◌, inl, inr, Option, some, List, [], ◌∷◌, ◌++◌,
  arith, Bool-cases, if◌then◌else◌,
}
use anywise.Common.Dict.{Dict}
use anywise.Common.Reorder.{IsReordered}
use anywise.Errors.{Result, ok, Result-cases}
use anywise.Exec.{Exec, continue}
use anywise.Classes.{ClassTable, IsClassTable}
use anywise.Classes.Below.{Below}
use anywise.Messages.{EventClass, Event, Cell, entity_id_key, get_event_cls}
use anywise.Visitor.Subclasses.{has_metaclass}
use anywise.Messages.Registry.{IsRegistry, Found, get_event_cls-Found}
use anywise.Messages.Row.{IsRowOf, IsConstructor}
use anywise.Messages.RoundTrip.{event_to_mapping-IsWritten}
use anywise.Messages.Table.{event_to_mapping}
use anywise.Messages.EventStore.{Engine, add, read_rows, list_events}
use anywise.Messages.EventStore.Stored.{
  condition, takes, takes-cell_of, selected, is_entity, has_id, IsEngine, IsSound, AreApart, read,
  Stored, empty, added,
}

module _ {V : Type 0} (classes : ℕ → EventClass V) (t : ClassTable) (base : ℕ)
    (construct : ℕ → Dict (Cell V) → Result (Event V)) where
  abbrev reader : Dict (Cell V) → Exec (Dict ℕ) (Event V)
  reader = read classes t base construct

  -- The row reads back as the event, whatever the registry of event types holds so far.
  abbrev pub IsReadAs : Dict (Cell V) → Event V → Type 0
  IsReadAs row event =
      (registry : Dict ℕ)
      → IsRegistry classes t base registry
      → (registry' : Dict ℕ) × (reader row registry ≡ (ok event, registry'))
        × IsRegistry classes t base registry'

  pub data AreReadAs : List (Dict (Cell V)) → List (Event V) → Type 0 where
    nil : AreReadAs [] []
    cons :
        {row : Dict (Cell V)} {event : Event V} {rows : List (Dict (Cell V))}
        {events : List (Event V)}
        → IsReadAs row event
        → AreReadAs rows events
        → AreReadAs (row ∷ rows) (event ∷ events)

  pub read_rows-AreReadAs :
      {rows : List (Dict (Cell V))} {events : List (Event V)}
      → AreReadAs rows events
      → (registry : Dict ℕ) → IsRegistry classes t base registry
      → (registry' : Dict ℕ) × (read_rows reader rows registry ≡ (ok events, registry'))
        × IsRegistry classes t base registry'
  unfolding read_rows
  read_rows-AreReadAs nil registry known = (registry, refl, known)
  read_rows-AreReadAs (cons h rest) registry known =
      let (next, e, then_known) = h registry known in
      let (last, f, last_known) = read_rows-AreReadAs rest next then_known in
      (last, rw (e, f) refl, last_known)

  AreReadAs-IsReordered :
      {rows rows' : List (Dict (Cell V))} {events : List (Event V)}
      → IsReordered rows' rows
      → AreReadAs rows events
      → (events' : List (Event V)) × AreReadAs rows' events' × IsReordered events' events
  AreReadAs-IsReordered IsReordered.nil nil = ([], nil, IsReordered.nil)
  AreReadAs-IsReordered (IsReordered.cons same p) (cons {event = event} h rest) =
      let (events', r, q) = AreReadAs-IsReordered p rest in
      (
        event ∷ events',
        cons (subst (λ row. IsReadAs row event) (sym same) h) r,
        IsReordered.cons refl q,
      )
  AreReadAs-IsReordered (IsReordered.swap first second)
        (cons {event = event} h (cons {event = next} {events = events} k rest)) =
      (
        next ∷ event ∷ events,
        cons (subst (λ row. IsReadAs row next) (sym first) k)
            (cons (subst (λ row. IsReadAs row event) (sym second) h) rest),
        IsReordered.swap refl refl,
      )
  AreReadAs-IsReordered (IsReordered.trans p q) h =
      let (middle, r, into) = AreReadAs-IsReordered q h in
      let (events', s, onto) = AreReadAs-IsReordered p r in
      (events', s, IsReordered.trans onto into)

  class_found :
      (c : ℕ) (registry : Dict ℕ)
      → IsClassTable t
      → has_metaclass t base ≡ false
      → AreApart classes t base
      → Below t c base
      → (classes c).type_id ≡ (classes c).default_typeid
      → IsRegistry classes t base registry
      → (registry' : Dict ℕ) × (get_event_cls classes t (classes c).default_typeid base registry
          ≡ (ok c, registry'))
        × IsRegistry classes t base registry'
  class_found c registry v plain apart below own known =
      let i = (classes c).default_typeid in
      let out = get_event_cls classes t i base registry in
      let found = get_event_cls-Found classes t base i registry v known in
      elim (Result-cases out.0) [
        | inl (d, e) ↦
            let (is, d_below, next) = subst (λ r. Found classes t base i (r, out.1)) e found in
            (out.1, λ k. ((e ∙ ap ok (apart d c d_below below (is ∙ sym own))) k, out.1), next)
        | inr (problem, e) ↦
            let (why, next) = subst (λ r. Found classes t base i (r, out.1)) e found in
            elim why [
              | inl (raised, none_such) ↦ absurd (none_such c below own)
              | inr (raised, is) ↦ absurd (ground arith)
            ]
      ]

  module _ (v : IsClassTable t) (plain : has_metaclass t base ≡ false)
      (apart : AreApart classes t base) (builds : IsConstructor classes construct) where
    -- Every row that is written from a sound event reads back as the event.
    written_row :
        (event : Event V) (mapping row : Dict (Cell V))
        → IsSound classes t base event
        → event_to_mapping classes event ≡ ok mapping
        → IsRowOf mapping row
        → IsReadAs row event
    written_row event mapping row sound e r registry known =
        let (registry', found, next) =
          class_found event.cls registry v plain apart sound.below sound.type_id known in
        let (mapping', w) =
          event_to_mapping-IsWritten classes t base construct event registry registry' found
            sound.own sound.lists sound.distinct sound.complete builds in
        let same : mapping ≡ mapping' = ground (arith, e, w.normalizes) in
        (registry', w.reads row (subst (λ m. IsRowOf m row) same r), next)

    module _ {D : Type 0} (engine : Engine D V) (equals : V → ℕ → Bool)
        (inserts : IsEngine equals engine) where
      -- The row of the event that was added last.
      last_row :
          (event : Event V) (db db' : D)
          → IsSound classes t base event
          → add engine classes reader event db ≡ (ok tt, db')
          → (row : Dict (Cell V)) × IsReadAs row event
            × ((which : Option ℕ)
                → IsReordered (engine.select (condition which) db') (
                    (if takes which (has_id equals (event.attrs entity_id_key))
                      then row ∷ []
                      else [])
                    ++ engine.select (condition which) db))
      unfolding add
      last_row event db db' sound e =
          let (registry', found, next) =
            class_found event.cls [] v plain apart sound.below sound.type_id
              (λ i c h. absurd (ground (arith, h))) in
          let (mapping, w) =
            event_to_mapping-IsWritten classes t base construct event [] registry' found sound.own
              sound.lists sound.distinct sound.complete builds in
          let done : engine.insert mapping db ≡ (ok tt, db') =
            ap (λ r. continue r engine.insert db) (sym w.normalizes) ∙ e in
          let new = inserts mapping db db' w.fits done in
          (
            new.row,
            written_row event mapping new.row sound w.normalizes new.written,
            λ which.
                subst
                  (λ b.
                    IsReordered (engine.select (condition which) db')
                      ((if b then new.row ∷ [] else []) ++ engine.select (condition which) db))
                  (ap (λ o. takes which (is_entity equals o)) w.entity
                    ∙ takes-cell_of equals (event.attrs entity_id_key) which)
                  (new.rows which),
          )

      pub Stored-rows :
          {events : List (Event V)} {db : D}
          → Stored classes t base construct engine events db
          → (which : Option ℕ)
          → (found : List (Event V)) × AreReadAs (engine.select (condition which) db) found
            × IsReordered found (selected equals which events)
      Stored-rows (empty none_yet) which =
          ([], subst (λ rows. AreReadAs rows []) (sym (none_yet which)) nil, IsReordered.nil)
      Stored-rows (added {event = event} {events = events} {db = db} {db' = db'} sound e s) which =
          let (found, r, q) = Stored-rows s which in
          let (row, reads, all_rows) = last_row event db db' sound e in
          elim (Bool-cases (takes which (has_id equals (event.attrs entity_id_key)))) [
            | inl its ↦
                let (found', r', p) =
                  AreReadAs-IsReordered (rw its at (all_rows which)) (cons reads r) in
                (found', r', rw its (IsReordered.trans p (IsReordered.cons refl q)))
            | inr other ↦
                let (found', r', p) = AreReadAs-IsReordered (rw other at (all_rows which)) r in
                (found', r', rw other (IsReordered.trans p q))
          ]

      -- In a table that defines each class once, after its bases, let no class below the event class be a
      -- metaclass, let no two event classes have one type id, let a class be built from exactly its fields, and let an insert that returns add
      -- one row to what the selections that take it give, in any order. Let a store that was empty
      -- take events by calls of `add` that returned: events of subclasses of the event class that
      -- list their own fields first, do not override `__type_id__` and have values for their
      -- fields. Then `list_events` returns, for every entity and whatever the registry of event
      -- types has cached, exactly the events that were added with this entity id, with all their
      -- fields, each as often as it was added, in some order.
      pub list_events-Stored :
          {events : List (Event V)} {db : D}
          → Stored classes t base construct engine events db
          → (entity_id : ℕ) (registry : Dict ℕ) → IsRegistry classes t base registry
          → (found : List (Event V)) × (registry' : Dict ℕ) × (list_events engine classes reader
                entity_id db registry
              ≡ (ok found, registry'))
            × IsReordered found (selected equals (some entity_id) events)
            × IsRegistry classes t base registry'
      unfolding list_events
      list_events-Stored s entity_id registry known =
          let (found, r, q) = Stored-rows s (some entity_id) in
          let (registry', e, next) = read_rows-AreReadAs r registry known in
          (found, registry', e, q, next)
