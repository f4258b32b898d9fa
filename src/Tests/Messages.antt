-- ===== src/Tests/Messages.antt =====
-- Events, rows and streams.
use anywise.Common.{
  ℕ, ◌+◌, ◌≡◌, ◌||◌, refl, sym, ap, ◌∙◌, inl, inr, Bool-cases, map, fun_ext, Option, none, some,
  List, [], ◌∷◌, ◌++◌, arith, contains, if◌then◌else◌, ◌==◌,
}
use anywise.Common.Dict.{
  Dict, lookup, keys, lookup-append, reject, contains-keys-reject, contains-keys-append,
}
use anywise.Errors.{Result, ok, err, type_error}
use anywise.Exec.{Exec}
use anywise.Classes.{subclasses, issubclass}
use anywise.Visitor.{all_subclasses, all_subclasses_from}
use anywise.Messages.{EventClass, Event, Cell, value, base_fields, get_event_cls}
use anywise.Messages.Registry.{Found, get_event_cls-Found}
use anywise.Messages.Table.{event_to_mapping, mapping_to_event, column_names}
use anywise.Messages.Attrs.{cell_of}
use anywise.Messages.Row.{Fits, IsRowOf, IsConstructor}
use anywise.Messages.RoundTrip.{mapping_to_event-event_to_mapping, mapping_to_event_base_first}
use anywise.Messages.EventStore.{all_event_streams, streams_from, group_event}
use anywise.Messages.Streams.{runs, all_event_streams-runs}
use anywise.Messages.Entity.{rebuild, fold, rebuild-fold}
use anywise.Tests.Sample.{table, table-IsClassTable}

-- Class 12 lists the base fields first; the others last, behind the fields 20 and 21.
abbrev pub classes : ℕ → EventClass ℕ
classes c = record {
  type_id = 200 + c;
  default_typeid = 200 + c;
  source = 0;
  version = 1;
  fields = if c == 12 then base_fields ++ 20 ∷ [] else 20 ∷ 21 ∷ base_fields;
}

get_event_cls-Found_example : Found classes table 20 221 (get_event_cls classes table 221 20 [])
get_event_cls-Found_example =
    get_event_cls-Found classes table 20 221 [] table-IsClassTable (λ i c h. absurd (ground arith))

abbrev attrs : Dict ℕ
attrs = (7, 100) ∷ (8, 101) ∷ (9, 102) ∷ (20, 103) ∷ []

abbrev pub user_created : Event ℕ
user_created = record { cls = 21; attrs = λ f. lookup f ((21, 104) ∷ attrs) }

abbrev base_first : Event ℕ
base_first = record { cls = 12; attrs = λ f. lookup f attrs }

abbrev plain : Option (Cell ℕ) → Option ℕ
plain (some (value v)) = some v
plain _ = none

abbrev pub construct : ℕ → Dict (Cell ℕ) → Result (Event ℕ)
construct c kw = ok (record { cls = c; attrs = λ f. plain (lookup f kw) })

plain-cell_of : (o : Option ℕ) → plain (cell_of o) ≡ o
plain-cell_of none = refl
plain-cell_of (some v) = refl

pub construct-IsConstructor : IsConstructor classes construct
construct-IsConstructor c kw given complete looks =
    ap (λ a. ok (record { cls = c; attrs = a }))
      (fun_ext λ f. ap plain (looks f) ∙ plain-cell_of (given f))

-- The table gives the columns that the mapping does not name a value.
abbrev filled : Dict (Cell ℕ)
filled = map (λ k. (k, value 1)) column_names

abbrev pub write : Dict (Cell ℕ) → Dict (Cell ℕ)
write mapping = mapping ++ reject (λ k. contains k (keys mapping)) filled

keys-write :
    (k : ℕ) (mapping : Dict (Cell ℕ))
    → contains k (keys (write mapping)) ≡ (contains k (keys mapping) || contains k column_names)
keys-write k mapping =
    contains-keys-append k mapping (reject (λ j. contains j (keys mapping)) filled)
    ∙ ground (arith, contains-keys-reject (λ j. contains j (keys mapping)) k filled)

pub write-IsRowOf : (mapping : Dict (Cell ℕ)) → Fits mapping → IsRowOf mapping (write mapping)
write-IsRowOf mapping fits = record {
  agrees =
      λ k w. lookup-append k mapping (reject (λ j. contains j (keys mapping)) filled) ∙ rw w refl;
  columns = λ k. elim (Bool-cases (contains k (keys mapping))) [
    | inl there ↦ keys-write k mapping ∙ rw there (sym (fits.known k there))
    | inr absent ↦ keys-write k mapping ∙ rw absent refl
  ];
}

abbrev pub registry_after : ℕ → ℕ → Dict ℕ
registry_after type_id event_cls = (get_event_cls classes table type_id event_cls []).1

mapping_to_event-event_to_mapping_example :
    (mapping : Dict (Cell ℕ)) × (event_to_mapping classes user_created ≡ ok mapping)
    × (mapping_to_event classes table 20 construct (write mapping) []
        ≡ (ok user_created, registry_after 221 20))
unfolding get_event_cls all_subclasses all_subclasses_from subclasses issubclass
mapping_to_event-event_to_mapping_example =
    mapping_to_event-event_to_mapping classes table 20 construct user_created []
      (registry_after 221 20) refl write write-IsRowOf (20 ∷ 21 ∷ []) refl (ground arith)
      (λ f. ground arith) construct-IsConstructor

mapping_to_event_base_first_example :
    (mapping : Dict (Cell ℕ)) × (event_to_mapping classes base_first ≡ ok mapping)
    × (mapping_to_event classes table 10 construct (write mapping) []
        ≡ (err type_error, registry_after 212 10))
unfolding get_event_cls all_subclasses all_subclasses_from subclasses issubclass
mapping_to_event_base_first_example =
    mapping_to_event_base_first classes table 10 construct base_first [] (registry_after 212 10)
      refl write write-IsRowOf 20 [] refl (λ f. ground arith)

-- Events as entity ids and contents.
abbrev entity_id : ℕ × ℕ → ℕ
entity_id e = e.0

abbrev events : List (ℕ × ℕ)
events = (5, 1) ∷ (5, 2) ∷ (6, 3) ∷ (5, 4) ∷ []

all_event_streams-runs_example : all_event_streams entity_id events ≡ runs entity_id events
all_event_streams-runs_example = all_event_streams-runs entity_id events (ground arith)

streams_run :
    all_event_streams entity_id events ≡ ((5, 1) ∷ (5, 2) ∷ []) ∷ ((6, 3) ∷ []) ∷ ((5, 4) ∷ []) ∷ []
unfolding all_event_streams streams_from group_event
streams_run = refl

-- A counter that its events are added to.
abbrev add_to : ℕ → Exec ℕ ℕ
add_to n self = (ok 0, self + n)

rebuild-fold_example :
    rebuild (λ n. ok n) add_to (1 ∷ 2 ∷ 3 ∷ []) ≡ ok (fold (λ n self. self + n) (2 ∷ 3 ∷ []) 1)
rebuild-fold_example =
    rebuild-fold (λ n. ok n) add_to (λ n self. self + n) (λ n self. 0) 1 (2 ∷ 3 ∷ []) 1
      (λ n self. refl) refl
