-- ===== src/Messages/RoundTrip.antt =====
-- An event that is written to a row and read back, for both orders in which the two libraries list
-- the fields of a class.
use anywise.Common.{
  ℕ, true, ◌≡◌, refl, ap, subst, sym, ◌∙◌, Option, none, some, List, ◌∷◌, ◌++◌, arith, contains,
  if◌then◌else◌, IsDistinct, ◌||◌,
}
use anywise.Common.Dict.{Dict, lookup, keys}
use anywise.Errors.{Result, ok, err, type_error}
use anywise.Classes.{ClassTable}
use anywise.Messages.{
  event_type_key, event_body_key, entity_id_key, event_id_key, timestamp_key, EventClass, Event,
  Cell, text, base_fields, current_only_fields, getattrs, cells, get_event_cls,
}
use anywise.Messages.Table.{unreserved, kwargs, event_to_mapping, class_of, mapping_to_event}
use anywise.Messages.Attrs.{
  cell_of, is_some, getattrs_total, take-append, absent-append, current_inside, take-base_first,
}
use anywise.Exec.{lift, continue, ◌>>=◌}
use anywise.Messages.Row.{
  Fits, IsRowOf, mapping_of-Fits, IsComplete, IsConstructor, mapping_of, normalized-mapping,
}
use anywise.Messages.Keywords.{kwargs_repeated, kwargs-merged, lookup-kwargs}

module _ {V : Type 0} where
  attr_there : (o : Option V) → is_some o ≡ true → (v : V) × (o ≡ some v)
  attr_there none h = absurd (ground arith)
  attr_there (some v) h = (v, refl)

  module _ (classes : ℕ → EventClass V) (t : ClassTable) (event_cls : ℕ)
      (construct : ℕ → Dict (Cell V) → Result (Event V)) (event : Event V)
      (registry registry' : Dict ℕ)
      (known : get_event_cls classes t (classes event.cls).default_typeid event_cls registry
        ≡ (ok event.cls, registry')) where
    abbrev built : Result (Dict (Cell V)) → Result (Event V) × Dict ℕ
    built kw = continue kw (λ k. lift (construct event.cls k)) registry'

    reading :
        (row : Dict (Cell V))
        → lookup event_type_key row ≡ some (text (classes event.cls).default_typeid)
        → mapping_to_event classes t event_cls construct row registry
          ≡ built (kwargs (unreserved row) (lookup event_body_key row))
    unfolding mapping_to_event
    reading row e =
        ap (λ o. (class_of classes t event_cls construct o >>= rest) registry) e
        ∙ ap (λ out. continue out.0 rest out.1) known
      where
        rest : ℕ → Dict ℕ → Result (Event V) × Dict ℕ
        rest cls = lift (kwargs (unreserved row) (lookup event_body_key row)) >>= λ kw.
            lift (construct cls kw)

    read_back :
        (own : List ℕ) (a b s : V) (d : Dict V) (row : Dict (Cell V))
        → event.attrs entity_id_key ≡ some a
        → event.attrs event_id_key ≡ some b
        → event.attrs timestamp_key ≡ some s
        → (classes event.cls).fields ≡ own ++ base_fields
        → IsDistinct (own ++ base_fields)
        → IsComplete (own ++ base_fields) event.attrs
        → IsConstructor classes construct
        → keys d ≡ own
        → ((f : ℕ) → lookup f d ≡ (if contains f own then event.attrs f else none))
        → IsRowOf (mapping_of (classes event.cls) a b s d) row
        → mapping_to_event classes t event_cls construct row registry ≡ (ok event, registry')
    read_back own a b s d row ea eb es fs distinct complete builds ks found r =
        reading row (r.agrees event_type_key refl)
        ∙ ap built
            (kwargs-merged classes event own a b s d row ea eb es r distinct ks found complete)
        ∙ ap (λ out. (out, registry'))
            (builds event.cls (unreserved row ++ cells d) event.attrs
              (λ f. subst (λ l. is_some (event.attrs f) ≡ contains f l) (sym fs) (complete f))
              (lookup-kwargs classes event own a b s d row ea eb es r distinct ks found complete))

    -- What such an event is written as, and that every row of it reads back.
    pub record IsWritten (mapping : Dict (Cell V)) : Type 0 where
      pub normalizes : event_to_mapping classes event ≡ ok mapping
      pub fits : Fits mapping
      pub entity : lookup entity_id_key mapping ≡ cell_of (event.attrs entity_id_key)
      pub reads :
          (row : Dict (Cell V))
          → IsRowOf mapping row
          → mapping_to_event classes t event_cls construct row registry ≡ (ok event, registry')

    pub event_to_mapping-IsWritten :
        (own : List ℕ)
        → (classes event.cls).fields ≡ own ++ base_fields
        → IsDistinct (own ++ base_fields)
        → IsComplete (own ++ base_fields) event.attrs
        → IsConstructor classes construct
        → (mapping : Dict (Cell V)) × IsWritten mapping
    unfolding event_to_mapping
    event_to_mapping-IsWritten own fs distinct complete builds =
        let there : (f : ℕ)
            → (contains f own || contains f base_fields) ≡ true
            → is_some (event.attrs f) ≡ true =
          λ f w. complete f ∙ absent-append f own base_fields ∙ w in
        let base : (f : ℕ) → contains f base_fields ≡ true → is_some (event.attrs f) ≡ true =
          λ f w. there f (ground (arith, w)) in
        let (a, ea) = attr_there (event.attrs entity_id_key) (base entity_id_key refl) in
        let (b, eb) = attr_there (event.attrs event_id_key) (base event_id_key refl) in
        let (s, es) = attr_there (event.attrs timestamp_key) (base timestamp_key refl) in
        let (d, ed, ks, found) =
          getattrs_total own event.attrs (λ f w. there f (ground (arith, w))) in
        let current : getattrs (current_only_fields (classes event.cls).fields) event.attrs ≡ ok d =
          ap (λ l. getattrs (current_only_fields l) event.attrs) fs
          ∙ ap (λ l. getattrs l event.attrs) (take-append own)
          ∙ ed in
        (
          mapping_of (classes event.cls) a b s d,
          record {
            normalizes = normalized-mapping classes event a b s d ea eb es current;
            fits = mapping_of-Fits (classes event.cls) a b s d;
            entity = ap cell_of (sym ea);
            reads =
                λ row r. read_back own a b s d row ea eb es fs distinct complete builds ks found r;
          },
        )

    -- An event of a class whose own fields come before the base fields, as msgspec lists them, is
    -- read back as it was written: where its fields are distinct and all have values, the class is
    -- found under its type id and is built from exactly its fields, and the row has the columns of
    -- the event table, those that the mapping names with its values.
    pub mapping_to_event-event_to_mapping :
        (write : Dict (Cell V) → Dict (Cell V))
        → ((mapping : Dict (Cell V)) → Fits mapping → IsRowOf mapping (write mapping))
        → (own : List ℕ) → (classes event.cls).fields ≡ own ++ base_fields
        → IsDistinct (own ++ base_fields)
        → IsComplete (own ++ base_fields) event.attrs
        → IsConstructor classes construct
        → (mapping : Dict (Cell V)) × (event_to_mapping classes event ≡ ok mapping)
          × (mapping_to_event classes t event_cls construct (write mapping) registry
              ≡ (ok event, registry'))
    mapping_to_event-event_to_mapping write writes own fs distinct complete builds =
        let (mapping, w) = event_to_mapping-IsWritten own fs distinct complete builds in
        (mapping, w.normalizes, w.reads (write mapping) (writes mapping w.fits))

    -- An event of a class that lists the base fields first and has a field of its own, as pydantic
    -- lists them, is written but cannot be read back: its body repeats `entity_id`, which is a
    -- `TypeError`. Its fields have values, its class is found under its type id, and the row has
    -- the columns of the event table, those that the mapping names with its values.
    pub mapping_to_event_base_first :
        (write : Dict (Cell V) → Dict (Cell V))
        → ((mapping : Dict (Cell V)) → Fits mapping → IsRowOf mapping (write mapping))
        → (x : ℕ) (own : List ℕ) → (classes event.cls).fields ≡ base_fields ++ x ∷ own
        → IsComplete (base_fields ++ x ∷ own) event.attrs
        → (mapping : Dict (Cell V)) × (event_to_mapping classes event ≡ ok mapping)
          × (mapping_to_event classes t event_cls construct (write mapping) registry
              ≡ (err type_error, registry'))
    unfolding event_to_mapping
    mapping_to_event_base_first write writes x own fs complete =
        let fields = base_fields ++ x ∷ own in
        let (a, ea) = attr_there (event.attrs entity_id_key) (complete entity_id_key) in
        let (b, eb) = attr_there (event.attrs event_id_key) (complete event_id_key) in
        let (s, es) = attr_there (event.attrs timestamp_key) (complete timestamp_key) in
        let (d, ed, ks, found) =
          getattrs_total (current_only_fields fields) event.attrs
            (λ f w. complete f ∙ current_inside f fields w) in
        let mapping = mapping_of (classes event.cls) a b s d in
        let r = writes mapping (mapping_of-Fits (classes event.cls) a b s d) in
        (
          mapping,
          normalized-mapping classes event a b s d ea eb es
              (ap (λ l. getattrs (current_only_fields l) event.attrs) fs ∙ ed),
          reading (write mapping) (r.agrees event_type_key refl)
              ∙ ap built (
                  kwargs_repeated classes event a b s d (write mapping) r (
                    subst (λ l. contains entity_id_key l ≡ true) (sym ks) (take-base_first x own))),
        )
