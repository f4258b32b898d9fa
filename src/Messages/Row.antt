-- ===== src/Messages/Row.antt =====
-- What an event is written as, and a row that holds it.
use anywise.Common.{ℕ, true, ◌≡◌, refl, ap, ◌∙◌, Option, some, List, [], ◌∷◌, arith, contains}
use anywise.Common.Dict.{Dict, insert, lookup, keys}
use anywise.Errors.{Result, ok, ◌>>=◌}
use anywise.Messages.{
  version_key, source_key, event_type_key, event_body_key, entity_id_key, event_id_key,
  timestamp_key, EventClass, Event, Cell, text, value, body, base_fields, current_only_fields,
  getattrs, cells, normalized,
}
use anywise.Messages.Table.{column_names, required_names}
use anywise.Messages.Attrs.{cell_of, is_some}

module _ {V : Type 0} where
  -- What an insert into the table takes: it names columns of the table only, and those that have
  -- to be named.
  pub record Fits (mapping : Dict (Cell V)) : Type 0 where
    pub known : (k : ℕ) → contains k (keys mapping) ≡ true → contains k column_names ≡ true
    pub complete : (k : ℕ) → contains k required_names ≡ true → contains k (keys mapping) ≡ true

  -- A row that was written from the mapping: it has the columns of the table, and those that the
  -- mapping names have its values.
  pub record IsRowOf (mapping row : Dict (Cell V)) : Type 0 where
    pub agrees : (k : ℕ) → contains k (keys mapping) ≡ true → lookup k row ≡ lookup k mapping
    pub columns : (k : ℕ) → contains k (keys row) ≡ contains k column_names

  -- The event has its fields and no other attributes.
  abbrev pub IsComplete : List ℕ → (ℕ → Option V) → Type 0
  IsComplete fields attrs = (f : ℕ) → is_some (attrs f) ≡ contains f fields

  -- Calling the class with exactly the attributes of its fields builds the event.
  abbrev pub IsConstructor : (ℕ → EventClass V) → (ℕ → Dict (Cell V) → Result (Event V)) → Type 0
  IsConstructor classes construct =
      (c : ℕ) (kw : Dict (Cell V)) (attrs : ℕ → Option V)
      → IsComplete (classes c).fields attrs
      → ((f : ℕ) → lookup f kw ≡ cell_of (attrs f))
      → construct c kw ≡ ok (record { cls = c; attrs = attrs })

  abbrev pub mapping_of : EventClass V → V → V → V → Dict V → Dict (Cell V)
  mapping_of c a b s d =
      (entity_id_key, value a)
      ∷ (event_id_key, value b)
      ∷ (timestamp_key, value s)
      ∷ (event_type_key, text c.default_typeid)
      ∷ (version_key, value c.version)
      ∷ (source_key, value c.source)
      ∷ (event_body_key, body d)
      ∷ []

  -- What an event is normalized to can be inserted into the table.
  pub mapping_of-Fits : (c : EventClass V) (a b s : V) (d : Dict V) → Fits (mapping_of c a b s d)
  mapping_of-Fits c a b s d = record {
    known = λ k w. ground (arith, w);
    complete = λ k w. ground (arith, w);
  }

  abbrev normalized_from : EventClass V → Result (Dict V) → Result (Dict V) → Result (Dict (Cell V))
  normalized_from c base current = do
    mapping ← base
    own ← current
    ok (
        insert event_body_key (body own) (
          insert source_key (value c.source) (
            insert version_key (value c.version)
              (insert event_type_key (text c.default_typeid) (cells mapping)))))

  module _ (classes : ℕ → EventClass V) (event : Event V) where
    abbrev pub HasAttr : ℕ → V → Type 0
    HasAttr f v = event.attrs f ≡ some v

    base_attrs :
        (a b s : V)
        → HasAttr entity_id_key a
        → HasAttr event_id_key b
        → HasAttr timestamp_key s
        → getattrs base_fields event.attrs
          ≡ ok ((entity_id_key, a) ∷ (event_id_key, b) ∷ (timestamp_key, s) ∷ [])
    unfolding getattrs
    base_attrs a b s ea eb es = rw (ea, eb, es) refl

    pub normalized-mapping :
        (a b s : V) (d : Dict V)
        → HasAttr entity_id_key a
        → HasAttr event_id_key b
        → HasAttr timestamp_key s
        → getattrs (current_only_fields (classes event.cls).fields) event.attrs ≡ ok d
        → normalized classes event ≡ ok (mapping_of (classes event.cls) a b s d)
    unfolding normalized
    normalized-mapping a b s d ea eb es ed =
        ap
          (λ r.
            normalized_from (classes event.cls) r
              (getattrs (current_only_fields (classes event.cls).fields) event.attrs))
          (base_attrs a b s ea eb es)
        ∙ ap
            (normalized_from (classes event.cls)
              (ok ((entity_id_key, a) ∷ (event_id_key, b) ∷ (timestamp_key, s) ∷ [])))
            ed
