-- ===== src/Messages/Keywords.antt =====
-- The keywords that are made from a row of an event.
use anywise.Common.{
  ℕ, true, false, ◌≡◌, refl, ap, subst, sym, ◌∙◌, inl, inr, none, some, List, ◌++◌, arith, contains,
  any, any_elim, any_intro, Option-cases, Bool-cases, ◌==◌, if◌then◌else◌, IsDistinct,
}
use anywise.Common.Dict.{
  Dict, lookup, keys, lookup-reject, contains-keys-reject, lookup-append, lookup_absent,
}
use anywise.Errors.{ok, err, type_error}
use anywise.Messages.{
  event_body_key, entity_id_key, event_id_key, timestamp_key, EventClass, Event, Cell, value,
  base_fields, cells,
}
use anywise.Messages.Table.{table_reserved_vars, unreserved, kwargs}
use anywise.Messages.Attrs.{cell_of, is_some, lookup-cells, absent-append, apart_of_IsDistinct}
use anywise.Messages.Row.{IsRowOf, IsComplete, mapping_of, HasAttr}

module _ {V : Type 0} (classes : ℕ → EventClass V) (event : Event V) where
  -- A column of a row of the event that is not reserved is a base field and has its value.
  pub base_column :
      (a b s : V) (d : Dict V) (row : Dict (Cell V)) (f : ℕ)
      → HasAttr classes event entity_id_key a
      → HasAttr classes event event_id_key b
      → HasAttr classes event timestamp_key s
      → IsRowOf (mapping_of (classes event.cls) a b s d) row
      → contains f base_fields ≡ true
      → lookup f row ≡ cell_of (event.attrs f)
  base_column a b s d row f ea eb es r w = elim (Bool-cases (f == entity_id_key)) [
    | inl at ↦ at_key entity_id_key a ea (r.agrees entity_id_key refl) (ground arith)
    | inr not_first ↦ elim (Bool-cases (f == event_id_key)) [
      | inl at ↦ at_key event_id_key b eb (r.agrees event_id_key refl) (ground arith)
      | inr not_second ↦ at_key timestamp_key s es (r.agrees timestamp_key refl) (ground arith)
    ]
  ]
    where
      at_key :
          (k : ℕ) (v : V)
          → HasAttr classes event k v
          → lookup k row ≡ some (value v)
          → f ≡ k
          → lookup f row ≡ cell_of (event.attrs f)
      at_key k v e l is =
          subst (λ j. lookup j row ≡ cell_of (event.attrs j)) (sym is) (l ∙ ap cell_of (sym e))

  pub unreserved-keys :
      (a b s : V) (d : Dict V) (row : Dict (Cell V)) (f : ℕ)
      → IsRowOf (mapping_of (classes event.cls) a b s d) row
      → contains f (keys (unreserved row)) ≡ true
      → contains f base_fields ≡ true
  unreserved-keys a b s d row f r w =
      let kept = contains-keys-reject (λ k. contains k table_reserved_vars) f row in
      ground (arith, r.columns f, kept)

  pub unreserved_columns :
      (f : ℕ) (row : Dict (Cell V))
      → lookup f (unreserved row) ≡ (if contains f table_reserved_vars then none else lookup f row)
  unreserved_columns f row = lookup-reject (λ k. contains k table_reserved_vars) f row

  pub kwargs_repeated :
      (a b s : V) (d : Dict V) (row : Dict (Cell V))
      → IsRowOf (mapping_of (classes event.cls) a b s d) row
      → contains entity_id_key (keys d) ≡ true
      → kwargs (unreserved row) (lookup event_body_key row) ≡ err type_error
  unfolding kwargs
  kwargs_repeated a b s d row r twice =
      let there : lookup entity_id_key (unreserved row) ≡ some (value a) =
        unreserved_columns entity_id_key row ∙ r.agrees entity_id_key refl in
      let key : contains entity_id_key (keys (unreserved row)) ≡ true =
        elim (Bool-cases (contains entity_id_key (keys (unreserved row)))) [
          | inl is ↦ is
          | inr isnt ↦
              let gone = lookup_absent entity_id_key (unreserved row) isnt in
              absurd (ground (arith, sym gone ∙ there))
        ] in
      let overlap =
        any_intro (λ k. contains k (keys (unreserved row))) entity_id_key (keys d) twice key in
      ap (kwargs (unreserved row)) (r.agrees event_body_key refl) ∙ rw overlap refl

  -- The event body of a class whose own fields come first.
  module _ (own : List ℕ) (a b s : V) (d : Dict V) (row : Dict (Cell V))
      (ea : HasAttr classes event entity_id_key a) (eb : HasAttr classes event event_id_key b)
      (es : HasAttr classes event timestamp_key s)
      (r : IsRowOf (mapping_of (classes event.cls) a b s d) row)
      (distinct : IsDistinct (own ++ base_fields)) (ks : keys d ≡ own)
      (found : (f : ℕ) → lookup f d ≡ (if contains f own then event.attrs f else none))
      (complete : IsComplete (own ++ base_fields) event.attrs) where
    no_overlap : any (λ k. contains k (keys (unreserved row))) (keys d) ≡ false
    no_overlap = elim (Bool-cases (any (λ k. contains k (keys (unreserved row))) (keys d))) [
      | inr clear ↦ clear
      | inl overlap ↦
          let (x, within, both) =
            any_elim (λ k. contains k (keys (unreserved row))) (keys d) overlap in
          let base = unreserved-keys a b s d row x r both in
          let mine : contains x own ≡ true = subst (λ l. contains x l ≡ true) ks within in
          absurd (ground (arith, apart_of_IsDistinct x own base_fields distinct mine))
    ]

    pub kwargs-merged :
        kwargs (unreserved row) (lookup event_body_key row) ≡ ok (unreserved row ++ cells d)
    unfolding kwargs
    kwargs-merged = ap (kwargs (unreserved row)) (r.agrees event_body_key refl) ∙ rw no_overlap refl

    pub plain_column :
        (f : ℕ)
        → contains f base_fields ≡ true
        → lookup f (unreserved row) ≡ cell_of (event.attrs f)
    plain_column f w =
        let plain : contains f table_reserved_vars ≡ false = ground arith in
        unreserved_columns f row ∙ rw plain (base_column a b s d row f ea eb es r w)

    lacking :
        (f : ℕ)
        → contains f (keys (unreserved row)) ≡ false
        → contains f own ≡ false
        → none ≡ cell_of (event.attrs f)
    lacking f other not_mine = elim (Bool-cases (contains f base_fields)) [
      | inl base ↦ sym (lookup_absent f (unreserved row) other) ∙ plain_column f base
      | inr neither ↦
          let gone : is_some (event.attrs f) ≡ false =
            complete f ∙ absent-append f own base_fields ∙ rw (not_mine, neither) refl in
          elim (Option-cases (event.attrs f)) [
            | inl n ↦ rw n refl
            | inr (v, e) ↦ absurd (ground arith)
          ]
    ]

    own_column :
        (f : ℕ)
        → contains f (keys (unreserved row)) ≡ false
        → cell_of (lookup f d) ≡ cell_of (event.attrs f)
    own_column f other = elim (Bool-cases (contains f own)) [
      | inl mine ↦
          let there : lookup f d ≡ event.attrs f = found f ∙ rw mine refl in ap cell_of there
      | inr not_mine ↦
          let gone : lookup f d ≡ none = found f ∙ rw not_mine refl in
          ap cell_of gone ∙ lacking f other not_mine
    ]

    pub lookup-kwargs : (f : ℕ) → lookup f (unreserved row ++ cells d) ≡ cell_of (event.attrs f)
    lookup-kwargs f = elim (Bool-cases (contains f (keys (unreserved row)))) [
      | inl base ↦
          lookup-append f (unreserved row) (cells d)
          ∙ rw base (plain_column f (unreserved-keys a b s d row f r base))
      | inr other ↦
          lookup-append f (unreserved row) (cells d)
          ∙ rw other (lookup-cells f d ∙ own_column f other)
    ]
