-- ===== src/Messages/Streams.antt =====
-- `all_event_streams` yields the maximal runs of events with one entity id.
use anywise.Common.{
  ℕ, Bool, true, false, ◌≡◌, refl, ap, sym, ◌∙◌, List, [], ◌∷◌, ◌++◌, arith, All, Bool-cases, inl,
  inr, ◌==◌, if◌then◌else◌,
}
use anywise.Common.Dict.{Dict, get_list, reject, get_list-extend, lookup-reject}
use anywise.Messages.EventStore.{Grouping, is_new, group_event, streams_from, all_event_streams}
use mathlib.Core.List.{append_assoc}

module _ {E : Type 0} where
  abbrev pub flatten : List (List E) → List E
  flatten [] = []
  flatten (run ∷ rest) = run ++ flatten rest

  get_list-reject :
      (p : ℕ → Bool) (k : ℕ) (d : Dict (List E))
      → get_list k (reject p d) ≡ (if p k then [] else get_list k d)
  get_list-reject p k d = ground (arith, lookup-reject p k d)

module _ {E : Type 0} (entity_id : E → ℕ) where
  -- Whether the run is of this entity.
  abbrev pub starts : ℕ → List E → Bool
  starts c [] = false
  starts c (e ∷ run) = entity_id e == c

  -- The events of one entity that follow each other are one run.
  abbrev pub join : E → List (List E) → List (List E)
  join e [] = (e ∷ []) ∷ []
  join e (run ∷ rest) = if starts (entity_id e) run then (e ∷ run) ∷ rest else (e ∷ []) ∷ run ∷ rest

  abbrev pub runs : List E → List (List E)
  runs [] = []
  runs (e ∷ events) = join e (runs events)

  -- A run that has begun, before the runs of what follows.
  abbrev glue : List E → ℕ → List (List E) → List (List E)
  glue run c [] = run ∷ []
  glue run c (next ∷ rest) = if starts c next then (run ++ next) ∷ rest else run ∷ next ∷ rest

  glue-join_same :
      (run : List E) (e : E) (rest : List (List E))
      → glue run (entity_id e) (join e rest) ≡ glue (run ++ e ∷ []) (entity_id e) rest
  glue-join_same run e [] = ground arith
  glue-join_same run e (next ∷ rest) = elim (Bool-cases (starts (entity_id e) next)) [
    | inl is ↦
        let self : (entity_id e == entity_id e) ≡ true = ground arith in
        rw (is, self, append_assoc) refl
    | inr isnt ↦
        let self : (entity_id e == entity_id e) ≡ true = ground arith in rw (isnt, self) refl
  ]

  glue-join_other :
      (run : List E) (c : ℕ) (e : E) (rest : List (List E))
      → (c == entity_id e) ≡ false
      → glue run c (join e rest) ≡ run ∷ join e rest
  glue-join_other run c e [] differ =
      let other : (entity_id e == c) ≡ false = ground arith in rw other refl
  glue-join_other run c e (next ∷ rest) differ =
      let other : (entity_id e == c) ≡ false = ground arith in
      elim (Bool-cases (starts (entity_id e) next)) [
        | inl is ↦ rw (is, other) refl
        | inr isnt ↦ rw (isnt, other) refl
      ]

  join-glue : (e : E) (rest : List (List E)) → glue (e ∷ []) (entity_id e) rest ≡ join e rest
  join-glue e [] = refl
  join-glue e (next ∷ rest) = refl

  -- Only the current entity has a group, and it is not empty.
  abbrev IsOpen : List E → Grouping E → Type 0
  IsOpen run s =
      ((k : ℕ) → get_list k s.grouped ≡ (if k == s.current_id then run else []))
      × ((s.current_id == 0) ≡ false)

  group_event_same :
      (run : List E) (e : E) (s : Grouping E)
      → IsOpen run s
      → (s.current_id == entity_id e) ≡ true
      → ((group_event entity_id e s).0 ≡ []) × IsOpen (run ++ e ∷ []) (group_event entity_id e s).1
  unfolding group_event
  group_event_same run e s o same =
      let old : is_new entity_id e s ≡ false = ground arith in
      (
        rw old refl,
        (
          (λ k. rw old (ground (arith, get_list-extend (entity_id e) k (e ∷ []) s.grouped, o.0 k))),
          ground (arith, o.1),
        ),
      )

  group_event_other :
      (run : List E) (e : E) (s : Grouping E)
      → (entity_id e == 0) ≡ false
      → IsOpen run s
      → (s.current_id == entity_id e) ≡ false
      → ((group_event entity_id e s).0 ≡ run ∷ []) × IsOpen (e ∷ []) (group_event entity_id e s).1
  unfolding group_event
  group_event_other run e s id o differ =
      let new : is_new entity_id e s ≡ true = ground (arith, o.1) in
      (
        rw (new, o.0 s.current_id) (ground arith),
        (
          (λ k. rw new (
              ground (
                arith,
                get_list-extend (entity_id e) k (e ∷ [])
                    (reject (λ j. j == s.current_id) s.grouped),
                get_list-reject (λ j. j == s.current_id) k s.grouped,
                o.0 k,
              ))),
          id,
        ),
      )

  abbrev pub HasId : E → Type 0
  HasId e = (entity_id e == 0) ≡ false

  streams_from-glue :
      (run events : List E) (s : Grouping E)
      → IsOpen run s
      → All HasId events
      → streams_from entity_id events s ≡ glue run s.current_id (runs events)
  unfolding streams_from group_event
  streams_from-glue run [] s o ids = rw (o.1, o.0 s.current_id) (ground arith)
  streams_from-glue run (e ∷ events) s o ids = elim (Bool-cases (s.current_id == entity_id e)) [
    | inl same ↦
        let (out, next) = group_event_same run e s o same in
        let cid : s.current_id ≡ entity_id e = ground arith in
        ap (λ l. l ++ streams_from entity_id events (group_event entity_id e s).1) out
        ∙ streams_from-glue (run ++ e ∷ []) events (group_event entity_id e s).1 next ids.1
        ∙ sym (glue-join_same run e (runs events))
        ∙ ap (λ c. glue run c (join e (runs events))) (sym cid)
    | inr differ ↦
        let (out, next) = group_event_other run e s ids.0 o differ in
        ap (λ l. l ++ streams_from entity_id events (group_event entity_id e s).1) out
        ∙ ap (◌∷◌ run) (
            streams_from-glue (e ∷ []) events (group_event entity_id e s).1 next ids.1
            ∙ join-glue e (runs events))
        ∙ sym (glue-join_other run s.current_id e (runs events) differ)
  ]

  -- If no event has an empty entity id, `all_event_streams` yields the events of the table cut into
  -- the maximal runs of one entity id, in the order of the table.
  pub all_event_streams-runs :
      (events : List E) → All HasId events → all_event_streams entity_id events ≡ runs events
  unfolding all_event_streams streams_from group_event
  all_event_streams-runs [] ids = refl
  all_event_streams-runs (e ∷ events) ids =
      let first : Grouping E = record { grouped = []; current_id = 0 } in
      streams_from-glue (e ∷ []) events (group_event entity_id e first).1
        ((λ k. ground arith), ids.0) ids.1
      ∙ join-glue e (runs events)

  flatten-join : (e : E) (rest : List (List E)) → flatten (join e rest) ≡ e ∷ flatten rest
  flatten-join e [] = refl
  flatten-join e (run ∷ rest) = elim (Bool-cases (starts (entity_id e) run)) [
    | inl is ↦ rw is refl
    | inr isnt ↦ rw isnt refl
  ]

  flatten-runs : (events : List E) → flatten (runs events) ≡ events
  flatten-runs [] = refl
  flatten-runs (e ∷ events) = flatten-join e (runs events) ∙ ap (◌∷◌ e) (flatten-runs events)

  -- If no event has an empty entity id, the streams together are the events of the table, in its
  -- order: none is lost or doubled.
  pub flatten-all_event_streams :
      (events : List E) → All HasId events → flatten (all_event_streams entity_id events) ≡ events
  flatten-all_event_streams events ids =
      ap flatten (all_event_streams-runs events ids) ∙ flatten-runs events
