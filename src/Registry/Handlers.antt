-- ===== src/Registry/Handlers.antt =====
-- What registering a function does to the mappings of a registry.
use anywise.Common.{
  ℕ, true, ◌≡◌, refl, sym, subst, none, some, List, [], ◌∷◌, ◌++◌, map, arith, contains, IsDistinct,
  Bool-cases, inl, inr, if◌then◌else◌, ◌==◌,
}
use anywise.Common.Dict.{Dict, lookup, update, get_list, last, lookup-update_built, lookup-insert}
use anywise.Errors.{Result, ok, err}
use anywise.Exec.{lift, modify, ◌>>=◌}
use anywise.Classes.{ClassTable, IsClassTable, issubclass}
use anywise.Visitor.{Annotation}
use anywise.Visitor.Gather.{accepts}
use anywise.Metas.{Function, FuncMeta, build_meta, get_funcmetas}
use anywise.Metas.Laws.{Reads, get_funcmetas-Reads}
use anywise.Registry.{
  function, Registry, to_mapping, append_listener, append_listeners, target_metas,
  register_commandhandlers, register_eventlisteners, command_metas, event_metas,
}

-- Metas that are built from their message types.
module _ (b : ℕ → FuncMeta) (own : (c : ℕ) → (b c).message_type ≡ c) where
  last-metas :
      (e : ℕ) (types : List ℕ)
      → last e (map (λ (m : FuncMeta). (m.message_type, m)) (map b types))
        ≡ (if contains e types then some (b e) else none)
  last-metas e [] = refl
  last-metas e (c ∷ types) = ground (arith, last-metas e types, own c)

  pub lookup-to_mapping :
      (e : ℕ) (types : List ℕ) (d : Dict FuncMeta)
      → lookup e (update d (to_mapping (map b types)))
        ≡ (if contains e types then some (b e) else lookup e d)
  lookup-to_mapping e types d = ground (
    arith,
    lookup-update_built e d (map (λ (m : FuncMeta). (m.message_type, m)) (map b types)),
    last-metas e types,
  )

pub get_list-append_listener :
    (m : FuncMeta) (e : ℕ) (d : Dict (List FuncMeta))
    → get_list e (append_listener m d)
      ≡ (if e == m.message_type then get_list e d ++ m ∷ [] else get_list e d)
get_list-append_listener m e d = ground (
  arith,
  lookup-insert m.message_type e (m ∷ []) d,
  lookup-insert m.message_type e (get_list m.message_type d ++ m ∷ []) d,
)

-- Listeners of one type per meta: each accepted type gets one more at the end.
module _ (b : ℕ → FuncMeta) (own : (c : ℕ) → (b c).message_type ≡ c) where
  pub get_list-append_listeners :
      (e : ℕ) (types : List ℕ) (d : Dict (List FuncMeta))
      → IsDistinct types
      → get_list e (append_listeners (map b types) d)
        ≡ (if contains e types then get_list e d ++ b e ∷ [] else get_list e d)
  unfolding append_listeners
  get_list-append_listeners e [] d h = refl
  get_list-append_listeners e (c ∷ types) d h = elim (Bool-cases (e == c)) [
    | inl same ↦
        let here : e ≡ c = ground arith in
        ground (
          arith,
          get_list-append_listeners e types (append_listener (b c) d) h.1,
          get_list-append_listener (b c) e d,
          own c,
          here,
        )
    | inr differ ↦ ground (
      arith,
      get_list-append_listeners e types (append_listener (b c) d) h.1,
      get_list-append_listener (b c) e d,
      own c,
    )
  ]

module _ (t : ClassTable) (base : ℕ) (f : Function) (msg : Annotation) (rest : List Annotation)
    (reg : Registry) where
  -- What `_register_commandhanlders` leaves: the message types of the function are handled by it,
  -- the other keys by what handled them before. A refusal changes nothing.
  abbrev pub Handles : Result (Unit {0}) × Registry → Type 0
  Handles (ok done, reg') =
      (types : List ℕ) × ((e : ℕ) → contains e types ≡ accepts t msg e)
      × ((e : ℕ)
          → lookup e reg'.command_mapping ≡ (
              if accepts t msg e
              then some (build_meta f rest types none e)
              else lookup e reg.command_mapping))
      × ((e : ℕ) → accepts t msg e ≡ true → issubclass t e base ≡ true)
      × (reg'.event_mapping ≡ reg.event_mapping)
      × (reg'.guard_mapping ≡ reg.guard_mapping)
  Handles (err e, reg') = (reg' ≡ reg) × Reads t base f msg rest (err e)

  Handles-metas :
      (r : Result (List FuncMeta))
      → Reads t base f msg rest r
      → Handles (
          (lift r >>= λ metas.
          modify
            λ reg. record reg { command_mapping = update reg.command_mapping (to_mapping metas) })
            reg)
  Handles-metas (err e) h = (refl, h)
  Handles-metas (ok metas) (types, same, distinct, exact, fit, plain) = (
    types,
    exact,
    λ e. rw (← exact e) (
        rw same (
          lookup-to_mapping (build_meta f rest types none) (λ c. refl) e types
            reg.command_mapping)),
    fit,
    refl,
    refl,
  )

  -- In a table that defines each class once, after its bases, with a command base and a function
  -- that has parameters: registering it as a command handler maps exactly the classes that the
  -- annotation of its first parameter accepts to it, if all are subclasses of the command base;
  -- otherwise it raises, for the stated reason, and the registry is as it was.
  pub register_commandhandlers_function :
      IsClassTable t
      → f.params ≡ msg ∷ rest
      → reg.command_base ≡ some base
      → Handles (register_commandhandlers t (function f) reg)
  unfolding register_commandhandlers target_metas
  register_commandhandlers_function v e b =
      subst (λ o. Handles (command_metas t o (function f) reg)) (sym b)
        (Handles-metas (get_funcmetas t base f) (get_funcmetas-Reads t base f msg rest v e))

  -- What `_register_eventlisteners` leaves.
  abbrev pub Listens : Result (Unit {0}) × Registry → Type 0
  Listens (ok done, reg') =
      (types : List ℕ) × ((e : ℕ) → contains e types ≡ accepts t msg e)
      × ((e : ℕ)
          → get_list e reg'.event_mapping ≡ (
              if accepts t msg e
              then get_list e reg.event_mapping ++ build_meta f rest types none e ∷ []
              else get_list e reg.event_mapping))
      × ((e : ℕ) → accepts t msg e ≡ true → issubclass t e base ≡ true)
      × (reg'.command_mapping ≡ reg.command_mapping)
      × (reg'.guard_mapping ≡ reg.guard_mapping)
  Listens (err e, reg') = (reg' ≡ reg) × Reads t base f msg rest (err e)

  Listens-metas :
      (r : Result (List FuncMeta))
      → Reads t base f msg rest r
      → Listens (
          (lift r >>= λ metas.
          modify λ reg. record reg { event_mapping = append_listeners metas reg.event_mapping })
            reg)
  Listens-metas (err e) h = (refl, h)
  Listens-metas (ok metas) (types, same, distinct, exact, fit, plain) = (
    types,
    exact,
    λ e. rw (← exact e) (
        rw same (
          get_list-append_listeners (build_meta f rest types none) (λ c. refl) e types
            reg.event_mapping distinct)),
    fit,
    refl,
    refl,
  )

  -- In a table that defines each class once, after its bases, with an event base and a function
  -- that has parameters: registering it as a listener adds it once, behind the listeners that are
  -- there, for exactly the classes that the annotation of its first parameter accepts; a refusal
  -- changes nothing.
  pub register_eventlisteners_function :
      IsClassTable t
      → f.params ≡ msg ∷ rest
      → reg.event_base ≡ some base
      → Listens (register_eventlisteners t (function f) reg)
  unfolding register_eventlisteners target_metas
  register_eventlisteners_function v e b =
      subst (λ o. Listens (event_metas t o (function f) reg)) (sym b)
        (Listens-metas (get_funcmetas t base f) (get_funcmetas-Reads t base f msg rest v e))
