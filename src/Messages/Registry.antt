-- ===== src/Messages/Registry.antt =====
-- `get_event_cls` finds every subclass of the event class by its type id.
use anywise.Common.{
  ℕ, true, ◌≡◌, refl, ap, ◌∙◌, ◌↔◌, ◌⊎◌, inl, inr, Option, none, some, List, [], ◌∷◌, arith,
  contains, Option-cases, Bool-cases, ◌==◌,
}
use anywise.Common.Dict.{Dict, lookup, update, last, lookup-update_built}
use anywise.Errors.{Result, ok, err, unregistered_event, type_error}
use anywise.Exec.{◌>>◌}
use anywise.Classes.{ClassTable, IsClassTable}
use anywise.Classes.Below.{Below}
use anywise.Visitor.{all_subclasses}
use anywise.Visitor.Subclasses.{has_metaclass, AreSubclasses, all_subclasses_lem}
use anywise.Messages.{
  EventClass, by_type_id, found_or_fail, update_registry, found_or_update, get_event_cls,
}

module _ {V : Type 0} (classes : ℕ → EventClass V) where
  last-by_type_id :
      (i c : ℕ) (cs : List ℕ)
      → last i (by_type_id classes cs) ≡ some c
      → (contains c cs ≡ true) × ((classes c).type_id ≡ i)
  last-by_type_id i c [] h = absurd (ground arith)
  last-by_type_id i c (d ∷ cs) h = elim (Option-cases (last i (by_type_id classes cs))) [
    | inr (e, later) ↦
        let (within, is) = last-by_type_id i c cs (ground (arith, later)) in (ground arith, is)
    | inl here ↦ elim (Bool-cases (i == (classes d).type_id)) [
      | inl same ↦ let is : d ≡ c = ground arith in (ground arith, rw (← is) (ground arith))
      | inr differ ↦ absurd (ground arith)
    ]
  ]

  last-by_type_id-none :
      (i c : ℕ) (cs : List ℕ)
      → last i (by_type_id classes cs) ≡ none
      → contains c cs ≡ true
      → (classes c).type_id ≡ i
      → ⊥
  last-by_type_id-none i c [] h w is = ground arith
  last-by_type_id-none i c (d ∷ cs) h w is = elim (Bool-cases (c == d)) [
    | inl same ↦
        let here : d ≡ c = ground arith in
        let own : (classes d).type_id ≡ i = ap (λ k. (classes k).type_id) here ∙ is in
        ground (arith, own)
    | inr differ ↦ last-by_type_id-none i c cs (ground arith) (ground arith) is
  ]

  module _ (t : ClassTable) (base : ℕ) where
    -- What the registry of event types holds.
    abbrev pub IsRegistry : Dict ℕ → Type 0
    IsRegistry registry =
        (i c : ℕ) → lookup i registry ≡ some c → ((classes c).type_id ≡ i) × Below t c base

    abbrev pub Found : ℕ → Result ℕ × Dict ℕ → Type 0
    Found i (ok c, registry) = ((classes c).type_id ≡ i) × Below t c base × IsRegistry registry
    Found i (err e, registry) =
        (((e ≡ unregistered_event i) × ((c : ℕ) → Below t c base → (classes c).type_id ≡ i → ⊥))
          ⊎ ((e ≡ type_error) × (has_metaclass t base ≡ true)))
        × IsRegistry registry

    -- The registry with an entry for each of the subclasses.
    abbrev updated : List ℕ → Dict ℕ → Dict ℕ
    updated types registry = update registry (update [] (by_type_id classes types))

    module _ (types : List ℕ) (exact : (e : ℕ) → (contains e types ≡ true) ↔ Below t e base) where
      updated-IsRegistry :
          (registry : Dict ℕ) → IsRegistry registry → IsRegistry (updated types registry)
      updated-IsRegistry registry known i c h =
          let entries = by_type_id classes types in
          elim (Option-cases (last i entries)) [
            | inr (e, new) ↦
                let (within, is) =
                  last-by_type_id i c types
                    (ground (arith, lookup-update_built i registry entries)) in
                (is, (exact c).0 within)
            | inl old ↦ known i c (ground (arith, lookup-update_built i registry entries))
          ]

      found_or_fail-Found :
          (i : ℕ) (registry : Dict ℕ) (o : Option ℕ)
          → IsRegistry registry
          → lookup i (updated types registry) ≡ o
          → Found i (found_or_fail classes i o (updated types registry))
      found_or_fail-Found i registry (some c) known e =
          let next = updated-IsRegistry registry known in
          let (is, below) = next i c e in (is, below, next)
      found_or_fail-Found i registry none known e = (
        inl (
          refl,
          λ c below is.
              last-by_type_id-none i c types
                (ground (arith, lookup-update_built i registry (by_type_id classes types)))
                ((exact c).1 below) is,
        ),
        updated-IsRegistry registry known,
      )

    update_registry-Found :
        (i : ℕ) (registry : Dict ℕ) (r : Result (List ℕ))
        → AreSubclasses t base r
        → IsRegistry registry
        → Found i (
            (update_registry classes r >> λ registry'.
            found_or_fail classes i (lookup i registry') registry')
              registry)
    update_registry-Found i registry (err e) (is, raised) known = (inr (raised, is), known)
    update_registry-Found i registry (ok types) (isnt, exact) known =
        found_or_fail-Found types exact i registry (lookup i (updated types registry)) known refl

    found_or_update-Found :
        (i : ℕ) (registry : Dict ℕ) (o : Option ℕ)
        → IsClassTable t
        → IsRegistry registry
        → lookup i registry ≡ o
        → Found i (found_or_update classes t i base o registry)
    found_or_update-Found i registry (some c) v known e =
        let (is, below) = known i c e in (is, below, known)
    found_or_update-Found i registry none v known e =
        update_registry-Found i registry (all_subclasses t base) (all_subclasses_lem t base v) known

    -- Where classes are defined once and after their bases, and the registry of event types holds
    -- only subclasses of the event class, each under its `__type_id__`: `get_event_cls` returns
    -- such a subclass, at any depth, for the type id asked for, or raises `UnregisteredEventError`
    -- if there is none, or `TypeError` if the event class or a class below it is a metaclass, and
    -- the registry is of that kind afterwards.
    pub get_event_cls-Found :
        (i : ℕ) (registry : Dict ℕ)
        → IsClassTable t
        → IsRegistry registry
        → Found i (get_event_cls classes t i base registry)
    unfolding get_event_cls
    get_event_cls-Found i registry v known =
        found_or_update-Found i registry (lookup i registry) v known refl
