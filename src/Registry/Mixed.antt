-- ===== src/Registry/Mixed.antt =====
-- The two attempts of `_register` at a function, from the message types that its first parameter
-- takes and the base of the attempt.
use anywise.Common.{
  ℕ, Bool, true, false, ◌≡◌, refl, sym, ◌∙◌, Option, none, some, List, [], ◌∷◌, ◌++◌, map, arith,
  inl, inr, if◌then◌else◌,
}
use mathlib.Core.List.{map-append}
use anywise.Common.Dict.{lookup, get_list}
use anywise.Errors.{Error, Result, ok, err, is_register_fail}
use anywise.Classes.{ClassTable, issubclass}
use anywise.Visitor.{Annotation}
use anywise.Visitor.Gather.{accepts, fault}
use anywise.Metas.{Function, FuncMeta, build_meta}
use anywise.Metas.Laws.{Reads}
use anywise.Registry.{Registry}
use anywise.Registry.Handlers.{Handles, Listens}

-- A function, and the class that owns it if it is a method.
abbrev pub Owned : Type 0
Owned = Function × Option ℕ

abbrev pub owned : FuncMeta → Owned
owned m = (m.handler, m.owner_type)

-- What handles a command, and what listens to an event.
abbrev pub handler_of : ℕ → Registry → Option Owned
handler_of e reg = elim (lookup e reg.command_mapping) [ none ↦ none | some m ↦ some (owned m) ]

abbrev pub listeners_of : ℕ → Registry → List Owned
listeners_of e reg = map owned (get_list e reg.event_mapping)

map_if :
    (b : Bool) (ms : List FuncMeta) (m : FuncMeta) (result : List FuncMeta)
    → result ≡ (if b then ms ++ m ∷ [] else ms)
    → map owned result ≡ (if b then map owned ms ++ owned m ∷ [] else map owned ms)
map_if true ms m result e = rw e (map-append owned ms (m ∷ []))
map_if false ms m result e = rw e refl

module _ (t : ClassTable) where
  -- The first parameter takes the message type.
  abbrev pub takes : Function → ℕ → Bool
  takes f e = elim f.params [ [] ↦ false | msg ∷ rest ↦ accepts t msg e ]

  -- The annotation of the first parameter names classes only.
  abbrev pub IsAnnotated : Function → Type 0
  IsAnnotated f =
      (msg : Annotation) × (rest : List Annotation) × (f.params ≡ msg ∷ rest) × (fault t msg ≡ none)

  abbrev pub Fits : ℕ → Function → Type 0
  Fits base f = (e : ℕ) → takes f e ≡ true → issubclass t e base ≡ true

  abbrev pub Misses : ℕ → Function → Type 0
  Misses base f = (c : ℕ) × (takes f c ≡ true) × (issubclass t c base ≡ false)

  module _ (base : ℕ) (f : Function) (msg : Annotation) (rest : List Annotation) (reg : Registry)
      (params : f.params ≡ msg ∷ rest) (plain : fault t msg ≡ none) where
    takes-accepts : (e : ℕ) → takes f e ≡ accepts t msg e
    takes-accepts e = rw params

    Fits-refuses : Fits base f → (e : Error) → Reads t base f msg rest (err e) → ⊥
    Fits-refuses fits e (inl broken) = ground arith
    Fits-refuses fits e (inr (c, is, within, outside)) =
        ground (arith, fits c (takes-accepts c ∙ within))

    pub handled :
        (r : Result (Unit {0}) × Registry)
        → Handles t base f msg rest reg r
        → Fits base f
        → (r.0 ≡ ok tt)
          × ((e : ℕ) → handler_of e r.1 ≡ (if takes f e then some (f, none) else handler_of e reg))
          × (r.1.event_mapping ≡ reg.event_mapping)
          × (r.1.guard_mapping ≡ reg.guard_mapping)
    handled (ok done, reg') (types, exact, there, fit, same, guards) fits =
        (refl, (λ e. ground (arith, there e, takes-accepts e)), same, guards)
    handled (err e, reg') (same, reads) fits = absurd (Fits-refuses fits e reads)

    pub not_handled :
        (r : Result (Unit {0}) × Registry)
        → Handles t base f msg rest reg r
        → Misses base f
        → (e : Error) × (r ≡ (err e, reg)) × (is_register_fail e ≡ true)
    unfolding is_register_fail
    not_handled (ok done, reg') (types, exact, there, fit, same, guards) (c, within, outside) =
        absurd (ground (arith, fit c (sym (takes-accepts c) ∙ within)))
    not_handled (err e, reg') (same, inl broken) misses = absurd (ground arith)
    not_handled (err e, reg') (same, inr (c, is, within, outside)) misses =
        (e, ground arith, ground arith)

    pub listened :
        (r : Result (Unit {0}) × Registry)
        → Listens t base f msg rest reg r
        → Fits base f
        → (r.0 ≡ ok tt)
          × ((e : ℕ)
              → listeners_of e r.1
                ≡ (if takes f e then listeners_of e reg ++ (f, none) ∷ [] else listeners_of e reg))
          × (r.1.command_mapping ≡ reg.command_mapping)
          × (r.1.guard_mapping ≡ reg.guard_mapping)
    listened (ok done, reg') (types, exact, there, fit, same, guards) fits = (
      refl,
      (λ e.
          map_if (takes f e) (get_list e reg.event_mapping) (build_meta f rest types none e)
            (get_list e reg'.event_mapping) (there e ∙ ground (arith, takes-accepts e))),
      same,
      guards,
    )
    listened (err e, reg') (same, reads) fits = absurd (Fits-refuses fits e reads)

    pub not_listened :
        (r : Result (Unit {0}) × Registry)
        → Listens t base f msg rest reg r
        → Misses base f
        → (e : Error) × (r ≡ (err e, reg)) × (is_register_fail e ≡ true)
    unfolding is_register_fail
    not_listened (ok done, reg') (types, exact, there, fit, same, guards) (c, within, outside) =
        absurd (ground (arith, fit c (sym (takes-accepts c) ∙ within)))
    not_listened (err e, reg') (same, inl broken) misses = absurd (ground arith)
    not_listened (err e, reg') (same, inr (c, is, within, outside)) misses =
        (e, ground arith, ground arith)
