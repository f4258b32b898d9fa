-- ===== src/Registry/Sorted.antt =====
-- A registry of commands and events, filled with functions of both kinds.
use anywise.Common.{
  ℕ, Bool, true, false, ◌≡◌, refl, sym, ap, ◌∙◌, Option, none, some, List, [], ◌∷◌, ◌++◌, map,
  arith, All, inl, inr, if◌then◌else◌,
}
use mathlib.Core.List.{append-nil, append_assoc}
use anywise.Common.Dict.{lookup, get_list}
use anywise.Errors.{Result, ok, Result-cases}
use anywise.Classes.{ClassTable, IsClassTable}
use anywise.Metas.{Function}
use anywise.Registry.{
  Target, function, Registry, target_metas, register_commandhandlers, register_eventlisteners,
  register_target, register_one, for_each, register,
}
use anywise.Registry.Handlers.{register_commandhandlers_function, register_eventlisteners_function}
use anywise.Registry.Mixed.{
  Owned, owned, handler_of, listeners_of, takes, IsAnnotated, Fits, Misses, handled, not_handled,
  listened, not_listened,
}

-- Which base a function is for.
pub data Role : Type 0 where
  command event : Role

-- A function that is marked as a handler of commands fits the command base and not the event base,
-- one that is marked as a listener the other way round.
abbrev pub IsSorted : ClassTable → ℕ → ℕ → Role × Function → Type 0
IsSorted t command_base event_base (command, f) =
    IsAnnotated t f × Fits t command_base f × Misses t event_base f
IsSorted t command_base event_base (event, f) =
    IsAnnotated t f × Misses t command_base f × Fits t event_base f

-- The last of the functions that handle commands and take the message type.
abbrev pub last_taking : ClassTable → ℕ → List (Role × Function) → Option Owned → Option Owned
last_taking t e [] old = old
last_taking t e ((command, f) ∷ fs) old =
    last_taking t e fs (if takes t f e then some (f, none) else old)
last_taking t e ((event, f) ∷ fs) old = last_taking t e fs old

-- All the listeners that take the message type, in their order.
abbrev pub all_taking : ClassTable → ℕ → List (Role × Function) → List Owned
all_taking t e [] = []
all_taking t e ((command, f) ∷ fs) = all_taking t e fs
all_taking t e ((event, f) ∷ fs) = (if takes t f e then (f, none) ∷ [] else []) ++ all_taking t e fs

append_if :
    {A : Type 0} (b : Bool) (x : A) (xs : List A)
    → (if b then xs ++ x ∷ [] else xs) ≡ xs ++ ((if b then x ∷ [] else []) ++ [])
append_if true x xs = refl
append_if false x xs = sym (append-nil xs)

module _ (t : ClassTable) (command_base event_base : ℕ) where
  unfoldable pub HasBases : Registry → Type 0
  HasBases reg = (reg.command_base ≡ some command_base) × (reg.event_base ≡ some event_base)

  commands-HasBases :
      (x : Target) (reg : Registry) → HasBases reg → HasBases (register_commandhandlers t x reg).1
  unfolding HasBases register_commandhandlers
  commands-HasBases x reg (c, e) = elim (Result-cases (target_metas t command_base x)) [
    | inl (metas, m) ↦ ground arith
    | inr (error, m) ↦ ground arith
  ]

  events-HasBases :
      (x : Target) (reg : Registry) → HasBases reg → HasBases (register_eventlisteners t x reg).1
  unfolding HasBases register_eventlisteners
  events-HasBases x reg (c, e) = elim (Result-cases (target_metas t event_base x)) [
    | inl (metas, m) ↦ ground arith
    | inr (error, m) ↦ ground arith
  ]

  -- What registering the functions does to the handlers and the listeners of a registry.
  pub record Fills (fs : List (Role × Function)) (reg : Registry) (r : Result (Unit {0}) × Registry)
      : Type 0 where
    pub returns : r.0 ≡ ok tt
    pub bases : HasBases r.1
    pub handlers : (e : ℕ) → handler_of e r.1 ≡ last_taking t e fs (handler_of e reg)
    pub listeners : (e : ℕ) → listeners_of e r.1 ≡ listeners_of e reg ++ all_taking t e fs
    pub guards : r.1.guard_mapping ≡ reg.guard_mapping

  Fills-one :
      IsClassTable t
      → (role : Role) (f : Function) (reg : Registry) → IsSorted t command_base event_base (role, f)
      → HasBases reg
      → Fills ((role, f) ∷ []) reg (register_target t (function f) reg)
  unfolding HasBases register_target
  Fills-one v command f reg ((msg, rest, params, plain), fits, misses) (c, e) =
      let r = register_commandhandlers t (function f) reg in
      let (done, handlers, same, guards) =
        handled t command_base f msg rest reg params plain r
          (register_commandhandlers_function t command_base f msg rest reg v params c) fits in
      let bases = commands-HasBases (function f) reg (c, e) in
      let r' = register_eventlisteners t (function f) r.1 in
      let (error, refused, fails) =
        not_listened t event_base f msg rest r.1 params plain r'
          (register_eventlisteners_function t event_base f msg rest r.1 v params bases.1) misses in
      rw done (
        rw refused (
          rw fails (record {
            returns = refl;
            bases = bases;
            handlers = handlers;
            listeners = λ x.
                ap (λ d. map owned (get_list x d)) same ∙ sym (append-nil (listeners_of x reg));
            guards = guards;
          })))
  Fills-one v event f reg ((msg, rest, params, plain), misses, fits) (c, e) =
      let (error, refused, fails) =
        not_handled t command_base f msg rest reg params plain
          (register_commandhandlers t (function f) reg)
          (register_commandhandlers_function t command_base f msg rest reg v params c) misses in
      let r = register_eventlisteners t (function f) reg in
      let (done, listeners, same, guards) =
        listened t event_base f msg rest reg params plain r
          (register_eventlisteners_function t event_base f msg rest reg v params e) fits in
      rw refused (
        rw fails (record {
          returns = done;
          bases = events-HasBases (function f) reg (c, e);
          handlers =
              λ x. ap (λ d. elim (lookup x d) [ none ↦ none | some m ↦ some (owned m) ]) same;
          listeners = λ x. listeners x ∙ append_if (takes t f x) (f, none) (listeners_of x reg);
          guards = guards;
        }))

  last_cons :
      (e : ℕ) (role : Role) (f : Function) (fs : List (Role × Function)) (old : Option Owned)
      → last_taking t e fs (last_taking t e ((role, f) ∷ []) old)
        ≡ last_taking t e ((role, f) ∷ fs) old
  last_cons e command f fs old = refl
  last_cons e event f fs old = refl

  all_cons :
      (e : ℕ) (role : Role) (f : Function) (fs : List (Role × Function))
      → all_taking t e ((role, f) ∷ []) ++ all_taking t e fs ≡ all_taking t e ((role, f) ∷ fs)
  all_cons e command f fs = refl
  all_cons e event f fs =
      ap (λ l. l ++ all_taking t e fs) (append-nil (if takes t f e then (f, none) ∷ [] else []))

  pub Fills-all :
      IsClassTable t
      → (fs : List (Role × Function)) (reg : Registry) → All (IsSorted t command_base event_base) fs
      → HasBases reg
      → Fills fs reg (for_each (register_one t) (map (λ (role, f). function f) fs) reg)
  unfolding for_each register_one
  Fills-all v [] reg sorted bases = record {
    returns = refl;
    bases = bases;
    handlers = λ e. refl;
    listeners = λ e. sym (append-nil (listeners_of e reg));
    guards = refl;
  }
  Fills-all v ((role, f) ∷ fs) reg (first, sorted) bases =
      let r = register_target t (function f) reg in
      let one = Fills-one v role f reg first bases in
      let more = Fills-all v fs r.1 sorted one.bases in
      rw (one.returns) (record {
        returns = more.returns;
        bases = more.bases;
        handlers = λ e.
            more.handlers e
            ∙ ap (last_taking t e fs) (one.handlers e)
            ∙ last_cons e role f fs (handler_of e reg);
        listeners = λ e.
            more.listeners e
            ∙ ap (λ l. l ++ all_taking t e fs) (one.listeners e)
            ∙ append_assoc (listeners_of e reg) (all_taking t e ((role, f) ∷ []))
                (all_taking t e fs)
            ∙ ap (λ l. listeners_of e reg ++ l) (all_cons e role f fs);
        guards = more.guards ∙ one.guards;
      })

  -- In a table that defines each class once, after its bases, let a registry have a command and an
  -- event base, and let each function that is registered fit one of them and not the other. Then
  -- `register` returns; a command is handled by the last of the command handlers that take its
  -- type, or by what handled it before if there is none; an event has the listeners from before and
  -- then all that take its type, in the order of registration; the guards stay.
  pub register_functions :
      (fs : List (Role × Function)) (reg : Registry)
      → IsClassTable t
      → All (IsSorted t command_base event_base) fs
      → reg.command_base ≡ some command_base
      → reg.event_base ≡ some event_base
      → ((register t (map (λ (role, f). function f) fs) [] [] reg).0 ≡ ok tt)
        × ((e : ℕ)
            → handler_of e (register t (map (λ (role, f). function f) fs) [] [] reg).1
              ≡ last_taking t e fs (handler_of e reg))
        × ((e : ℕ)
            → listeners_of e (register t (map (λ (role, f). function f) fs) [] [] reg).1
              ≡ listeners_of e reg ++ all_taking t e fs)
        × ((register t (map (λ (role, f). function f) fs) [] [] reg).1.guard_mapping
            ≡ reg.guard_mapping)
  unfolding register for_each HasBases
  register_functions fs reg v sorted c e =
      let filled = Fills-all v fs reg sorted (c, e) in
      rw (filled.returns) (refl, filled.handlers, filled.listeners, filled.guards)
