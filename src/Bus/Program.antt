-- ===== src/Bus/Program.antt =====
-- A whole program: functions are registered, an `Anywise` is made of the registry, and a command is
-- sent.
use anywise.Common.{
  ℕ, suc, false, ◌≡◌, refl, sym, ap, subst, ◌∙◌, Option, none, some, List, [], ◌∷◌, ◌++◌, map,
  arith, All, Option-cases, inl, inr, Bool-cases,
}
use mathlib.Core.List.{append-nil}
use anywise.Common.Dict.{Dict, lookup, get_list, or_else}
use anywise.Errors.{ok}
use anywise.Exec.{Exec}
use anywise.Classes.{ClassTable, IsClassTable}
use anywise.Metas.{Function, FuncMeta}
use anywise.Registry.{Registry, function, init, register}
use anywise.Registry.Mixed.{Owned, owned, handler_of, listeners_of, takes}
use anywise.Registry.Sorted.{
  Role, command, event, IsSorted, last_taking, all_taking, register_functions,
}
use anywise.Registry.Invariant.{IsValid, init-IsValid}
use anywise.Registry.Invariant.Methods.{register-IsValid}
use anywise.Manager.{no_managers, command_guards}
use anywise.Manager.Include.{
  is_global, global_metas, HasDicts, lookup-include, get_list-include, command_guards-include,
}
use anywise.Callable.{Entry, Callable, invoke, message, context}
use anywise.Callable.Calls.{resolve_meta_function}
use anywise.Guard.{Message, Callback, Store}
use anywise.Dispatch.{Context, Env, Objects, SendStrategy, PublishStrategy, resolve_metas}
use anywise.Dispatch.Send.{send_unguarded}
use anywise.Dispatch.Publish.{publish_registered}
use anywise.Bus.{Graph, Anywise, new_anywise, in_scope, send, publish}
use anywise.Bus.Including.{new-Included}

pub IsValid-HasDicts : (t : ClassTable) (reg : Registry) → IsValid t reg → HasDicts reg
IsValid-HasDicts t reg v = (v.command_keys, v.event_keys, v.guard_keys)

pub meta_of :
    (e : ℕ) (reg : Registry) (f : Function)
    → handler_of e reg ≡ some (f, none)
    → (meta : FuncMeta) × (lookup e reg.command_mapping ≡ some meta)
      × (meta.handler ≡ f)
      × (meta.owner_type ≡ none)
meta_of e reg f h = elim (Option-cases (lookup e reg.command_mapping)) [
  | inl absent ↦ absurd (ground arith)
  | inr (meta, found) ↦ (meta, found, ground arith, ground arith)
]

-- The callable calls the function of no owner.
abbrev pub called : Entry → Callable → Owned
called supply c = ((invoke supply c (message ∷ context ∷ [])).func, none)

module _ {S V D : Type 0} (supply : Entry) (resolve : ℕ → Exec (Objects S V D) ℕ) where
  resolve_metas_functions :
      (metas : List FuncMeta) (o : Objects S V D)
      → All (λ (x : Owned). x.1 ≡ none) (map owned metas)
      → (cs : List Callable) × (resolve_metas resolve metas o ≡ (ok cs, o))
        × (map (called supply) cs ≡ map owned metas)
  unfolding resolve_metas
  resolve_metas_functions [] o plain = ([], refl, refl)
  resolve_metas_functions (m ∷ metas) o (first, rest) =
      let (c, resolved, calls) = resolve_meta_function supply resolve m o first in
      let (cs, all_resolved, all_called) = resolve_metas_functions metas o rest in
      (c ∷ cs, rw resolved (rw all_resolved), λ i. (((calls i).func, sym first i) ∷ all_called i))

pub all_taking-none :
    (t : ClassTable) (e : ℕ) (fs : List (Role × Function))
    → All (λ (x : Owned). x.1 ≡ none) (all_taking t e fs)
all_taking-none t e [] = tt
all_taking-none t e ((command, f) ∷ fs) = all_taking-none t e fs
all_taking-none t e ((event, f) ∷ fs) = elim (Bool-cases (takes t f e)) [
  | inl is ↦ rw is (refl, all_taking-none t e fs)
  | inr isnt ↦ rw isnt (all_taking-none t e fs)
]

lookup-get_list :
    (k : ℕ) (d : Dict (List FuncMeta)) (f : Owned) (rest : List Owned)
    → map owned (get_list k d) ≡ f ∷ rest
    → lookup k d ≡ some (get_list k d)
lookup-get_list k d f rest e = elim (Option-cases (lookup k d)) [
  | inl absent ↦ absurd (ground arith)
  | inr (ms, found) ↦ ground arith
]

module _ {V W D : Type 0} (supply : Entry) (dg : Graph (Env V W) V D)
    (perform : Callable → Callback (Env V W) V) (depth : ℕ) (mappings : Registry)
    (dicts : HasDicts mappings) (registry_graph : D) (graph : Option D)
    (event_sink : Option (V → Exec W (Unit {0}))) (sender : SendStrategy V W)
    (publisher : PublishStrategy V W) (store : Store (Env V W) V Callable) (aw : Anywise V W D)
    (made : new_anywise dg
        (record { mappings = mappings; graph = registry_graph } ∷ [])
        graph
        event_sink
        sender
        publisher
        store
      ≡ (ok tt, aw)) where
  -- Publishing to the listeners of the one registry that an `Anywise` was made of, functions all.
  pub publish_listened :
      (msg : Message V) (ctx : Option (Context V)) (s : ℕ) (w : W) (f : Owned) (rest : List Owned)
      → listeners_of msg.cls mappings ≡ f ∷ rest
      → All (λ (x : Owned). x.1 ≡ none) (f ∷ rest)
      → (cs : List Callable) × ((publish dg perform depth msg ctx (some s) w aw).0
          ≡ publisher msg ctx (map perform cs) w)
        × (map (called supply) cs ≡ f ∷ rest)
  unfolding publish in_scope
  publish_listened msg ctx s w f rest listeners plain =
      let (managers, same_sender, same) =
        new-Included dg perform depth (record { mappings = mappings; graph = registry_graph } ∷ [])
          graph event_sink sender publisher store aw made in
      let metas = get_list msg.cls aw.system.managers.listeners in
      let all_listeners : map owned metas ≡ f ∷ rest =
        ap (map owned) (
          ap (λ ms. get_list msg.cls ms.listeners) managers
          ∙ get_list-include msg.cls (mappings ∷ []) no_managers (dicts, tt)
          ∙ append-nil (get_list msg.cls mappings.event_mapping))
        ∙ listeners in
      let (cs, resolved, calls) =
        resolve_metas_functions supply (dg.resolve s) metas aw.system.objects
          (subst (All (λ (x : Owned). x.1 ≡ none)) (sym all_listeners) plain) in
      (
        cs,
        ap (λ r. r.0)
              (publish_registered (dg.resolve s) perform depth aw.publisher msg ctx w aw.system
                metas cs aw.system.objects
                (lookup-get_list msg.cls aw.system.managers.listeners f rest all_listeners)
                resolved)
            ∙ ap (λ publisher'. publisher' msg ctx (map perform cs) w) same,
        calls ∙ all_listeners,
      )

module _ (t : ClassTable) (command_base event_base fresh : ℕ) (fs : List (Role × Function))
    (table : IsClassTable t) (sorted : All (IsSorted t command_base event_base) fs) where
  -- The registry with both bases, after the functions have been registered.
  abbrev pub filled : Registry
  filled =
      (register t (map (λ (role, f). function f) fs) [] []
        (init (some command_base) (some event_base) fresh)).1

  filled-HasDicts : All HasDicts (filled ∷ [])
  filled-HasDicts = (
    IsValid-HasDicts t filled (
        register-IsValid t (map (λ (role, f). function f) fs) [] []
          (init (some command_base) (some event_base) fresh)
          (init-IsValid t (some command_base) (some event_base) fresh)),
    tt,
  )

  module _ {V W D : Type 0} (supply : Entry) (dg : Graph (Env V W) V D)
      (perform : Callable → Callback (Env V W) V) (depth : ℕ) (registry_graph : D)
      (graph : Option D) (event_sink : Option (V → Exec W (Unit {0}))) (sender : SendStrategy V W)
      (publisher : PublishStrategy V W) (store : Store (Env V W) V Callable) (aw : Anywise V W D)
      (made : new_anywise dg
          (record { mappings = filled; graph = registry_graph } ∷ [])
          graph
          event_sink
          sender
          publisher
          store
        ≡ (ok tt, aw)) where
    -- Let functions that each fit one of two bases and not the other be registered in a new
    -- registry, and an `Anywise` be made of it. A command of a type other than `Any` and `object`
    -- that some handler takes, sent in a scope that is given, goes to the strategy with a callable
    -- that calls the last registered of those that take it.
    pub registered-send :
        (msg : Message V) (ctx : Option (Context V)) (s : ℕ) (w : W) (f : Function)
        → is_global msg.cls ≡ false
        → last_taking t msg.cls fs none ≡ some (f, none)
        → (c : Callable) × ((send dg perform (suc depth) msg ctx (some s) w aw).0
            ≡ sender msg ctx (perform c) w)
          × ((invoke supply c (message ∷ context ∷ [])).func ≡ f)
    unfolding send in_scope init
    registered-send msg ctx s w f specific taken =
        let start = init (some command_base) (some event_base) fresh in
        let (done, handlers, listeners, guards) =
          register_functions t command_base event_base fs start table sorted refl refl in
        let (meta, found, is, plain) = meta_of msg.cls filled f (handlers msg.cls ∙ taken) in
        let (managers, same, same_publisher) =
          new-Included dg perform depth (record { mappings = filled; graph = registry_graph } ∷ [])
            graph event_sink sender publisher store aw made in
        let (c, resolved, calls) =
          resolve_meta_function supply (dg.resolve s) meta aw.system.objects plain in
        let handled =
          ap (λ ms. lookup msg.cls ms.handlers.handler_metas) managers
          ∙ lookup-include msg.cls (filled ∷ []) no_managers filled-HasDicts
          ∙ ap (λ o. or_else o none) found in
        let unguarded =
          ap (λ ms. command_guards msg.cls ms.handlers) managers
          ∙ command_guards-include msg.cls (filled ∷ []) no_managers specific filled-HasDicts
          ∙ ap (λ gs. (global_metas gs ++ []) ++ (get_list msg.cls gs ++ [])) guards in
        (
          c,
          send_unguarded (dg.resolve s) perform depth aw.sender msg ctx w aw.system meta c
                aw.system.objects handled resolved unguarded
              ∙ ap (λ sender'. sender' msg ctx (perform c) w) same,
          ap (λ call. call.func) calls ∙ is,
        )

    -- Let functions that each fit one of two bases and not the other be registered in a new
    -- registry, and an `Anywise` be made of it. An event that some listener takes, published in a
    -- scope that is given, goes to the strategy with callables that call all the listeners that
    -- take it, in the order of their registration.
    pub registered-publish :
        (msg : Message V) (ctx : Option (Context V)) (s : ℕ) (w : W) (f : Owned) (rest : List Owned)
        → all_taking t msg.cls fs ≡ f ∷ rest
        → (cs : List Callable) × ((publish dg perform depth msg ctx (some s) w aw).0
            ≡ publisher msg ctx (map perform cs) w)
          × (map (called supply) cs ≡ all_taking t msg.cls fs)
    unfolding init
    registered-publish msg ctx s w f rest taken =
        let start = init (some command_base) (some event_base) fresh in
        let (done, handlers, listeners, guards) =
          register_functions t command_base event_base fs start table sorted refl refl in
        let (cs, publishes, calls) =
          publish_listened supply dg perform depth filled (filled-HasDicts.0) registry_graph graph
            event_sink sender publisher store aw made msg ctx s w f rest (listeners msg.cls ∙ taken)
            (subst (All (λ (x : Owned). x.1 ≡ none)) taken (all_taking-none t msg.cls fs)) in
        (cs, publishes, calls ∙ sym taken)
