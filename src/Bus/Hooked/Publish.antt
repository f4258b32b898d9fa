-- ===== src/Bus/Hooked/Publish.antt =====
-- An event that is published to an `Anywise` of a registry with hooks.
use anywise.Common.{ℕ, ◌≡◌, sym, subst, ◌∙◌, Option, none, some, List, [], ◌∷◌, map, All}
use anywise.Errors.{ok}
use anywise.Exec.{Exec}
use anywise.Classes.{ClassTable, IsClassTable}
use anywise.Metas.{Function}
use anywise.Registry.{Registry}
use anywise.Registry.Mixed.{Owned}
use anywise.Registry.Sorted.{Role, IsSorted, all_taking}
use anywise.Callable.{Entry, Callable}
use anywise.Guard.{Message, Callback, Store}
use anywise.Dispatch.{Context, Env, SendStrategy, PublishStrategy}
use anywise.Bus.{Graph, Anywise, new_anywise, publish}
use anywise.Bus.Program.{called, publish_listened, all_taking-none}
use anywise.Bus.Hooked.{IsHook, with_hooks, with_hooks-HasDicts, with_hooks-listeners}

module _ (t : ClassTable) (command_base event_base fresh : ℕ) (fs : List (Role × Function))
    (pres posts : List Function) (table : IsClassTable t)
    (sorted : All (IsSorted t command_base event_base) fs) (are_pres : All (IsHook t) pres)
    (are_posts : All (IsHook t) posts) where
  abbrev hooked_registry : Registry
  hooked_registry =
      with_hooks t command_base event_base fresh fs pres posts table sorted are_pres are_posts

  module _ {V W D : Type 0} (supply : Entry) (dg : Graph (Env V W) V D)
      (perform : Callable → Callback (Env V W) V) (depth : ℕ) (registry_graph : D)
      (graph : Option D) (event_sink : Option (V → Exec W (Unit {0}))) (sender : SendStrategy V W)
      (publisher : PublishStrategy V W) (store : Store (Env V W) V Callable) (aw : Anywise V W D)
      (made : new_anywise dg
          (record { mappings = hooked_registry; graph = registry_graph } ∷ [])
          graph
          event_sink
          sender
          publisher
          store
        ≡ (ok tt, aw)) where
    -- Let functions that each fit one of two bases and not the other be registered in a new
    -- registry, together with pre-hooks and post-hooks whose first parameter is annotated with
    -- classes only, none with a metaclass at or below it, and takes neither `Any` nor `object`, and
    -- let an `Anywise` be made of it. An event that some listener takes, published in a scope that
    -- is given, goes to the strategy with callables that call all the listeners that take it, in
    -- the order of their registration.
    pub hooked-publish :
        (msg : Message V) (ctx : Option (Context V)) (s : ℕ) (w : W) (f : Owned) (rest : List Owned)
        → all_taking t msg.cls fs ≡ f ∷ rest
        → (cs : List Callable) × ((publish dg perform depth msg ctx (some s) w aw).0
            ≡ publisher msg ctx (map perform cs) w)
          × (map (called supply) cs ≡ all_taking t msg.cls fs)
    hooked-publish msg ctx s w f rest taken =
        let (cs, publishes, calls) =
          publish_listened supply dg perform depth hooked_registry
            (with_hooks-HasDicts t command_base event_base fresh fs pres posts table sorted are_pres
              are_posts)
            registry_graph graph event_sink sender publisher store aw made msg ctx s w f rest
            (with_hooks-listeners t command_base event_base fresh fs pres posts table sorted
                are_pres are_posts msg.cls
              ∙ taken)
            (subst (All (λ (x : Owned). x.1 ≡ none)) taken (all_taking-none t msg.cls fs)) in
        (cs, publishes, calls ∙ sym taken)
