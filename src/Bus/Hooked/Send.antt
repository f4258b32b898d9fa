-- ===== src/Bus/Hooked/Send.antt =====
-- A command that is sent to an `Anywise` of a registry with hooks.
use anywise.Common.{
  ℕ, suc, ◌+◌, ◌≤◌, false, ◌≡◌, ap, ◌∙◌, Option, none, some, List, [], ◌∷◌, ◌++◌, arith, All,
  length,
}
use mathlib.Core.List.{append-nil}
use anywise.Common.Dict.{lookup, get_list, or_else}
use anywise.Errors.{ok}
use anywise.Exec.{Exec, ◌>>=◌}
use anywise.Classes.{ClassTable, IsClassTable}
use anywise.Metas.{Function}
use anywise.Registry
use anywise.Registry.{Registry, GuardMeta, function, init, register}
use anywise.Registry.Sorted.{Role, IsSorted, last_taking}
use anywise.Registry.Hooked.{hook_before, hook_after, taking}
use anywise.Registry.Hooked.Hangs.{all_hooks}
use anywise.Manager.{no_managers, command_guards}
use anywise.Manager.Include.{is_global, lookup-include, command_guards-include}
use anywise.Callable.{Entry, Callable, invoke, message, context}
use anywise.Callable.Calls.{resolve_meta_function}
use anywise.Guard.{Message, Callback, Store}
use anywise.Dispatch.{Context, Env, SendStrategy, PublishStrategy}
use anywise.Dispatch.Hooks.{takers, IsMade, befores, afters, send_hooked}
use anywise.Dispatch.Hooks.Compose.{compose_hooked}
use anywise.Bus.{Graph, Anywise, new_anywise, in_scope, send}
use anywise.Bus.Including.{new-Included}
use anywise.Bus.Program.{meta_of}
use anywise.Bus.Hooked.{
  IsHook, with_hooks, length-taking, length_append, with_hooks-HasDicts, with_hooks-handler,
  with_hooks-guards, with_hooks-global,
}

module _ (t : ClassTable) (command_base event_base fresh : ℕ) (fs : List (Role × Function))
    (pres posts : List Function) (table : IsClassTable t)
    (sorted : All (IsSorted t command_base event_base) fs) (are_pres : All (IsHook t) pres)
    (are_posts : All (IsHook t) posts) where
  abbrev hooked_registry : Registry
  hooked_registry =
      with_hooks t command_base event_base fresh fs pres posts table sorted are_pres are_posts

  module _ {V W D : Type 0} (supply : Entry) (before : Registry.Target → Callback (Env V W) V)
      (after : Registry.Target → Message V → V → Exec (Env V W) V) (dg : Graph (Env V W) V D)
      (perform : Callable → Callback (Env V W) V) (depth : ℕ) (registry_graph : D)
      (graph : Option D) (event_sink : Option (V → Exec W (Unit {0}))) (sender : SendStrategy V W)
      (publisher : PublishStrategy V W) (store : Store (Env V W) V Callable) (aw : Anywise V W D)
      (made : new_anywise dg
          (record { mappings = hooked_registry; graph = registry_graph } ∷ [])
          graph
          event_sink
          sender
          publisher
          store
        ≡ (ok tt, aw)) where
    -- Let functions that each fit one of two bases and not the other be registered in a new
    -- registry, together with pre-hooks and post-hooks whose first parameter is annotated with
    -- classes only, none with a metaclass at or below it, and takes neither `Any` nor `object`; let
    -- an `Anywise` be made of the registry, and let the `Guard` objects that stand behind the type
    -- of a command have the hooks that they were made with. The command, of a type other than `Any`
    -- and `object` and taken by some handler, is sent in a scope that is given, with room on the
    -- stack for as many guards as there are hooks. It goes to the strategy with a callback that
    -- runs the pre-hooks that take it, in the order of registration, then a callable that calls the
    -- last registered of the handlers that take it, and then the post-hooks that take it, the last
    -- registered first, each on the response of the one before it.
    pub hooked-send :
        (msg : Message V) (ctx : Option (Context V)) (s : ℕ) (w : W) (f : Function)
        → is_global msg.cls ≡ false
        → last_taking t msg.cls fs none ≡ some (f, none)
        → All
            (λ m. IsMade before after aw.system.objects.store.kind m.guard)
            (get_list msg.cls hooked_registry.guard_mapping)
        → length pres + length posts ≤ depth
        → (c : Callable) × ((send dg perform (suc depth) msg ctx (some s) w aw).0
            ≡ sender msg ctx
                (befores before after
                  (takers t msg.cls pres)
                  λ m. perform c m >>= afters before after (takers t msg.cls posts) m)
                w)
          × ((invoke supply c (message ∷ context ∷ [])).func ≡ f)
    unfolding send in_scope
    hooked-send msg ctx s w f specific taken are_made enough =
        let (meta, found, is, plain) = meta_of msg.cls hooked_registry f (
          (with_hooks-handler t command_base event_base fresh fs pres posts table sorted are_pres
              are_posts)
            msg.cls
          ∙ taken) in
        let (managers, same, same_publisher) =
          new-Included dg perform depth
            (record { mappings = hooked_registry; graph = registry_graph } ∷ []) graph event_sink
            sender publisher store aw made in
        let (c, resolved, calls) =
          resolve_meta_function supply (dg.resolve s) meta aw.system.objects plain in
        let handled =
          ap (λ ms. lookup msg.cls ms.handlers.handler_metas) managers
          ∙ lookup-include msg.cls (hooked_registry ∷ []) no_managers (
            (with_hooks-HasDicts t command_base event_base fresh fs pres posts table sorted are_pres
                are_posts),
            tt,
          )
          ∙ ap (λ o. or_else o none) found in
        let guarded =
          ap (λ ms. command_guards msg.cls ms.handlers) managers
          ∙ command_guards-include msg.cls (hooked_registry ∷ []) no_managers specific (
            (with_hooks-HasDicts t command_base event_base fresh fs pres posts table sorted are_pres
                are_posts),
            tt,
          )
          ∙ ap (λ gs. (gs ++ []) ++ (get_list msg.cls hooked_registry.guard_mapping ++ []))
              (with_hooks-global t command_base event_base fresh fs pres posts table sorted are_pres
                are_posts)
          ∙ append-nil (get_list msg.cls hooked_registry.guard_mapping) in
        let (lo, hooked) =
          (with_hooks-guards t command_base event_base fresh fs pres posts table sorted are_pres
              are_posts)
            msg.cls in
        let hs = all_hooks t msg.cls pres posts in
        let few : length hs ≤ depth = omega (
          arith,
          length_append (taking t msg.cls hook_before pres) (taking t msg.cls hook_after posts),
          length-taking t msg.cls hook_before pres,
          length-taking t msg.cls hook_after posts,
          enough,
        ) in
        let (gs, kinds, sends) =
          send_hooked before after (dg.resolve s) perform aw.sender msg ctx w aw.system meta c
            handled resolved depth msg.cls hs lo (get_list msg.cls hooked_registry.guard_mapping)
            hooked_registry.fresh guarded hooked are_made few in
        (
          c,
          sends
              ∙ ap (λ k. aw.sender msg ctx k w)
                  (compose_hooked before after perform aw.system.objects.store.kind t msg.cls pres
                    posts gs c kinds)
              ∙ ap
                  (λ sender'.
                    sender' msg ctx
                      (befores before after (takers t msg.cls pres)
                        λ m. perform c m >>= afters before after (takers t msg.cls posts) m)
                      w)
                  same,
          ap (λ call. call.func) calls ∙ is,
        )
