-- ===== src/Dispatch/Send.antt =====
-- What `Anywise.send` does with a command, from the managers to the handler.
use anywise.Common.{
  ℕ, ◌+◌, ◌≤◌, ◌≡◌, ap, sym, subst, suc, Option, none, some, List, [], ◌∷◌, arith, length,
  IsDistinct,
}
use anywise.Common.Dict.{lookup}
use anywise.Errors.{Result, ok, err, unregistered_message}
use anywise.Exec.{Exec, continue}
use anywise.Metas.{FuncMeta}
use anywise.Registry.{GuardMeta}
use anywise.Manager.{command_guards}
use anywise.Callable.{Callable, resolve_meta}
use anywise.Guard.{Message, Callback, Target, guard, link, call, compose}
use anywise.Guard.Effective.{reached, reached_of_IsDistinct}
use anywise.Guard.Chain.{call-link}
use anywise.Dispatch.{
  Env, given_or, dict, Context, Objects, System, on_objects, touched, chained, link_guards,
  resolve_guards, chain_guards, resolve_found, resolve_handler, SendStrategy, send,
}

module _ {S V D : Type 0} (resolve : ℕ → Exec (Objects S V D) ℕ) (callable : Callable) where
  chain_guards-linked :
      (metas : List GuardMeta) (o o' : Objects S V D) (g : ℕ) (gs : List ℕ)
      → resolve_guards resolve metas o ≡ (ok (g ∷ gs), o')
      → chain_guards resolve metas callable o
        ≡ (ok (guard g), record o' { store = link g gs callable o'.store })
  unfolding chain_guards link_guards
  chain_guards-linked [] o o' g gs e = absurd (unfold resolve_guards in ground arith)
  chain_guards-linked (meta ∷ metas) o o' g gs e = ap link_all e
    where
      link_all : Result (List ℕ) × Objects S V D → Result (Target Callable) × Objects S V D
      link_all (r, o'') = continue r (λ guards. link_guards guards callable) o''

module _ {S V D : Type 0} (resolve : ℕ → Exec (Objects S V D) ℕ) (msg_type : ℕ) (sys : System S V D)
    (meta : FuncMeta) (callable : Callable) (o : Objects S V D)
    (found : lookup msg_type sys.managers.handlers.handler_metas ≡ some meta)
    (resolved : resolve_meta resolve meta sys.objects ≡ (ok callable, o)) where
  -- With the handler resolved, what is left is to chain the guards of the command.
  pub resolve_handler-found :
      resolve_handler resolve msg_type sys
      ≡ on_objects
          (chain_guards resolve (command_guards msg_type sys.managers.handlers) callable)
          (touched msg_type (record sys { objects = o }))
  unfolding resolve_handler
  resolve_handler-found =
      subst (λ f. resolve_found resolve msg_type f sys ≡ chain_of (ok callable, o)) (sym found)
        (ap chain_of resolved)
    where
      chain_of : Result Callable × Objects S V D → Result (Target Callable) × System S V D
      chain_of (r, o') = continue r (chained resolve msg_type) (record sys { objects = o' })

  module _ (g : ℕ) (gs : List ℕ) (o' : Objects S V D)
      (guarded : resolve_guards resolve (command_guards msg_type sys.managers.handlers) o
        ≡ (ok (g ∷ gs), o')) where
    pub resolve_handler-guarded : resolve_handler resolve msg_type sys ≡ (
      ok (guard g),
      touched msg_type (record sys { objects = record o' { store = link g gs callable o'.store } }),
    )
    resolve_handler-guarded = rw resolve_handler-found (
        ap (λ (r, objects). (r, touched msg_type (record sys { objects = objects })))
          (chain_guards-linked resolve callable (command_guards msg_type sys.managers.handlers) o o'
            g gs guarded))

module _ {V W D : Type 0} (resolve : ℕ → Exec (Objects (Env V W) V D) ℕ)
    (perform : Callable → Callback (Env V W) V) (depth : ℕ) (sender : SendStrategy V W)
    (message : Message V) (context : Option (Context V)) (w : W) (sys : System (Env V W) V D) where
  -- A command that no handler was registered for: `UnregisteredMessageError`, and nothing has
  -- been resolved, linked or run.
  pub send_unregistered :
      lookup message.cls sys.managers.handlers.handler_metas ≡ none
      → send resolve perform depth sender message context w sys ≡ (
        (
          err (unregistered_message message.cls),
          record { context = given_or (dict []) context; world = w },
        ),
        sys,
      )
  unfolding send resolve_handler
  send_unregistered e = rw (e, resolve_found)

  module _ (meta : FuncMeta) (callable : Callable) (o : Objects (Env V W) V D)
      (found : lookup message.cls sys.managers.handlers.handler_metas ≡ some meta)
      (resolved : resolve_meta resolve meta sys.objects ≡ (ok callable, o)) where
    -- A command whose handler is registered and resolves, and which no guard is registered for: the
    -- strategy is given the handler itself.
    pub send_unguarded :
        command_guards message.cls sys.managers.handlers ≡ []
        → (send resolve perform (suc depth) sender message context w sys).0
          ≡ sender message context (perform callable) w
    unfolding send chain_guards call
    send_unguarded e =
        rw (resolve_handler-found resolve message.cls sys meta callable o found resolved, e)

    module _ (g : ℕ) (gs : List ℕ) (o' : Objects (Env V W) V D)
        (guarded : resolve_guards resolve (command_guards message.cls sys.managers.handlers) o
          ≡ (ok (g ∷ gs), o')) where
      -- Let the handler of a command be registered and resolve, and let its guards, the global ones
      -- first, resolve to a list that is not empty. If the stack has room for the chain, the
      -- strategy is given that list around the handler, whatever the guards pointed at before;
      -- where one guard object stands in the list more than once, the guards between its places are
      -- left out.
      pub send_guarded :
          length gs + 2 ≤ depth
          → (send resolve perform depth sender message context w sys).0
            ≡ sender message context (compose perform o'.store.kind (reached g gs) callable) w
      unfolding send
      send_guarded enough =
          rw
            (resolve_handler-guarded resolve message.cls sys meta callable o found resolved g gs o'
              guarded)
            (ap (λ k. sender message context k w)
              (call-link perform callable o'.store depth g gs enough))

      -- Let the handler of a command be registered and resolve, and let its guards, the global ones
      -- first, resolve to a list of distinct objects that is not empty. If the stack has room for
      -- the chain, the strategy is given all the guards, each around what follows it in the list,
      -- and the handler innermost, whatever the guards pointed at before.
      pub send_in_order :
          length gs + 2 ≤ depth
          → IsDistinct (g ∷ gs)
          → (send resolve perform depth sender message context w sys).0
            ≡ sender message context (compose perform o'.store.kind (g ∷ gs) callable) w
      send_in_order enough distinct =
          subst
            (λ gs'.
              (send resolve perform depth sender message context w sys).0
              ≡ sender message context (compose perform o'.store.kind gs' callable) w)
            (reached_of_IsDistinct g gs distinct) (send_guarded enough)
