-- ===== src/Dispatch/Publish.antt =====
-- What `Anywise.publish` does with an event.
use anywise.Common.{ℕ, ◌≡◌, Option, none, some, List, [], ◌∷◌, ◌++◌, map, arith, inl, inr}
use anywise.Common.Dict.{lookup}
use anywise.Errors.{Error, ok, err, unregistered_message, Result-cases}
use anywise.Exec.{Exec}
use anywise.Metas.{FuncMeta}
use anywise.Callable.{Callable}
use anywise.Guard.{Message, Callback}
use anywise.Dispatch.{
  Env, given_or, dict, Context, Objects, System, await_all, listeners_found, resolve_listeners,
  resolve_metas, PublishStrategy, publish,
}

module _ {V W D : Type 0} (resolve : ℕ → Exec (Objects (Env V W) V D) ℕ)
    (perform : Callable → Callback (Env V W) V) (depth : ℕ) (publisher : PublishStrategy V W)
    (message : Message V) (context : Option (Context V)) (w : W) (sys : System (Env V W) V D) where
  -- Publishing an event whose type has no listener list raises `UnregisteredMessageError`; nothing is
  -- resolved and no state changes.
  pub publish_unregistered :
      lookup message.cls sys.managers.listeners ≡ none
      → publish resolve perform depth publisher message context w sys ≡ (
        (
          err (unregistered_message message.cls),
          record { context = given_or (dict []) context; world = w },
        ),
        sys,
      )
  unfolding publish resolve_listeners
  publish_unregistered e = rw (e, listeners_found)

  -- If the listeners of an event resolve, the strategy is given all of them, in the order of
  -- registration, and the managers stay as they were.
  pub publish_registered :
      (metas : List FuncMeta) (callables : List Callable) (o : Objects (Env V W) V D)
      → lookup message.cls sys.managers.listeners ≡ some metas
      → resolve_metas resolve metas sys.objects ≡ (ok callables, o)
      → publish resolve perform depth publisher message context w sys
        ≡ (publisher message context (map perform callables) w, record sys { objects = o })
  unfolding publish resolve_listeners
  publish_registered metas callables o e r = rw (e, listeners_found, r)

  -- If one listener cannot be resolved, its exception is raised and no listener runs.
  pub publish_unresolved :
      (metas : List FuncMeta) (x : Error) (o : Objects (Env V W) V D)
      → lookup message.cls sys.managers.listeners ≡ some metas
      → resolve_metas resolve metas sys.objects ≡ (err x, o)
      → publish resolve perform depth publisher message context w sys ≡ (
        (err x, record { context = given_or (dict []) context; world = w }),
        record sys { objects = o },
      )
  unfolding publish resolve_listeners
  publish_unresolved metas x o e r = rw (e, listeners_found, r)

module _ {V W : Type 0} (message : Message V) where
  -- The listeners before one that raises have run, in their order, and those behind it have not:
  -- the outcome is its exception, with the state that it and the ones before it left.
  pub await_all_stops :
      (before behind : List (Callback (Env V W) V)) (listener : Callback (Env V W) V)
      (s s' s'' : Env V W) (e : Error)
      → await_all message before s ≡ (ok tt, s')
      → listener message s' ≡ (err e, s'')
      → await_all message (before ++ listener ∷ behind) s ≡ (err e, s'')
  unfolding await_all
  await_all_stops [] behind listener s s' s'' e done fails = ground arith
  await_all_stops (l ∷ before) behind listener s s' s'' e done fails =
      elim (Result-cases (l message s).0) [
        | inl (v, o) ↦
            rw o
              (await_all_stops before behind listener (l message s).1 s' s'' e (rw o at done) fails)
        | inr (x, o) ↦ absurd (ground arith)
      ]
