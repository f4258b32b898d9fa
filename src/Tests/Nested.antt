-- ===== src/Tests/Nested.antt =====
-- Sends in turn.
use anywise.Common.{ℕ, ◌+◌, true, ◌≡◌, refl, none, some, [], ◌∷◌, ◌++◌}
use anywise.Errors.{ok, err}
use anywise.Exec.{pure, skip}
use anywise.Metas.{FuncMeta, build_meta}
use anywise.Manager.{Managers, command_guards}
use anywise.Callable.{Callable, resolve_meta}
use anywise.Guard.{Message, Callback, base, hooks, link, chain_next}
use anywise.Dispatch.{
  dict, Env, System, default_send, default_publish, resolve_handler, resolve_guard, resolve_guards,
  chain_guards, link_guards,
}
use anywise.Bus.{Graph}
use anywise.Nested.{Live, Code, call, sends, send_by, live_after}
use anywise.Nested.Redirect.{audit, redirected}
use anywise.Tests.Sample.{World, create, create_user, create_user_meta, guard_meta}

-- A graph that keeps no state, and resolves the class `c` to 100 + `c`.
abbrev pub dg : Graph (Unit {0}) (Unit {0}) (Unit {0})
dg = record {
  new = tt;
  is_truthy = λ d. true;
  merge = λ d. skip;
  analyze_nodes = skip;
  register_singleton = skip;
  node = λ config factory. skip;
  reset = λ d. d;
  scope = λ name d. (0, d);
  aenter = λ s. pure s;
  resolve = λ s c o. (ok (100 + c), o);
}

abbrev UserLive : Type 0
UserLive = Live World (Unit {0})

abbrev note : ℕ → Callback (Env ℕ UserLive) ℕ
note n m env = (ok n, record env { world = record env.world { world = env.world.world ++ n ∷ [] } })

abbrev bus : Managers → System (Unit {0}) (Unit {0}) (Unit {0})
bus ms = record {
  managers = ms;
  objects = record { store = record { kind = λ g. base; next_guard = λ g. none }; container = tt };
}

abbrev live : Managers → World → UserLive
live ms w = record { system = bus ms; world = w }

-- The guard 4 is the only one of both commands, and its pre-hook sends the update.
abbrev update : Message ℕ
update = record { cls = 12; payload = 2 }

abbrev update_user_meta : FuncMeta
update_user_meta = build_meta (record create_user { ref = 8 }) [] (12 ∷ []) none 12

abbrev audited : Managers
audited = record {
  handlers = record {
    handler_metas = (11, create_user_meta) ∷ (12, update_user_meta) ∷ [];
    guard_mapping = (11, guard_meta 11 4 ∷ []) ∷ (12, guard_meta 12 4 ∷ []) ∷ [];
    global_guards = [];
  };
  listeners = [];
}

abbrev auditing : Code ℕ World (Unit {0})
auditing = record {
  perform = λ s c. note 7;
  kind = λ s g. hooks (some (audit 0 update s)) none;
  sender = default_send;
  publisher = default_publish;
}

abbrev resolved :
    Message ℕ → System (Unit {0}) (Unit {0}) (Unit {0}) → System (Unit {0}) (Unit {0}) (Unit {0})
resolved m sys = (resolve_handler (dg.resolve 0) m.cls sys).1

abbrev updating : Callable
updating = elim (resolve_meta (dg.resolve 0) update_user_meta (bus audited).objects).0 [
  | ok c ↦ c
  | err e ↦ Callable.function create_user
]

redirected_example :
    send_by dg auditing (call dg auditing 5) (some 0) create (live audited [])
    ≡ live_after
        (λ l.
          auditing.perform
            (sends dg auditing 3)
            updating
            create
            (record { context = dict []; world = l }))
        (record { system = resolved update (resolved create (bus audited)); world = 7 ∷ [] })
unfolding resolve_handler resolve_meta resolve_guards resolve_guard command_guards chain_guards
    link_guards link chain_next
redirected_example =
    redirected dg auditing 4 0 update create updating (live audited [])
      (record { system = resolved update (resolved create (bus audited)); world = 7 ∷ [] })
      (resolved create (bus audited)) (resolved update (resolved create (bus audited))) 2 7
      (λ n. refl) refl refl refl refl refl refl refl
