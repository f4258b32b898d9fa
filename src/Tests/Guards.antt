-- ===== src/Tests/Guards.antt =====
-- Sends through guards.
use anywise.Common.{◌==◌, ℕ, ◌≡◌, refl, none, some, [], ◌∷◌, arith, if◌then◌else◌}
use anywise.Errors.{ok, raised}
use anywise.Callable.{Callable, function, entry, maybe_wrapped, maybe_thread, resolve_meta}
use anywise.Exec.{◌>>=◌}
use anywise.Guard.Effective.{reached}
use anywise.Guard.{Store, base, hooks, guard, link, call, compose, hooks_call, guard_call}
use anywise.Guard.Laws.{run_pres, run_posts, call-hooks, call_refused, call_leaves_out}
use anywise.Manager.{command_guards}
use anywise.Dispatch.{
  dict, default_send, System, resolve_guard, resolve_guards, resolve_handler, chain_guards,
  link_guards, send,
}
use anywise.Dispatch.Send.{send_guarded}
use anywise.Tests.Sample.{
  create_user_meta, UserEnv, log, kind, store, perform, objects, resolve, system, create,
  guard_meta, refuse,
}

abbrev callable : Callable
callable =
    maybe_wrapped create_user_meta.is_contexted
      (entry create_user_meta.ignore (maybe_thread create_user_meta))

-- One guard object stands first and last; the one between is left out.
abbrev twice : System UserEnv ℕ (Unit {0})
twice = record system {
  managers = record system.managers {
    handlers = record system.managers.handlers {
      guard_mapping = (11, guard_meta 11 4 ∷ guard_meta 11 3 ∷ []) ∷ [];
    };
  };
}

send_guarded_example :
    (send resolve perform 9 default_send create none [] twice).0
    ≡ default_send create none (compose perform kind (reached 3 (4 ∷ 3 ∷ [])) callable) []
unfolding resolve_meta resolve_guards resolve_guard command_guards
send_guarded_example =
    send_guarded resolve perform 9 default_send create none [] twice create_user_meta callable
      objects refl refl 3 (4 ∷ 3 ∷ []) objects refl (omega arith)

program : Unit {0}
unfolding resolve_meta resolve_guards resolve_guard command_guards send resolve_handler default_send
    chain_guards link_guards link call guard_call hooks_call compose reached
program = tt

-- The log of the run shows the global guard, the guard of the type, and the handler.
send_runs :
    (send resolve perform 9 default_send create none [] system).0
    ≡ (ok 7, record { context = dict []; world = 3 ∷ 4 ∷ 7 ∷ [] })
unfolding program
send_runs = refl

send_leaves_out :
    (send resolve perform 9 default_send create none [] twice).0
    ≡ (ok 7, record { context = dict []; world = 3 ∷ 7 ∷ [] })
unfolding program
send_leaves_out = refl

call-hooks_example :
    call perform 9 (link 3 (4 ∷ []) callable store) (guard 3) create
    ≡ run_pres perform kind
        (λ g. some (log g))
        (λ g. none)
        (3 ∷ 4 ∷ [])
        (λ m.
          perform callable m
          >>= run_posts perform kind (λ g. some (log g)) (λ g. none) (3 ∷ 4 ∷ []) m)
        create
call-hooks_example =
    call-hooks perform (λ g. some (log g)) (λ g. none) store callable 3 (4 ∷ []) 9 create
      (omega arith) (ground arith) (refl, (refl, tt))

-- Guard 4 refuses.
abbrev refusing : Store UserEnv ℕ Callable
refusing = record {
  kind = λ g. hooks (some (if g == 4 then refuse else log g)) none;
  next_guard = λ g. none;
}

call_refused_example :
    call perform 9 (link 3 (4 ∷ 5 ∷ []) callable refusing) (guard 3)
    ≡ call perform 9 (link 3 (4 ∷ []) (function create_user_meta.handler) refusing) (guard 3)
call_refused_example =
    call_refused perform refusing 4 refuse none (3 ∷ []) (5 ∷ []) [] callable
      (function create_user_meta.handler) 3 3 (4 ∷ 5 ∷ []) (4 ∷ []) 9 refl
      (λ m s. (raised 9, s, refl)) refl refl (ground arith) (ground arith) (omega arith)
      (omega arith)

call_leaves_out_example :
    call perform 9 (link 3 (4 ∷ 3 ∷ []) callable store) (guard 3)
    ≡ compose perform kind (3 ∷ []) callable
call_leaves_out_example = call_leaves_out perform store callable 3 (4 ∷ []) 9 (omega arith)

-- Guards 3 and 4 are plain.
abbrev plain_store : Store UserEnv ℕ Callable
plain_store = record { kind = λ g. base; next_guard = λ g. none }
