-- ===== src/Nested/Redirect.antt =====
-- A guard whose pre-hook sends a message that goes through the same guard.
use anywise.Common.{
  ℕ, suc, true, false, ◌≡◌, refl, ap, ◌∙◌, none, some, [], arith, ◌==◌, if◌then◌else◌,
}
use anywise.Errors.{ok}
use anywise.Exec.{continue}
use anywise.Callable.{Callable}
use anywise.Guard.{Message, Callback, Target, guard, handler, hooks, guard_call, hooks_call}
use anywise.Dispatch.{dict, Env, System, resolve_handler, default_send}
use anywise.Bus.{Graph}
use anywise.Guard.Laws.{continue-pure}
use anywise.Nested
use anywise.Nested.{
  Live, links_of, Sends, Code, Call, follow, handed_on, call, sends, send_by, live_after,
}

module _ {V W D : Type 0} (dg : Graph (Unit {0}) (Unit {0}) D) (code : Code V W D) where
  -- A send whose handler and guards resolve, with the strategy that only calls.
  pub send_by_found :
      (calls : Call dg code) (scope : ℕ) (message : Message V) (live : Live W D)
      (target : Target Callable) (sys : System (Unit {0}) (Unit {0}) D)
      → resolve_handler (dg.resolve scope) message.cls live.system ≡ (ok target, sys)
      → code.sender ≡ default_send
      → send_by dg code calls (some scope) message live
        ≡ live_after (default_send message none (calls target)) (record live { system = sys })
  unfolding send_by Nested.in_scope
  send_by_found calls scope message live target sys found plain =
      ap
        (λ out.
          continue out.0 (λ t. live_after (code.sender message none (calls t)))
            (record live { system = out.1 }))
        found
      ∙ ap
          (λ sender. live_after (sender message none (calls target)) (record live { system = sys }))
          plain

module _ {V W D : Type 0} where
  -- `async def audit(message, context): await anywise.send(inner, scope=scope)`, which lets `inner`
  -- itself pass.
  abbrev pub audit : ℕ → Message V → Sends V W D → Callback (Env V (Live W D)) V
  audit scope inner sends m env =
      let (r, live) = sends.send (some scope) inner env.world in
      if m.cls == inner.cls then (ok m.payload, env) else (r, record env { world = live })

module _ {V W D : Type 0} (dg : Graph (Unit {0}) (Unit {0}) D) (code : Code V W D) (g scope : ℕ)
    (inner outer : Message V) (c : Callable) (live after : Live W D)
    (a b : System (Unit {0}) (Unit {0}) D) (k : ℕ) (response : V)
    (kinds : (n : ℕ)
      → code.kind (sends dg code n) g ≡ hooks (some (audit scope inner (sends dg code n))) none)
    (plain : code.sender ≡ default_send) (differ : (outer.cls == inner.cls) ≡ false)
    (outer_chain : resolve_handler (dg.resolve scope) outer.cls live.system ≡ (ok (guard g), a))
    (inner_chain : resolve_handler (dg.resolve scope) inner.cls a ≡ (ok (guard g), b))
    (inner_link : b.objects.store.next_guard g ≡ some (handler c))
    (handled : code.perform
        (sends dg code k)
        c
        inner
        (record { context = dict []; world = record { system = b; world = live.world } })
      ≡ (ok response, record { context = dict []; world = after }))
    (kept : links_of after g ≡ some (handler c)) where
  call_guard :
      (n : ℕ) (m : Message V) (env : Env V (Live W D))
      → call dg code (suc n) (guard g) m env
        ≡ hooks_call
            (some (audit scope inner (sends dg code n)))
            none
            g
            (some (follow dg code (call dg code n) g))
            m
            env
  unfolding call guard_call
  call_guard n m env =
      ap (λ kind. guard_call kind g (some (follow dg code (call dg code n) g)) m env) (kinds n)

  -- The guard calls what it points at then.
  follow_handler :
      (n : ℕ) (m : Message V) (env : Env V (Live W D))
      → links_of env.world g ≡ some (handler c)
      → follow dg code (call dg code (suc n)) g m env ≡ code.perform (sends dg code n) c m env
  unfolding call follow
  follow_handler n m env at = ap (λ o. handed_on dg code (call dg code (suc n)) g o m env) at

  abbrev inner_env : Env V (Live W D)
  inner_env = record { context = dict []; world = record { system = b; world = live.world } }

  inner_call :
      call dg code (suc (suc k)) (guard g) inner inner_env
      ≡ (ok response, record { context = dict []; world = after })
  unfolding hooks_call
  inner_call =
      let same : (inner.cls == inner.cls) ≡ true = ground arith in
      call_guard (suc k) inner inner_env
      ∙ rw same (rw (follow_handler k inner inner_env inner_link) (rw handled refl))

  inner_send :
      send_by dg code
        (call dg code (suc (suc k)))
        (some scope)
        inner
        (record { system = a; world = live.world })
      ≡ (ok response, after)
  unfolding default_send
  inner_send =
      send_by_found dg code (call dg code (suc (suc k))) scope inner
        (record { system = a; world = live.world }) (guard g) b inner_chain plain
      ∙ ap (λ (r, env). (r, env.world)) inner_call

  outer_call :
      call dg code
        (suc (suc (suc k)))
        (guard g)
        outer
        (record { context = dict []; world = record { system = a; world = live.world } })
      ≡ code.perform (sends dg code (suc k)) c outer (record { context = dict []; world = after })
  unfolding hooks_call
  outer_call =
      call_guard (suc (suc k)) outer
        (record { context = dict []; world = record { system = a; world = live.world } })
      ∙ rw (differ, inner_send)
          (rw (follow_handler (suc k) outer (record { context = dict []; world = after }) kept) (
            let out =
              code.perform (sends dg code (suc k)) c outer
                (record { context = dict []; world = after }) in
            continue-pure out.0 out.1))

  -- A guard object is the only guard of two commands, and its pre-hook sends one of them, in the
  -- same scope, when it gets the other; the handler of the first leaves the link of the guard
  -- alone. Then the other command goes to the handler of the first, and its own is not called.
  pub redirected :
      send_by dg code (call dg code (suc (suc (suc k)))) (some scope) outer live
      ≡ live_after
          (λ l.
            code.perform (sends dg code (suc k)) c outer (record { context = dict []; world = l }))
          after
  unfolding default_send
  redirected =
      send_by_found dg code (call dg code (suc (suc (suc k)))) scope outer live (guard g) a
        outer_chain plain
      ∙ ap (λ (r, env). (r, env.world)) outer_call
