-- ===== src/Nested.antt =====
-- Sends that the user's code makes in turn, while a send runs: `send` and `publish` of
-- anywise/anywise.py and the calls of anywise/guard.py on one state that all of them change. A send in
-- turn relinks guards that an outer chain goes through, so a guard reads `_next_guard` when it hands the
-- message on. A send in turn gives no context, and its dict is lost.
pub mod Redirect
use anywise.Common.{ℕ, zero, suc, Option, none, some, map}
use anywise.Errors.{Result, ok, dungling_guard, recursion_error}
use anywise.Exec.{Exec, pure, raise, ◌>>=◌}
use anywise.Callable.{Callable}
use anywise.Guard.{Message, Callback, Target, guard, handler, Kind, guard_call}
use anywise.Dispatch.{
  Env, System, SendStrategy, PublishStrategy, on_objects, resolve_handler, resolve_listeners,
}
use anywise.Bus.{Graph, message_scope}

-- The managers, the links of the guards and the graph, and the rest of the world. What the guards do
-- stands apart, in `Code`, since it acts on this state; the classes that the store holds are not read.
pub record Live (W D : Type 0) : Type 0 where
  pub system : System (Unit {0}) (Unit {0}) D
  pub world : W

abbrev pub links_of : {W D : Type 0} → Live W D → ℕ → Option (Target Callable)
links_of live = live.system.objects.store.next_guard

-- What the user's code can call: with a scope or without one.
pub record Sends (V W D : Type 0) : Type 0 where
  pub send : Option ℕ → Message V → Exec (Live W D) V
  pub publish : Option ℕ → Message V → Exec (Live W D) (Unit {0})

-- The user's handlers and guards, and the strategies.
pub record Code (V W D : Type 0) : Type 0 where
  pub perform : Sends V W D → Callable → Callback (Env V (Live W D)) V
  pub kind : Sends V W D → ℕ → Kind (Env V (Live W D)) V
  pub sender : SendStrategy V (Live W D)
  pub publisher : PublishStrategy V (Live W D)

module _ {W D : Type 0} where
  abbrev pub on_system : {A : Type 0} → Exec (System (Unit {0}) (Unit {0}) D) A → Exec (Live W D) A
  on_system m live = let (r, sys) = m live.system in (r, record live { system = sys })

  abbrev pub on_container : {A : Type 0} → Exec D A → Exec (Live W D) A
  on_container m =
      on_system (on_objects λ o. let (r, d) = m o.container in (r, record o { container = d }))

  -- What is left of the environment of a message.
  abbrev pub live_after :
      {V A : Type 0} → (Live W D → Result A × Env V (Live W D)) → Exec (Live W D) A
  live_after run live = let (r, env) = run live in (r, env.world)

module _ {V W D : Type 0} (dg : Graph (Unit {0}) (Unit {0}) D) (code : Code V W D) where
  -- `if scope is None: scope = await self._dg.scope("message").__aenter__()`
  unfoldable pub in_scope : Option ℕ → Exec (Live W D) ℕ
  in_scope none =
      on_container (λ d. let (s, d') = dg.scope (some message_scope) d in (ok s, d')) >>= λ s.
      on_container (dg.aenter s)
  in_scope (some s) = pure s

  abbrev pub Call : Type 0
  Call = Target Callable → Callback (Env V (Live W D)) V

  -- `Anywise.send`, where `call` calls what a message is given to
  unfoldable pub send_by : Call → Option ℕ → Message V → Exec (Live W D) V
  send_by call scope message = in_scope scope >>= λ s.
      on_system (resolve_handler (dg.resolve s) message.cls) >>= λ target.
      live_after (code.sender message none (call target))

  -- `Anywise.publish`
  unfoldable pub publish_by : Call → Option ℕ → Message V → Exec (Live W D) (Unit {0})
  publish_by call scope message = in_scope scope >>= λ s.
      on_system (resolve_listeners (dg.resolve s) message.cls) >>= λ listeners.
      live_after (code.publisher message none (map (λ c. call (handler c)) listeners))

  abbrev pub sends_by : Call → Sends V W D
  sends_by call = record { send = send_by call; publish = publish_by call }

  abbrev handed_on : Call → ℕ → Option (Target Callable) → Callback (Env V (Live W D)) V
  handed_on call self none message = raise (dungling_guard self)
  handed_on call self (some target) message = call target message

  -- `BaseGuard.__call__`: `_next_guard` is read at the time of the call.
  unfoldable pub follow : Call → ℕ → Callback (Env V (Live W D)) V
  follow call self message s = handed_on call self (links_of s.world self) message s

  -- A call of a target; the fuel is the depth of Python's stack.
  unfoldable pub call : ℕ → Call
  call zero target = λ message. raise recursion_error
  call (suc depth) (handler c) = code.perform (sends_by (call depth)) c
  call (suc depth) (guard g) =
      guard_call (code.kind (sends_by (call depth)) g) g (some (follow (call depth) g))

  abbrev pub sends : ℕ → Sends V W D
  sends depth = sends_by (call depth)
