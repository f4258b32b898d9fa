-- ===== src/Guard.antt =====
-- anywise/guard.py, and the linking loop of `_chain_guards` in anywise/anywise.py. A guard is a
-- mutable object, so guards live in a store by their identity, and `_next_guard` is a reference:
-- two metas may hold one object. `H` is the type of resolved handlers, `S` the state that the
-- user's code reaches (the context among it), `V` the Python values.
pub mod Effective
pub mod Chain
pub mod Laws
use anywise.Common.{
  ℕ, zero, suc, Bool, true, false, Option, none, some, List, [], ◌∷◌, ◌==◌, if◌then◌else◌,
}
use anywise.Errors.{dungling_guard, recursion_error}
use anywise.Exec.{Exec, pure, raise, ◌>>=◌, ◌>>◌}

-- `type(message)` and its content
pub record Message (V : Type 0) : Type 0 where
  pub cls : ℕ
  pub payload : V

abbrev pub Callback : Type 0 → Type 0 → Type 0
Callback S V = Message V → Exec S V

-- What `next_guard` may be: another guard, or the handler at the end.
pub data Target (H : Type 0) : Type 0 where
  guard : ℕ → Target H
  handler : H → Target H

-- The class of a guard object: `BaseGuard` itself, `Guard` with its two hooks, or a subclass that
-- overrides `__call__` and is handed `super().__call__`.
pub data Kind (S V : Type 0) : Type 0 where
  base : Kind S V
  hooks : Option (Callback S V) → Option (Message V → V → Exec S V) → Kind S V
  custom : (Callback S V → Callback S V) → Kind S V

pub record Store (S V H : Type 0) : Type 0 where
  pub kind : ℕ → Kind S V
  pub next_guard : ℕ → Option (Target H)

module _ {S V : Type 0} where
  -- `BaseGuard.__call__`
  unfoldable pub base_call : ℕ → Option (Callback S V) → Callback S V
  base_call self none message = raise (dungling_guard self)
  base_call self (some next_guard) message = next_guard message

  abbrev pub run_pre : Option (Callback S V) → Callback S V → Callback S V
  run_pre none rest message = rest message
  run_pre (some pre_handle) rest message = pre_handle message >> rest message

  abbrev pub run_post : Option (Message V → V → Exec S V) → Message V → V → Exec S V
  run_post none message response = pure response
  run_post (some post_handle) message response = post_handle message response

  -- `Guard.__call__`
  unfoldable pub hooks_call :
      Option (Callback S V)
      → Option (Message V → V → Exec S V)
      → ℕ
      → Option (Callback S V)
      → Callback S V
  hooks_call pre post self none message = run_pre pre (λ _. raise (dungling_guard self)) message
  hooks_call pre post self (some next_guard) message =
      run_pre pre (λ m. next_guard m >>= run_post post m) message

  -- `guard(message, context)`, dispatched on the guard's class
  unfoldable pub guard_call : Kind S V → ℕ → Option (Callback S V) → Callback S V
  unfolding base_call hooks_call
  guard_call base self next_guard = base_call self next_guard
  guard_call (hooks pre post) self next_guard = hooks_call pre post self next_guard
  guard_call (custom around) self next_guard = around (base_call self next_guard)

module _ {S V H : Type 0} where
  -- `BaseGuard.chain_next`
  unfoldable pub chain_next : ℕ → Target H → Store S V H → Store S V H
  chain_next self target st = record st {
    next_guard = λ g. if g == self then some target else st.next_guard g;
  }

  -- The loop of `_chain_guards` with `ptr` at a guard: `for nxt in rest`, then the handler.
  unfoldable pub link : ℕ → List ℕ → H → Store S V H → Store S V H
  unfolding chain_next
  link ptr [] h st = chain_next ptr (handler h) st
  link ptr (nxt ∷ rest) h st = link nxt rest h (chain_next ptr (guard nxt) st)

  module _ (run_handler : H → Callback S V) where
    abbrev bound : (Target H → Callback S V) → Option (Target H) → Option (Callback S V)
    bound f none = none
    bound f (some t) = some (f t)

    -- A call of a target, following `_next_guard` through the store. The fuel is the depth of
    -- Python's stack.
    unfoldable pub call : ℕ → Store S V H → Target H → Callback S V
    call zero st t = λ message. raise recursion_error
    call (suc depth) st (handler h) = run_handler h
    call (suc depth) st (guard g) =
        guard_call (st.kind g) g (bound (call depth st) (st.next_guard g))

    -- The specification: each guard of the list wraps what follows it, the handler innermost.
    unfoldable pub compose : (ℕ → Kind S V) → List ℕ → H → Callback S V
    compose kind [] h = run_handler h
    compose kind (g ∷ gs) h = guard_call (kind g) g (some (compose kind gs h))
