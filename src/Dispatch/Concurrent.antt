-- ===== src/Dispatch/Concurrent.antt =====
-- `concurrent_publish` of anywise/strategies.py: a task for each listener in a `TaskGroup`, on one
-- event loop. A listener is a coroutine, which other tasks may interrupt only where it awaits. When a
-- task has raised, the group cancels the others once, at any later time here; an `ExceptionGroup` is
-- raised once all tasks have ended, without its exceptions here.
pub mod Order
pub mod Ends
pub mod Outcome
use anywise.Common.{
  ℕ, Bool, true, false, ◌≡◌, Option, none, some, List, [], ◌∷◌, ◌++◌, map, any, if◌then◌else◌,
}
use anywise.Common.Dict.{Dict}
use anywise.Errors.{Result, ok, err, exception_group}
use anywise.Guard.{Message}
use anywise.Dispatch.{Env, dict, mapping_proxy, Context}

pub data Coroutine (S V : Type 0) : Type 0 where
  ended : Result V → Coroutine S V
  -- What it writes up to its next `await`, how it goes on from there, and how it goes on if it is
  -- cancelled before it runs.
  runs : (S → S) → (S → Coroutine S V) → Coroutine S V → Coroutine S V

module _ {S V : Type 0} where
  -- A coroutine that is awaited alone.
  unfoldable pub finish : Coroutine S V → S → Result V × S
  finish (ended r) s = (r, s)
  finish (runs write next cancelled) s = finish (next s) (write s)

  unfoldable pub cancel : Coroutine S V → Coroutine S V
  cancel (ended r) = ended r
  cancel (runs write next cancelled) = cancelled

  abbrev pub has_raised : Coroutine S V → Bool
  has_raised (ended (err e)) = true
  has_raised _ = false

  abbrev pub has_ended : Coroutine S V → Bool
  has_ended (ended r) = true
  has_ended _ = false

-- The tasks that the group has created, in their order, and the state that they share.
pub record TaskGroup (S V : Type 0) : Type 0 where
  pub tasks : List (Coroutine S V)
  pub shared : S
  -- The group has cancelled its tasks.
  pub aborting : Bool

module _ {S V : Type 0} where
  pub data Step (g g' : TaskGroup S V) : Type 0 where
    task_step :
        (before after : List (Coroutine S V)) (write : S → S) (next : S → Coroutine S V)
        (cancelled : Coroutine S V)
        → g.tasks ≡ before ++ runs write next cancelled ∷ after
        → g' ≡ record g { tasks = before ++ next g.shared ∷ after; shared = write g.shared }
        → Step g g'
    abort_step :
        g.aborting ≡ false
        → any has_raised g.tasks ≡ true
        → g' ≡ record g { tasks = map cancel g.tasks; aborting = true }
        → Step g g'

  pub data Reach (g : TaskGroup S V) : TaskGroup S V → Type 0 where
    here : Reach g g
    more : {g' g'' : TaskGroup S V} → Reach g g' → Step g' g'' → Reach g g''

  -- What leaving the `async with` block comes to.
  abbrev pub outcome : List (Coroutine S V) → Result (Unit {0})
  outcome tasks = if any has_raised tasks then err exception_group else ok tt

module _ {V : Type 0} where
  -- `if not context: context = {}`: also a given context that is empty is replaced by a new dict. The
  -- context is part of the state that the coroutines read and write.
  abbrev pub is_empty : Context V → Bool
  is_empty (dict []) = true
  is_empty (mapping_proxy []) = true
  is_empty _ = false

  abbrev pub given_or_new : Option (Context V) → Context V
  given_or_new none = dict []
  given_or_new (some context) = if is_empty context then dict [] else context

module _ {V W : Type 0} where
  unfoldable pub create_tasks :
      Message V
      → Option (Context V)
      → List (Message V → Coroutine (Env V W) V)
      → W
      → TaskGroup (Env V W) V
  create_tasks msg context subscribers w = record {
    tasks = map (λ sub. sub msg) subscribers;
    shared = record { context = given_or_new context; world = w };
    aborting = false;
  }
