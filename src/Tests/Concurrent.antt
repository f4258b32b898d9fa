-- ===== src/Tests/Concurrent.antt =====
-- Two listeners at once.
use anywise.Common.{ℕ, ◌+◌, refl, false, some, List, [], ◌∷◌, arith}
use anywise.Errors.{ok}
use anywise.Guard.{Message}
use anywise.Dispatch.{Env, Context, dict, default_publish}
use anywise.Dispatch.Concurrent.{
  ended, runs, TaskGroup, task_step, Reach, here, more, outcome, create_tasks,
}
use anywise.Dispatch.Concurrent.Order.{AreIndependent}
use anywise.Dispatch.Concurrent.Outcome.{Listener, awaited, Agrees, concurrent_publish_lem}

abbrev event : Message ℕ
event = record { cls = 21; payload = 7 }

abbrev CountEnv : Type 0
CountEnv = Env ℕ ℕ

-- Adds to a counter, and returns after an `await`.
abbrev count : ℕ → Listener ℕ ℕ
count n message = runs (λ s. record s { world = s.world + n }) (λ s. ended (ok n)) (ended (ok 0))

abbrev listeners : List (Listener ℕ ℕ)
listeners = count 1 ∷ count 2 ∷ []

-- A context that the caller gives.
abbrev given : Context ℕ
given = dict ((1, 2) ∷ [])

abbrev created : TaskGroup CountEnv ℕ
created = record {
  tasks = count 1 event ∷ count 2 event ∷ [];
  shared = record { context = given; world = 5 };
  aborting = false;
}

-- The second listener runs first.
abbrev second_ended : TaskGroup CountEnv ℕ
second_ended = record created {
  tasks = count 1 event ∷ ended (ok 2) ∷ [];
  shared = record { context = given; world = 5 + 2 };
}

abbrev both_ended : TaskGroup CountEnv ℕ
both_ended = record created {
  tasks = ended (ok 1) ∷ ended (ok 2) ∷ [];
  shared = record { context = given; world = 5 + 2 + 1 };
}

backwards : Reach (create_tasks event (some given) listeners 5) both_ended
unfolding create_tasks
backwards =
    more
      (more here (
        task_step (count 1 event ∷ []) [] (λ s. record s { world = s.world + 2 })
          (λ s. ended (ok 2)) (ended (ok 0)) refl refl))
      (task_step [] (ended (ok 2) ∷ []) (λ s. record s { world = s.world + 1 }) (λ s. ended (ok 1))
        (ended (ok 0)) refl refl)

one_apart : (m n : ℕ) → AreIndependent (count n event) (count m event)
one_apart m n = ((λ s. (ground arith, refl, refl, tt)), λ s. tt)

concurrent_publish_lem_example :
    Agrees
      (outcome both_ended.tasks, both_ended.shared)
      (default_publish event (some given) (awaited event listeners) 5)
concurrent_publish_lem_example =
    concurrent_publish_lem event given listeners 5 both_ended refl
      (((one_apart 1 2, one_apart 2 1), tt), (tt, tt)) backwards refl
