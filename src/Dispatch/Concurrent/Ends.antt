-- ===== src/Dispatch/Concurrent/Ends.antt =====
-- A task group that is left can end.
use anywise.Common.{true, ◌≡◌, refl, sym, ap, ◌∙◌, List, [], ◌∷◌, ◌++◌, arith, all}
use anywise.Dispatch.Concurrent.{
  Coroutine, ended, runs, has_ended, TaskGroup, Step, task_step, Reach, here, more,
}

module _ {S V : Type 0} where
  Reach-trans : {g g' g'' : TaskGroup S V} → Reach g g' → Reach g' g'' → Reach g g''
  Reach-trans r here = r
  Reach-trans r (more r' step) = more (Reach-trans r r') step

  -- All tasks have ended.
  abbrev pub CanEnd : TaskGroup S V → Type 0
  CanEnd g = (g' : TaskGroup S V) × Reach g g' × (all has_ended g'.tasks ≡ true)

  after-Step : {g g' : TaskGroup S V} → Step g g' → CanEnd g' → CanEnd g
  after-Step step (u, r, e) = (u, Reach-trans (more here step) r, e)

  all-snoc :
      (cs : List (Coroutine S V)) (r : Coroutine S V)
      → all has_ended cs ≡ true
      → has_ended r ≡ true
      → all has_ended (cs ++ r ∷ []) ≡ true
  all-snoc [] r h e = rw e
  all-snoc (c ∷ cs) r h e = ground (arith, all-snoc cs r)

  append-cons :
      (xs ys : List (Coroutine S V)) (c : Coroutine S V) → (xs ++ c ∷ []) ++ ys ≡ xs ++ c ∷ ys
  append-cons [] ys c = refl
  append-cons (x ∷ xs) ys c = ap (◌∷◌ x) (append-cons xs ys c)

  append-nil : (xs : List (Coroutine S V)) → xs ++ [] ≡ xs
  append-nil [] = refl
  append-nil (x ∷ xs) = ap (◌∷◌ x) (append-nil xs)

  -- The tasks behind those that have ended can be run to their ends.
  abbrev CanEndFrom : List (Coroutine S V) → Type 0
  CanEndFrom todo =
      (done : List (Coroutine S V)) (g : TaskGroup S V)
      → g.tasks ≡ done ++ todo
      → all has_ended done ≡ true
      → CanEnd g

  CanEndFrom-cons :
      (todo : List (Coroutine S V)) → CanEndFrom todo → (c : Coroutine S V) → CanEndFrom (c ∷ todo)
  CanEndFrom-cons todo rest (ended r) done g e h =
      rest (done ++ ended r ∷ []) g (e ∙ sym (append-cons done todo (ended r)))
        (all-snoc done (ended r) h refl)
  CanEndFrom-cons todo rest (runs write next cancelled) done g e h =
      after-Step (task_step done todo write next cancelled e refl) (
        CanEndFrom-cons todo rest (next g.shared) done
          (record g { tasks = done ++ next g.shared ∷ todo; shared = write g.shared }) refl h)

  all-CanEndFrom : (todo : List (Coroutine S V)) → CanEndFrom todo
  all-CanEndFrom [] done g e h = (g, here, rw (e, append-nil done) h)
  all-CanEndFrom (c ∷ todo) done g e h = CanEndFrom-cons todo (all-CanEndFrom todo) c done g e h

  -- Whatever its tasks have done and are still to do, there is a schedule in which all of them end.
  pub group-CanEnd : (g : TaskGroup S V) → CanEnd g
  group-CanEnd g = all-CanEndFrom g.tasks [] g refl refl
