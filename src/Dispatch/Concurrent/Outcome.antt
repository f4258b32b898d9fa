-- ===== src/Dispatch/Concurrent/Outcome.antt =====
-- Where listeners do not depend on one another, publishing them at once and publishing them in order
-- come to the same.
use anywise.Common.{
  Bool, true, false, ◌≡◌, refl, sym, ap, subst, ◌∙◌, some, if◌then◌else◌, List, [], ◌∷◌, ◌++◌, ◌⊎◌,
  inl, inr, map, arith, any, all, Bool-cases,
}
use anywise.Errors.{Error, Result, ok, err, exception_group, Result-cases}
use anywise.Guard.{Message, Callback}
use anywise.Dispatch.{Env, dict, Context, await_all, default_publish}
use anywise.Dispatch.Concurrent.{
  Coroutine, ended, runs, finish, cancel, has_raised, has_ended, TaskGroup, Step, task_step,
  abort_step, Reach, here, more, outcome, is_empty, create_tasks,
}
use anywise.Dispatch.Concurrent.Order.{
  ArePairwise, run_all, run_all-step, ArePairwise-next, ArePairwise-Ignores,
}

abbrev failed : {V : Type 0} → Result V → Bool
failed (ok v) = false
failed (err e) = true

module _ {S V : Type 0} where
  raised-failed :
      (cs : List (Coroutine S V)) (s : S)
      → any has_raised cs ≡ true
      → any failed (run_all cs s).0 ≡ true
  unfolding finish
  raised-failed [] s h = ground arith
  raised-failed (ended (ok v) ∷ cs) s h = raised-failed cs s h
  raised-failed (ended (err e) ∷ cs) s h = refl
  raised-failed (runs write next c ∷ cs) s h =
      let (r, s') = finish (next s) (write s) in ground (arith, raised-failed cs s')

  run_all_ended :
      (cs : List (Coroutine S V)) (s : S)
      → all has_ended cs ≡ true
      → ((run_all cs s).1 ≡ s) × (any failed (run_all cs s).0 ≡ any has_raised cs)
  unfolding finish
  run_all_ended [] s h = (refl, refl)
  run_all_ended (ended (ok v) ∷ cs) s h = run_all_ended cs s h
  run_all_ended (ended (err e) ∷ cs) s h = ((run_all_ended cs s h).0, refl)
  run_all_ended (runs write next c ∷ cs) s h = absurd (ground arith)

  raised-cancel :
      (cs : List (Coroutine S V)) → any has_raised cs ≡ true → any has_raised (map cancel cs) ≡ true
  unfolding cancel
  raised-cancel [] h = h
  raised-cancel (ended (ok v) ∷ cs) h = raised-cancel cs h
  raised-cancel (ended (err e) ∷ cs) h = refl
  raised-cancel (runs write next c ∷ cs) h = ground (arith, raised-cancel cs)

  raised-replace :
      (before after : List (Coroutine S V)) (write : S → S) (next : S → Coroutine S V)
      (cancelled c : Coroutine S V)
      → any has_raised (before ++ runs write next cancelled ∷ after) ≡ true
      → any has_raised (before ++ c ∷ after) ≡ true
  raised-replace [] after write next cancelled c h = ground arith
  raised-replace (d ∷ before) after write next cancelled c h =
      ground (arith, raised-replace before after write next cancelled c)

  -- What holds of the group until all tasks have ended: what is left comes to `end`, or some task has
  -- raised that fails in `end` too.
  abbrev ComesTo : List (Result V) × S → TaskGroup S V → Type 0
  ComesTo end g =
      (ArePairwise g.tasks × (run_all g.tasks g.shared ≡ end))
      ⊎ ((any has_raised g.tasks ≡ true) × (any failed end.0 ≡ true))

  Step-ComesTo :
      {end : List (Result V) × S} {g g' : TaskGroup S V}
      → Step g g'
      → ComesTo end g
      → ComesTo end g'
  Step-ComesTo {end} {g} (task_step before after f k cancelled e e') (inl (apart, rest)) =
      let apart' = subst ArePairwise e apart in
      subst (ComesTo end) (sym e') (
        inl (
          ArePairwise-next before after f k cancelled g.shared apart',
          sym (
                run_all-step before after f k cancelled g.shared
                  (ArePairwise-Ignores before after f k cancelled apart'))
              ∙ ap (λ cs. run_all cs g.shared) (sym e)
              ∙ rest,
        ))
  Step-ComesTo {end} {g} (task_step before after f k cancelled e e') (inr (raised, fails)) =
      subst (ComesTo end) (sym e') (
        inr (
          raised-replace before after f k cancelled (k g.shared)
              (subst (λ cs. any has_raised cs ≡ true) e raised),
          fails,
        ))
  Step-ComesTo {end} {g} (abort_step first raised e') (inl (apart, rest)) =
      subst (ComesTo end) (sym e') (
        inr (
          raised-cancel g.tasks raised,
          subst (λ end'. any failed end'.0 ≡ true) rest (raised-failed g.tasks g.shared raised),
        ))
  Step-ComesTo {end} {g} (abort_step first raised e') (inr (_, fails)) =
      subst (ComesTo end) (sym e') (inr (raised-cancel g.tasks raised, fails))

  Reach-ComesTo :
      {end : List (Result V) × S} {g g' : TaskGroup S V}
      → ComesTo end g
      → Reach g g'
      → ComesTo end g'
  Reach-ComesTo v here = v
  Reach-ComesTo v (more r step) = Step-ComesTo step (Reach-ComesTo v r)

abbrev pub Listener : Type 0 → Type 0 → Type 0
Listener V W = Message V → Coroutine (Env V W) V

-- How the sequential strategy ends where the group ends so: in the same state if no listener raised,
-- and with an exception of one of them if some did.
abbrev pub Agrees : {S : Type 0} → Result (Unit {0}) × S → Result (Unit {0}) × S → Type 0
Agrees (ok done, s) sequential = sequential ≡ (ok tt, s)
Agrees (err e, s) sequential = (e ≡ exception_group) × (e' : Error) × (sequential.0 ≡ err e')

module _ {V W : Type 0} (msg : Message V) where
  abbrev pub awaited : List (Listener V W) → List (Callback (Env V W) V)
  awaited = map (λ sub m. finish (sub m))

  abbrev tasks_of : List (Listener V W) → List (Coroutine (Env V W) V)
  tasks_of = map (λ (sub : Listener V W). sub msg)

  await_all_returns :
      (subs : List (Listener V W)) (s : Env V W)
      → any failed (run_all (tasks_of subs) s).0 ≡ false
      → await_all msg (awaited subs) s ≡ (ok tt, (run_all (tasks_of subs) s).1)
  unfolding await_all
  await_all_returns [] s h = refl
  await_all_returns (sub ∷ subs) s h = elim (Result-cases (finish (sub msg) s).0) [
    | inl (v, e) ↦ rw e (await_all_returns subs (finish (sub msg) s).1 (rw e at h))
    | inr (x, e) ↦ absurd (ground arith)
  ]

  await_all_raises :
      (subs : List (Listener V W)) (s : Env V W)
      → any failed (run_all (tasks_of subs) s).0 ≡ true
      → (e : Error) × ((await_all msg (awaited subs) s).0 ≡ err e)
  unfolding await_all
  await_all_raises [] s h = absurd (ground arith)
  await_all_raises (sub ∷ subs) s h = elim (Result-cases (finish (sub msg) s).0) [
    | inl (v, e) ↦
        let (x, raises) = await_all_raises subs (finish (sub msg) s).1 (rw e at h) in
        (x, rw e raises)
    | inr (x, e) ↦ (x, rw e refl)
  ]

  ends :
      (subs : List (Listener V W)) (s : Env V W) (g : TaskGroup (Env V W) V)
      → all has_ended g.tasks ≡ true
      → ComesTo (run_all (tasks_of subs) s) g
      → (any has_raised g.tasks ≡ true) ⊎ (any has_raised g.tasks ≡ false)
      → Agrees (outcome g.tasks, g.shared) (await_all msg (awaited subs) s)
  ends subs s g end (inl (apart, rest)) (inr quiet) =
      let (same, fails) = run_all_ended g.tasks g.shared end in
      rw quiet (
        await_all_returns subs s (sym (ap (λ p. any failed p.0) rest) ∙ fails ∙ quiet)
        ∙ ap (λ s'. (ok tt, s')) (sym (ap (λ p. p.1) rest) ∙ same))
  ends subs s g end (inl (apart, rest)) (inl raised) =
      let (same, fails) = run_all_ended g.tasks g.shared end in
      let (x, raises) =
        await_all_raises subs s (sym (ap (λ p. any failed p.0) rest) ∙ fails ∙ raised) in
      rw raised (refl, x, raises)
  ends subs s g end (inr (raised, fails)) quiet =
      let (x, raises) = await_all_raises subs s fails in rw raised (refl, x, raises)

  -- Let a context be given that is not empty, and no two listeners depend on each other's writes.
  -- Under every schedule of the tasks, once all have ended, `concurrent_publish` returns exactly if
  -- `default_publish` does, which awaits the listeners in their order, and then both leave the same
  -- state; otherwise it raises an `ExceptionGroup`, and the other an exception of a listener.
  pub concurrent_publish_lem :
      (context : Context V) (subs : List (Listener V W)) (w : W) (g : TaskGroup (Env V W) V)
      → is_empty context ≡ false
      → ArePairwise (tasks_of subs)
      → Reach (create_tasks msg (some context) subs w) g
      → all has_ended g.tasks ≡ true
      → Agrees (outcome g.tasks, g.shared) (default_publish msg (some context) (awaited subs) w)
  unfolding create_tasks default_publish
  concurrent_publish_lem context subs w g filled apart r end =
      ends subs (record { context = context; world = w }) g end
        (Reach-ComesTo
          (inl (
            apart,
            ap
                (λ b.
                  run_all (tasks_of subs)
                    (record { context = if b then dict [] else context; world = w }))
                filled,
          ))
          r)
        (Bool-cases (any has_raised g.tasks))
