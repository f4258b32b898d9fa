-- ===== src/Sink/Schedule.antt =====
-- A sink of events, with a consumer that takes events from the queue meanwhile. A put that has room does
-- not give way to other tasks, so the sink runs until a put waits, and goes on when there is room again.
use mathlib.Core.List.{append_assoc, append-nil}
use anywise.Common.{
  ◌≤◌, true, false, ◌≡◌, ◌≢◌, ◌∙◌, sym, ap, refl, subst, none, some, List, [], ◌∷◌, ◌++◌, arith,
  length, length-snoc, List-cases, Bool-cases, inl, inr,
}
use anywise.Sink.{Queue, Sunk, one, sequence, full, put_all, sink}
use anywise.Sink.Fill.{put-free, put-full, events_of}

-- The queue, the events that the sink has still to put, and those that the consumer has taken.
pub record Sinking (V : Type 0) : Type 0 where
  pub queue : Queue V
  pub pending : List V
  pub taken : List V

module _ {V : Type 0} where
  pub data Step (s u : Sinking V) : Type 0 where
    resume :
        (e : V) (es : List V)
        → s.pending ≡ e ∷ es
        → full s.queue ≡ false
        → u ≡ record s {
          queue = (put_all s.pending s.queue).1;
          pending = (put_all s.pending s.queue).0;
        }
        → Step s u
    get_step :
        (x : V) (xs : List V)
        → s.queue.items ≡ x ∷ xs
        → u ≡ record s { queue = record s.queue { items = xs }; taken = s.taken ++ x ∷ [] }
        → Step s u

  pub data Reach (s : Sinking V) : Sinking V → Type 0 where
    here : Reach s s
    more : {t u : Sinking V} → Reach s t → Step t u → Reach s u

  -- All events, from the first taken to the last pending.
  abbrev pub events : Sinking V → List V
  events s = s.taken ++ (s.queue.items ++ s.pending)

  abbrev pub IsBounded : Queue V → Type 0
  IsBounded q = q.maxsize ≢ 0 → length q.items ≤ q.maxsize

  -- No event is lost, and the bound holds.
  abbrev AreKept : List V → Queue V → List V × Queue V → Type 0
  AreKept es q (left, q') = (q'.items ++ left ≡ q.items ++ es) × (IsBounded q → IsBounded q')

  put_all-AreKept : (es : List V) (q : Queue V) → AreKept es q (put_all es q)
  unfolding put_all
  put_all-AreKept [] q = (refl, λ b. b)
  put_all-AreKept (e ∷ es) q = elim (Bool-cases (full q)) [
    | inl is ↦
        subst (λ o. AreKept (e ∷ es) q (elim o [ none ↦ (e ∷ es, q) | some q' ↦ put_all es q' ]))
          (sym (put-full e q is)) (refl, λ b. b)
    | inr isnt ↦
        let next = record q { items = q.items ++ e ∷ [] } in
        let (same, bounded) = put_all-AreKept es next in
        subst (λ o. AreKept (e ∷ es) q (elim o [ none ↦ (e ∷ es, q) | some q' ↦ put_all es q' ]))
          (sym (put-free e q isnt))
          (
            same ∙ append_assoc q.items (e ∷ []) es,
            λ b. bounded (λ ne. ground (arith, b, isnt, length-snoc q.items e)),
          )
  ]

  sink-AreKept : (event : Sunk V) (q : Queue V) → AreKept (events_of event) q (sink event q)
  unfolding sink
  sink-AreKept (one e) q = put_all-AreKept (e ∷ []) q
  sink-AreKept (sequence es) q = put_all-AreKept es q

  Step-events : {s u : Sinking V} → Step s u → events u ≡ events s
  Step-events {s} (resume e es p free is) =
      ap events is ∙ ap (λ l. s.taken ++ l) (put_all-AreKept s.pending s.queue).0
  Step-events {s} (get_step x xs p is) =
      subst (λ w. events w ≡ events s) (sym is) (rw (p, append_assoc) refl)

  Step-IsBounded : {s u : Sinking V} → Step s u → IsBounded s.queue → IsBounded u.queue
  Step-IsBounded {s} (resume e es p free is) b =
      subst (λ w. IsBounded w.queue) (sym is) ((put_all-AreKept s.pending s.queue).1 b)
  Step-IsBounded {s} (get_step x xs p is) b =
      subst (λ w. IsBounded w.queue) (sym is) (λ ne. ground (arith, b))

  -- The sink up to its first wait.
  abbrev pub start : Sunk V → Queue V → Sinking V
  start event q = record { queue = (sink event q).1; pending = (sink event q).0; taken = [] }

  Reach-events : {s u : Sinking V} → Reach s u → events u ≡ events s
  Reach-events here = refl
  Reach-events (more r step) = Step-events step ∙ Reach-events r

  Reach-IsBounded : {s u : Sinking V} → Reach s u → IsBounded s.queue → IsBounded u.queue
  Reach-IsBounded here b = b
  Reach-IsBounded (more r step) b = Step-IsBounded step (Reach-IsBounded r b)

  -- A sink of one event or of a sequence puts until a put waits, and goes on when the queue has
  -- room again; a consumer takes events meanwhile. In whatever order they make their steps, no
  -- event is lost, doubled or overtaken, and the queue does not outgrow a bound that it met before.
  pub sink_in_order :
      (event : Sunk V) (q : Queue V) (u : Sinking V)
      → IsBounded q
      → Reach (start event q) u
      → (u.taken ++ (u.queue.items ++ u.pending) ≡ q.items ++ events_of event) × IsBounded u.queue
  sink_in_order event q u b r =
      let (same, bounded) = sink-AreKept event q in
      (Reach-events r ∙ same, Reach-IsBounded r (bounded b))

  full-items : (q : Queue V) → full q ≡ true → q.items ≢ []
  full-items q is none_there = ground arith

  idle :
      (u : Sinking V) → ((w : Sinking V) → Step u w → ⊥) → (u.queue.items ≡ []) × (u.pending ≡ [])
  idle u stuck = elim (List-cases u.queue.items) [
    | inr (x, xs, some_there) ↦ absurd (stuck _ (get_step x xs some_there refl))
    | inl none_there ↦ elim (List-cases u.pending) [
      | inl done ↦ (none_there, done)
      | inr (e, es, left) ↦ elim (Bool-cases (full u.queue)) [
        | inl is ↦ absurd (full-items u.queue is none_there)
        | inr isnt ↦ absurd (stuck _ (resume e es left isnt refl))
      ]
    ]
  ]

  -- A sink puts until a put waits, and goes on when the queue has room again, while a consumer
  -- takes events. A schedule of the two ends, when neither can make a step, only with all events
  -- taken, in their order, behind those that were in the queue.
  pub sink_ends :
      (event : Sunk V) (q : Queue V) (u : Sinking V)
      → Reach (start event q) u
      → ((w : Sinking V) → Step u w → ⊥)
      → u.taken ≡ q.items ++ events_of event
  sink_ends event q u r stuck =
      let (empty, done) = idle u stuck in
      sym (append-nil u.taken)
      ∙ ap (λ l. u.taken ++ l) (sym (ap (λ l. l ++ u.pending) empty ∙ done))
      ∙ Reach-events r
      ∙ (sink-AreKept event q).0
