-- ===== src/Tests/Sink.antt =====
-- Sinks of events.
use anywise.Common.{ℕ, ◌≡◌, ◌↔◌, ◌⊎◌, refl, some, none, List, [], ◌∷◌, ◌++◌, arith}
use anywise.Errors.{err, attribute_error, sink_unset}
use anywise.Exec.{Exec}
use anywise.Sink.{Queue, sequence, sink, put, put_all, anywise_sink}
use anywise.Sink.Schedule.{
  Sinking, Step, resume, get_step, Reach, here, more, start, IsBounded, sink_in_order, sink_ends,
}
use anywise.Sink.Unset.{IsMasked, anywise_sink_unset}

-- One event is in the queue, which has two places.
abbrev queue : Queue ℕ
queue = record { maxsize = 2; items = 1 ∷ [] }

sink_waits :
    sink (sequence (2 ∷ 3 ∷ 4 ∷ [])) queue
    ≡ (3 ∷ 4 ∷ [], record { maxsize = 2; items = 1 ∷ 2 ∷ [] })
unfolding sink put put_all
sink_waits = refl

abbrev sinking : List ℕ → List ℕ → List ℕ → Sinking ℕ
sinking items pending taken = record {
  queue = record { maxsize = 2; items = items };
  pending = pending;
  taken = taken;
}

-- The sink waits, one event is taken, the sink goes on to its next wait, and so on.
reached : Reach (start (sequence (2 ∷ 3 ∷ 4 ∷ [])) queue) (sinking [] [] (1 ∷ 2 ∷ 3 ∷ 4 ∷ []))
unfolding sink put_all put
reached =
    more
      (more
        (more
          (more
            (more (more here (get_step 1 (2 ∷ []) refl refl)) (resume 3 (4 ∷ []) refl refl refl))
            (get_step 2 (3 ∷ []) refl refl))
          (resume 4 [] refl refl refl))
        (get_step 3 (4 ∷ []) refl refl))
      (get_step 4 [] refl refl)

queue-IsBounded : IsBounded queue
queue-IsBounded ne = omega arith

sink_in_order_example :
    (1 ∷ 2 ∷ 3 ∷ 4 ∷ [] ≡ queue.items ++ 2 ∷ 3 ∷ 4 ∷ [])
    × IsBounded (sinking [] [] (1 ∷ 2 ∷ 3 ∷ 4 ∷ [])).queue
sink_in_order_example =
    sink_in_order (sequence (2 ∷ 3 ∷ 4 ∷ [])) queue (sinking [] [] (1 ∷ 2 ∷ 3 ∷ 4 ∷ []))
      queue-IsBounded reached

stuck : (w : Sinking ℕ) → Step (sinking [] [] (1 ∷ 2 ∷ 3 ∷ 4 ∷ [])) w → ⊥
stuck w (resume e es p free is) = ground (arith, p)
stuck w (get_step x xs p is) = ground (arith, p)

sink_ends_example : 1 ∷ 2 ∷ 3 ∷ 4 ∷ [] ≡ queue.items ++ 2 ∷ 3 ∷ 4 ∷ []
sink_ends_example =
    sink_ends (sequence (2 ∷ 3 ∷ 4 ∷ [])) queue (sinking [] [] (1 ∷ 2 ∷ 3 ∷ 4 ∷ [])) reached stuck

-- A sink that stores the event and then fails on an attribute.
abbrev faulty : ℕ → Exec (List ℕ) (Unit {0})
faulty event s = (err attribute_error, s ++ event ∷ [])

abbrev stored : List ℕ
stored = 5 ∷ []

abbrev unstored : List ℕ
unstored = []

anywise_sink_unset_example :
    (anywise_sink (some faulty) 5 unstored ≡ (err sink_unset, stored))
    ↔ (some faulty ≡ none) × (unstored ≡ stored)
      ⊎ ((f : ℕ → Exec (List ℕ) (Unit {0})) × (some faulty ≡ some f) × IsMasked f 5 unstored stored)
anywise_sink_unset_example = anywise_sink_unset (some faulty) 5 unstored stored

sink_masked : anywise_sink (some faulty) 5 unstored ≡ (err sink_unset, stored)
unfolding anywise_sink
sink_masked = refl
