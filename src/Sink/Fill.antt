-- ===== src/Sink/Fill.antt =====
-- How many events one sink puts into the queue before it has to wait.
use mathlib.Core.List.{append_assoc, append-nil}
use anywise.Common.{
  ℕ, zero, suc, ◌-◌, true, false, ◌≡◌, ◌∙◌, sym, ap, refl, Option, none, some, List, [], ◌∷◌, ◌++◌,
  arith, ◌==◌, length, length-snoc, take, drop, if◌then◌else◌, Bool-cases, inl, inr,
}
use anywise.Sink.{Queue, Sunk, one, sequence, full, put, put_all, sink}

module _ {V : Type 0} where
  abbrev pub events_of : Sunk V → List V
  events_of (one e) = e ∷ []
  events_of (sequence es) = es

  -- The free places, and no more than are needed where there is no bound.
  abbrev pub room : Queue V → ℕ → ℕ
  room q n = if q.maxsize == 0 then n else (q.maxsize - length q.items)

  abbrev pub filled_by : ℕ → List V → Queue V → List V × Queue V
  filled_by n es q = (drop n es, record q { items = q.items ++ take n es })

  abbrev pub filled : List V → Queue V → List V × Queue V
  filled es q = filled_by (room q (length es)) es q

  filled_by-nil : (n : ℕ) (q : Queue V) → filled_by n [] q ≡ ([], q)
  filled_by-nil zero q = rw append-nil refl
  filled_by-nil (suc n) q = rw append-nil refl

  filled_by-zero : (es : List V) (q : Queue V) → filled_by 0 es q ≡ (es, q)
  filled_by-zero es q = rw append-nil refl

  filled_by-suc :
      (n : ℕ) (e : V) (es : List V) (q : Queue V)
      → filled_by n es (record q { items = q.items ++ e ∷ [] }) ≡ filled_by (suc n) (e ∷ es) q
  filled_by-suc n e es q = rw append_assoc refl

  room-full : (n : ℕ) (q : Queue V) → full q ≡ true → room q n ≡ 0
  room-full n q is = ground arith

  room-free :
      (n : ℕ) (e : V) (q : Queue V)
      → full q ≡ false
      → room q (suc n) ≡ suc (room (record q { items = q.items ++ e ∷ [] }) n)
  room-free n e q isnt = ground (arith, length-snoc q.items e)

  pub put-full : (e : V) (q : Queue V) → full q ≡ true → put e q ≡ none
  unfolding put
  put-full e q is = ground arith

  pub put-free :
      (e : V) (q : Queue V)
      → full q ≡ false
      → put e q ≡ some (record q { items = q.items ++ e ∷ [] })
  unfolding put
  put-free e q isnt = rw isnt refl

  abbrev after_put : V → List V → Queue V → Option (Queue V) → List V × Queue V
  after_put e es q none = (e ∷ es, q)
  after_put e es q (some q') = put_all es q'

  put_all-filled : (es : List V) (q : Queue V) → put_all es q ≡ filled es q
  unfolding put_all
  put_all-filled [] q = sym (filled_by-nil (room q 0) q)
  put_all-filled (e ∷ es) q = elim (Bool-cases (full q)) [
    | inl is ↦
        ap (after_put e es q) (put-full e q is)
        ∙ sym (
            ap (λ n. filled_by n (e ∷ es) q) (room-full (length (e ∷ es)) q is)
            ∙ filled_by-zero (e ∷ es) q)
    | inr isnt ↦
        let next = record q { items = q.items ++ e ∷ [] } in
        ap (after_put e es q) (put-free e q isnt)
        ∙ put_all-filled es next
        ∙ filled_by-suc (room next (length es)) e es q
        ∙ sym (ap (λ n. filled_by n (e ∷ es) q) (room-free (length es) e q isnt))
  ]

  -- A sink puts the first events, as many as there is room for, behind the queue in their order,
  -- and waits with the others; with a queue of size 0 it puts all.
  pub sink-filled : (event : Sunk V) (q : Queue V) → sink event q ≡ filled (events_of event) q
  unfolding sink
  sink-filled (one e) q = put_all-filled (e ∷ []) q
  sink-filled (sequence es) q = put_all-filled es q
