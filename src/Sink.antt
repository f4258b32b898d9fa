-- ===== src/Sink.antt =====
-- anywise/sink/__init__.py, and `Anywise.sink` of anywise/anywise.py. A put into a full
-- `asyncio.Queue` makes the caller wait, so a sink of several events can stop between two of them.
pub mod Fill
pub mod Schedule
pub mod Unset
use anywise.Common.{
  ℕ, Bool, true, false, not, Option, none, some, List, [], ◌∷◌, ◌++◌, ◌==◌, ltb, length,
  if◌then◌else◌,
}
use anywise.Errors.{Error, Result, ok, err, attribute_error, sink_unset}
use anywise.Exec.{Exec, raise}

-- `asyncio.Queue`, where size 0 means no bound
pub record Queue (V : Type 0) : Type 0 where
  pub maxsize : ℕ
  pub items : List V

-- `event: IEvent | Sequence[IEvent]`
pub data Sunk (V : Type 0) : Type 0 where
  one : V → Sunk V
  sequence : List V → Sunk V

module _ {V : Type 0} where
  -- `InMemorySink.__init__`
  unfoldable pub in_memory_sink : ℕ → Queue V
  in_memory_sink volume = record { maxsize = volume; items = [] }

  abbrev pub full : Queue V → Bool
  full q = if q.maxsize == 0 then false else not (ltb (length q.items) q.maxsize)

  -- `put`, where `none` means that the caller waits
  unfoldable pub put : V → Queue V → Option (Queue V)
  put e q = if full q then none else some (record q { items = q.items ++ e ∷ [] })

  -- The loop of `InMemorySink.sink`, up to the first put that waits: the events that are left.
  unfoldable pub put_all : List V → Queue V → List V × Queue V
  put_all [] q = ([], q)
  put_all (e ∷ es) q = elim (put e q) [ none ↦ (e ∷ es, q) | some q' ↦ put_all es q' ]

  -- `InMemorySink.sink`
  unfoldable pub sink : Sunk V → Queue V → List V × Queue V
  sink (one e) q = put_all (e ∷ []) q
  sink (sequence es) q = put_all es q

-- `except AttributeError: raise SinkUnsetError()`
abbrev pub sink_error : Error → Error
sink_error attribute_error = sink_unset
sink_error e = e

abbrev pub except_attribute_error : {S : Type 0} → Result (Unit {0}) × S → Result (Unit {0}) × S
except_attribute_error (ok done, s) = (ok done, s)
except_attribute_error (err e, s) = (err (sink_error e), s)

module _ {S V : Type 0} where
  -- `self._sink.sink(event)`; `None` has no attribute `sink`.
  abbrev pub call_sink : Option (V → Exec S (Unit {0})) → V → Exec S (Unit {0})
  call_sink none event = raise attribute_error
  call_sink (some event_sink) event = event_sink event

  -- `Anywise.sink`
  unfoldable pub anywise_sink : Option (V → Exec S (Unit {0})) → V → Exec S (Unit {0})
  anywise_sink event_sink event s = except_attribute_error (call_sink event_sink event s)
