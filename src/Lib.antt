-- ===== src/Lib.antt =====
-- Anywise: a message bus for Python programs, as a library of definitions and theorems.
--
-- An application registers command handlers, event listeners and guards in message registries, includes
-- the registries in an `Anywise` object, sends commands and publishes events through it, and may store
-- its events and pass them to a sink.
--
-- Parts, and the files that model them (paths of the code from the repository's root):
--   anywise/errors.py                Errors: the exceptions, and Python's own that the code can raise
--   anywise/_visitor.py              Visitor: `all_subclasses` and `gather_types`, on the class table of
--                                    Classes, which holds what `__subclasses__` and `issubclass` tell
--   anywise/_ds.py, registry.py      Metas: `FuncMeta`, `get_funcmetas`, `get_methodmetas`;
--                                    Registry: `MessageRegistry`, its state and the methods that register
--   anywise/anywise.py               Manager: what `HandlerManager`, `ListenerManager` and `Inspect` hold
--                                    and look up; Callable: `_resolve_meta` and `context_wrapper`;
--                                    Dispatch: `_chain_guards`, `resolve_handler`, `resolve_listeners`,
--                                    `send` and `publish` in a scope; Sink: `Anywise.sink`; Bus: the
--                                    class `Anywise` whole, with its dependency graph and its scopes
--   anywise/strategies.py            Dispatch: `default_send` and `default_publish`; Dispatch.Concurrent:
--                                    `concurrent_publish`
--   anywise/guard.py                 Guard: `BaseGuard`, `Guard`, their links and their calls
--   anywise/sink/__init__.py         Sink: `InMemorySink`
--   anywise/messages/model.py        Messages: events, `__normalized__`, `get_event_cls`; Messages.Entity:
--                                    the `rebuild` of entities
--   anywise/messages/table.py        Messages.Table: rows
--   anywise/messages/eventstore.py   Messages.EventStore: `EventStore`; EventStore.Stored: a store that
--                                    events are added to, EventStore.Reading: what its methods read
--   anywise/integration/fastapi.py   Fastapi: `get_anywise`
--   demo/message.py, demo/todo.py    Demo: `Todo`, its events in memory, and `TodoRepository`
--   demo/api.py                      Demo.Api: the routes, and the registry that handles what they send
-- Common, Exec and the Tests are shared: lists and dicts over the native numbers, state with exceptions,
-- and concrete runs.
--
-- How the parts meet: Registry reads signatures through Metas and Visitor and fills its three mappings.
-- Manager merges the mappings of the included registries. Dispatch looks a message up in the managers,
-- resolves its handler through Callable and its guards through the scope, links the guards in the store of
-- Guard, and hands the first target to a strategy; a call then follows `_next_guard` from guard to guard.
-- Guards are mutable objects that sends share, so Interleaving models sends as tasks on one event loop, a
-- step at a time, and Guard/Effective says what links are left when an object stands in a chain twice.
--
-- How Python is modelled: objects, classes and strings that are only compared are numbers; a `dict` is
-- an association list in insertion order; a `set` is a list without repetition, in some order. Code that
-- mutates and may raise is a function from a state to a result and a state, so what was written before a
-- raise stays. A class statement names classes that exist, so the class table lists them, newest first.
-- `type` is a class too, and its `__subclasses__` raises for want of an argument.
--
-- Fuel: `all_subclasses` recurses through the class hierarchy on fuel that is one more than the number of
-- classes, which is more than the depth of the hierarchy. The call of a chain has the depth of Python's stack as
-- fuel and raises `RecursionError` without; a depth of two more than the guards behind the first is enough.
--
-- Dispatch and Bus are sends of user code that does not send in turn. Nested has `send`, `publish` and the
-- calls of guards on one state that handlers and guards send from as well.
--
-- Bus puts the parts together: it merges the graphs of the registries, includes their mappings, chooses
-- the scope of a message and calls Dispatch in it. Registry/Hooked, Dispatch/Hooks and Bus/Hooked follow the
-- hooks of a program from `register` to the chain of guards that a send calls. A `TaskGroup` is a list of coroutines, which run up to
-- their next `await` in any order, and are cancelled once one of them has raised.
--
-- Parameters: the graph of the package ididi, its scopes (what they return, and what state they change) and
-- its `entry` (what it calls a function with),
-- the user's handlers and hooks, the strategies, SQLAlchemy's engine and the truth value of its conditions,
-- and the calls of event classes of msgspec and pydantic.
--
-- Not modelled: what ididi does with a graph; threads, which async code only runs handlers in; the context that a
-- send in turn is given; module scanning (anywise/runtime.py, anywise/source) and the command line, which
-- are commented out or do I/O only; `TodoService`, `lifespan` and the server of the demo; the types and
-- indexes of the event table's columns; other code that is commented out; the test suite.
pub mod Common
pub mod Errors
pub mod Exec
pub mod Guard
pub mod Classes
pub mod Visitor
pub mod Metas
pub mod Registry
pub mod Manager
pub mod Callable
pub mod Dispatch
pub mod Sink
pub mod Bus
pub mod Nested
pub mod Fastapi
pub mod Messages
pub mod Demo
mod Tests
pub mod Interleaving
