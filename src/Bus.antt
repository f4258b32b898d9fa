-- ===== src/Bus.antt =====
-- The class `Anywise` of anywise/anywise.py, and what a `MessageRegistry` of anywise/registry.py does
-- with its dependency graph. A graph belongs to one object here; ididi's operations on it are the
-- fields of `Graph`, and the state `D` is that of a graph with the scopes that it has made.
pub mod Including
pub mod Scopes
pub mod Program
pub mod Hooked
use anywise.Common.{ℕ, Bool, Option, none, some, List, [], ◌∷◌, if◌then◌else◌}
use anywise.Common.Dict.{Dict}
use anywise.Errors.{Result, ok, err}
use anywise.Exec.{Exec, pure, modify, ◌>>=◌, ◌>>◌}
use anywise.Classes.{ClassTable}
use anywise.Registry
use anywise.Registry.{Registry, Target}
use anywise.Manager.{HandlerManager, ListenerMetas, Managers, no_managers, include_registry}
use anywise.Callable.{Callable}
use anywise.Guard.{Message, Callback, Store}
use anywise.Dispatch
use anywise.Dispatch.{Env, given_or, dict, Context, Objects, System, SendStrategy, PublishStrategy}
use anywise.Sink.{anywise_sink}

-- `ididi.Graph`. A scope and a class are numbers.
pub record Graph (S V D : Type 0) : Type 0 where
  -- `Graph()`, and the truth value of a graph
  pub new : D
  pub is_truthy : D → Bool
  -- `merge(other)`
  pub merge : D → Exec D (Unit {0})
  pub analyze_nodes : Exec D (Unit {0})
  -- `register_singleton(anywise)`
  pub register_singleton : Exec D (Unit {0})
  -- `node(**config)(factory)`
  pub node : ℕ → ℕ → Exec D (Unit {0})
  -- `reset(clear_nodes=True)`
  pub reset : D → D
  -- `scope(name)` and its `__aenter__`
  pub scope : Option ℕ → D → ℕ × D
  pub aenter : ℕ → Exec D ℕ
  -- `resolve(cls)` of a scope
  pub resolve : ℕ → ℕ → Exec (Objects S V D) ℕ

-- A registry with its graph.
pub record MessageRegistry (D : Type 0) : Type 0 where
  pub mappings : Registry
  pub graph : D

pub record Anywise (V W D : Type 0) : Type 0 where
  pub system : System (Env V W) V D
  pub sender : SendStrategy V W
  pub publisher : PublishStrategy V W
  pub event_sink : Option (V → Exec W (Unit {0}))

-- The name "message".
abbrev pub message_scope : ℕ
message_scope = 0

-- The managers that an `Inspect` refers to, weakly.
pub record Inspect : Type 0 where
  pub hm : Option HandlerManager
  pub lm : Option ListenerMetas

-- What `factory` returns: a partial application with its configuration, or the factory.
pub data Decorated : Type 0 where
  partial : ℕ → Decorated
  factory : ℕ → Decorated

module _ {S V D : Type 0} (dg : Graph S V D) where
  -- `graph or Graph()`
  unfoldable pub given_graph : Option D → D
  given_graph none = dg.new
  given_graph (some graph) = if dg.is_truthy graph then graph else dg.new

  -- `MessageRegistry.__init__`
  unfoldable pub new_registry : Option ℕ → Option ℕ → Option D → ℕ → MessageRegistry D
  new_registry command_base event_base graph fresh = record {
    mappings = Registry.init command_base event_base fresh;
    graph = given_graph graph;
  }

  -- `MessageRegistry.factory`
  unfoldable pub registry_factory : Option ℕ → ℕ → Exec (MessageRegistry D) Decorated
  registry_factory none config = pure (partial config)
  registry_factory (some f) config =
      (λ reg. let (r, graph) = dg.node config f reg.graph in (r, record reg { graph = graph }))
      >> pure (factory f)

-- `MessageRegistry.__call__`, which hands the handler back
unfoldable pub registry_call : {D : Type 0} → ClassTable → Target → Exec (MessageRegistry D) Target
registry_call t handler =
    (λ reg.
      let (r, mappings) = Registry.register_target t handler reg.mappings in
      (r, record reg { mappings = mappings }))
    >> pure handler

module _ {V W D : Type 0} (dg : Graph (Env V W) V D) where
  abbrev pub on_graph : {A : Type 0} → Exec D A → Exec (Anywise V W D) A
  on_graph m aw =
      let (r, d) = m aw.system.objects.container in
      (
        r,
        record aw {
          system = record aw.system { objects = record aw.system.objects { container = d } };
        },
      )

  abbrev pub include_mappings : Registry → Anywise V W D → Anywise V W D
  include_mappings reg aw = record aw {
    system = record aw.system { managers = include_registry reg aw.system.managers };
  }

  -- `Anywise.include`
  unfoldable pub include : List (MessageRegistry D) → Exec (Anywise V W D) (Unit {0})
  include [] = on_graph dg.analyze_nodes
  include (reg ∷ regs) =
      on_graph (dg.merge reg.graph) >> modify (include_mappings reg.mappings) >> include regs

  abbrev pub unfilled :
      Option D
      → Option (V → Exec W (Unit {0}))
      → SendStrategy V W
      → PublishStrategy V W
      → Store (Env V W) V Callable
      → Anywise V W D
  unfilled graph event_sink sender publisher store = record {
    system = record {
      managers = no_managers;
      objects = record { store = store; container = given_graph dg graph };
    };
    sender = sender;
    publisher = publisher;
    event_sink = event_sink;
  }

  -- `Anywise.__init__`, among the guard objects of `store`
  unfoldable pub new_anywise :
      List (MessageRegistry D)
      → Option D
      → Option (V → Exec W (Unit {0}))
      → SendStrategy V W
      → PublishStrategy V W
      → Store (Env V W) V Callable
      → Result (Unit {0}) × Anywise V W D
  new_anywise registries graph event_sink sender publisher store =
      (include registries >> on_graph dg.register_singleton)
        (unfilled graph event_sink sender publisher store)

  unfoldable pub reset_graph : Exec (Anywise V W D) (Unit {0})
  reset_graph = on_graph λ d. (ok tt, dg.reset d)

  unfoldable pub inspect : Anywise V W D → Inspect
  inspect aw = record {
    hm = some aw.system.managers.handlers;
    lm = some aw.system.managers.listeners;
  }

  -- `Anywise.scope`
  unfoldable pub scope : Option ℕ → Exec (Anywise V W D) ℕ
  scope name = on_graph λ d. let (s, d') = dg.scope name d in (ok s, d')

  -- `if scope is None: scope = await self._dg.scope("message").__aenter__()`
  unfoldable pub in_scope : Option ℕ → Exec (Anywise V W D) ℕ
  unfolding scope
  in_scope none = scope (some message_scope) >>= λ s. on_graph (dg.aenter s)
  in_scope (some s) = pure s

  module _ (perform : Callable → Callback (Env V W) V) (depth : ℕ) where
    abbrev pub send_scoped :
        Message V
        → Option (Context V)
        → W
        → Result ℕ × Anywise V W D
        → (Result V × Env V W) × Anywise V W D
    send_scoped msg context w (ok s, aw) =
        let (out, sys) =
          Dispatch.send (dg.resolve s) perform depth aw.sender msg context w aw.system in
        (out, record aw { system = sys })
    send_scoped msg context w (err e, aw) =
        ((err e, record { context = given_or (dict []) context; world = w }), aw)

    -- `Anywise.send`
    unfoldable pub send :
        Message V
        → Option (Context V)
        → Option ℕ
        → W
        → Anywise V W D
        → (Result V × Env V W) × Anywise V W D
    send msg context scope w aw = send_scoped msg context w (in_scope scope aw)

    abbrev pub publish_scoped :
        Message V
        → Option (Context V)
        → W
        → Result ℕ × Anywise V W D
        → (Result (Unit {0}) × Env V W) × Anywise V W D
    publish_scoped msg context w (ok s, aw) =
        let (out, sys) =
          Dispatch.publish (dg.resolve s) perform depth aw.publisher msg context w aw.system in
        (out, record aw { system = sys })
    publish_scoped msg context w (err e, aw) =
        ((err e, record { context = given_or (dict []) context; world = w }), aw)

    -- `Anywise.publish`
    unfoldable pub publish :
        Message V
        → Option (Context V)
        → Option ℕ
        → W
        → Anywise V W D
        → (Result (Unit {0}) × Env V W) × Anywise V W D
    publish msg context scope w aw = publish_scoped msg context w (in_scope scope aw)

  -- `Anywise.sink`
  unfoldable pub sink : Anywise V W D → V → Exec W (Unit {0})
  sink aw event = anywise_sink aw.event_sink event
