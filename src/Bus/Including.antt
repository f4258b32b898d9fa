-- ===== src/Bus/Including.antt =====
-- From the registries that an `Anywise` is made of to the handler that a command is sent to.
use anywise.Common.{
  ℕ, ◌+◌, ◌≤◌, false, ◌≡◌, refl, sym, ap, subst, ◌∙◌, Option, none, some, List, [], ◌∷◌, ◌++◌, map,
  arith, All, length, IsDistinct, inl, inr,
}
use anywise.Common.Dict.{lookup, get_list}
use anywise.Errors.{Result, ok, err, Result-cases}
use anywise.Exec.{Exec, skip, continue, ◌>>◌}
use anywise.Metas.{FuncMeta}
use anywise.Registry.{Registry}
use anywise.Manager
use anywise.Manager.{Managers, no_managers, include_registry, command_guards}
use anywise.Manager.Include.{
  is_global, HasDicts, latest, concat, global_metas, lookup-include, command_guards-include,
}
use anywise.Callable.{Callable, resolve_meta}
use anywise.Guard.{Message, Callback, Store, compose}
use anywise.Dispatch
use anywise.Dispatch.{Context, Env, Objects, System, SendStrategy, PublishStrategy, resolve_guards}
use anywise.Dispatch.Send.{send_in_order}
use anywise.Bus.{
  Graph, MessageRegistry, Anywise, include, include_mappings, on_graph, new_anywise, unfilled,
  in_scope, send,
}

module _ {V W D : Type 0} (dg : Graph (Env V W) V D) where
  abbrev pub mappings_of : List (MessageRegistry D) → List Registry
  mappings_of = map (λ (reg : MessageRegistry D). reg.mappings)

  -- The merges of the graphs of registries, one after the other.
  abbrev pub merge_all : List (MessageRegistry D) → Exec D (Unit {0})
  merge_all [] = skip
  merge_all (reg ∷ regs) = dg.merge reg.graph >> merge_all regs

  -- The call of ididi that comes next: the merge of the first graph that is left, or the analysis.
  abbrev pub next_call : List (MessageRegistry D) → Exec D (Unit {0})
  next_call [] = dg.analyze_nodes
  next_call (reg ∷ regs) = dg.merge reg.graph

  -- The mappings of the registries have been added in their order, and the strategies stay.
  abbrev pub Included : List (MessageRegistry D) → Anywise V W D → Anywise V W D → Type 0
  Included regs old aw =
      (aw.system.managers ≡ Manager.include (mappings_of regs) old.system.managers)
      × (aw.sender ≡ old.sender)
      × (aw.publisher ≡ old.publisher)

  -- What `include` does on every outcome: all graphs have been merged and analysed and all mappings
  -- added; or a call of ididi has raised, and exactly the registries in front have been merged and
  -- their mappings added.
  abbrev pub Includes :
      List (MessageRegistry D) → Anywise V W D → Result (Unit {0}) × Anywise V W D → Type 0
  Includes regs old (ok done, aw) =
      (d : D) × (merge_all regs old.system.objects.container ≡ (ok tt, d))
      × (dg.analyze_nodes d ≡ (ok tt, aw.system.objects.container))
      × Included regs old aw
  Includes regs old (err e, aw) =
      (before behind : List (MessageRegistry D)) × (d : D) × (regs ≡ before ++ behind)
      × (merge_all before old.system.objects.container ≡ (ok tt, d))
      × (next_call behind d ≡ (err e, aw.system.objects.container))
      × Included before old aw

  -- The bus after a merge that came to the graph `d`, and the mappings of its registry.
  abbrev merged : MessageRegistry D → D → Anywise V W D → Anywise V W D
  merged reg d aw = include_mappings dg reg.mappings (on_graph dg (λ _. (ok tt, d)) aw).1

  Includes-cons :
      (reg : MessageRegistry D) (regs : List (MessageRegistry D)) (d : D) (old : Anywise V W D)
      (r : Result (Unit {0}) × Anywise V W D)
      → dg.merge reg.graph old.system.objects.container ≡ (ok tt, d)
      → Includes regs (merged reg d old) r
      → Includes (reg ∷ regs) old r
  unfolding Manager.include
  Includes-cons reg regs d old (ok done, aw) merges (d', merged', analysed, h) =
      (d', ap (λ r. continue r.0 (λ _. merge_all regs) r.1) merges ∙ merged', analysed, h)
  Includes-cons reg regs d old (err e, aw) merges (before, behind, d', e', merged', stops, h) = (
    reg ∷ before,
    behind,
    d',
    ap (◌∷◌ reg) e',
    ap (λ r. continue r.0 (λ _. merge_all before) r.1) merges ∙ merged',
    stops,
    h,
  )

  -- `include` returns after all graphs have been merged and the whole analysed, with the mappings
  -- of all registries added in their order; or it raises what ididi raised, at the merge of the
  -- graph of a registry, where exactly the registries in front of it had been merged and their
  -- mappings added, or at the analysis of the whole graph, after all. The strategies stay.
  pub include-Includes :
      (regs : List (MessageRegistry D)) (aw : Anywise V W D) → Includes regs aw (include dg regs aw)
  unfolding include Manager.include
  include-Includes [] aw =
      let m = dg.analyze_nodes aw.system.objects.container in
      elim (Result-cases m.0) [
        | inl (done, e) ↦
            rw e (aw.system.objects.container, refl, (λ i. (e i, m.1)), (refl, refl, refl))
        | inr (x, e) ↦
            rw e (
              [],
              [],
              aw.system.objects.container,
              refl,
              refl,
              (λ i. (e i, m.1)),
              (refl, refl, refl),
            )
      ]
  include-Includes (reg ∷ regs) aw =
      let m = dg.merge reg.graph aw.system.objects.container in
      elim (Result-cases m.0) [
        | inl (done, e) ↦
            let aw' = merged reg m.1 aw in
            rw e (
              Includes-cons reg regs m.1 aw (include dg regs aw') (λ i. (e i, m.1))
                (include-Includes regs aw'))
        | inr (x, e) ↦ rw e (
          [],
          reg ∷ regs,
          aw.system.objects.container,
          refl,
          refl,
          (λ i. (e i, m.1)),
          (refl, refl, refl),
        )
      ]

  singleton-Included :
      (regs : List (MessageRegistry D)) (old aw : Anywise V W D)
      (r : Result (Unit {0}) × Anywise V W D)
      → Includes regs old r
      → continue r.0 (λ _. on_graph dg dg.register_singleton) r.1 ≡ (ok tt, aw)
      → Included regs old aw
  singleton-Included regs old aw (ok done, aw') (d, merges, analysed, (h, sender, publisher)) e = (
    sym (ap (λ r. r.1.system.managers) e) ∙ h,
    sym (ap (λ r. r.1.sender) e) ∙ sender,
    sym (ap (λ r. r.1.publisher) e) ∙ publisher,
  )
  singleton-Included regs old aw (err x, aw') h e = absurd (ground (arith, ap (λ r. r.0) e))

  module _ (perform : Callable → Callback (Env V W) V) (depth : ℕ) (regs : List (MessageRegistry D))
      (graph : Option D) (event_sink : Option (V → Exec W (Unit {0}))) (sender : SendStrategy V W)
      (publisher : PublishStrategy V W) (store : Store (Env V W) V Callable) (aw : Anywise V W D)
      (made : new_anywise dg regs graph event_sink sender publisher store ≡ (ok tt, aw)) where
    pub new-Included : Included regs (unfilled dg graph event_sink sender publisher store) aw
    unfolding new_anywise
    new-Included =
        let old = unfilled dg graph event_sink sender publisher store in
        singleton-Included regs old aw (include dg regs old) (include-Includes regs old) made

    -- Let an `Anywise` be made of registries whose dicts have each key once. A command of a type
    -- other than `Any` and `object`, sent in a scope that is given, has the handler of the last
    -- registry that has one for the type; if that resolves, and the global guards of the
    -- registries, and then those for the type, each in the order of the registries, resolve to
    -- distinct objects, at least one, then the strategy that the `Anywise` was made with is given
    -- the guards in this order around the handler, if the stack has room for the chain.
    pub new_anywise-send :
        (message : Message V) (context : Option (Context V)) (s : ℕ) (w : W) (meta : FuncMeta)
        (callable : Callable) (o o' : Objects (Env V W) V D) (g : ℕ) (gs : List ℕ)
        → is_global message.cls ≡ false
        → All HasDicts (mappings_of regs)
        → latest message.cls (mappings_of regs) none ≡ some meta
        → resolve_meta (dg.resolve s) meta aw.system.objects ≡ (ok callable, o)
        → resolve_guards
            (dg.resolve s)
            (concat (λ r. global_metas r.guard_mapping) (mappings_of regs)
              ++ concat (λ r. get_list message.cls r.guard_mapping) (mappings_of regs))
            o
          ≡ (ok (g ∷ gs), o')
        → length gs + 2 ≤ depth
        → IsDistinct (g ∷ gs)
        → (send dg perform depth message context (some s) w aw).0
          ≡ sender message context (compose perform o'.store.kind (g ∷ gs) callable) w
    unfolding send in_scope
    new_anywise-send message context s w meta callable o o' g gs specific dicts handled resolved
          guarded enough distinct =
        let (managers, same, publisher') = new-Included in
        subst
          (λ sender'.
            (Dispatch.send (dg.resolve s) perform depth aw.sender message context w aw.system).0
            ≡ sender' message context (compose perform o'.store.kind (g ∷ gs) callable) w)
          same
          (send_in_order (dg.resolve s) perform depth aw.sender message context w aw.system meta
            callable o
            (ap (λ ms. lookup message.cls ms.handlers.handler_metas) managers
              ∙ lookup-include message.cls (mappings_of regs) no_managers dicts
              ∙ handled)
            resolved g gs o'
            (ap (λ metas. resolve_guards (dg.resolve s) metas o)
                (ap (λ ms. command_guards message.cls ms.handlers) managers
                  ∙ command_guards-include message.cls (mappings_of regs) no_managers specific
                      dicts)
              ∙ guarded)
            enough distinct)
