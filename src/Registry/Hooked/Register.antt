-- ===== src/Registry/Hooked/Register.antt =====
-- `MessageRegistry.register` of anywise/registry.py, with handlers, pre-hooks and post-hooks.
use anywise.Common.{ℕ, ◌≡◌, ap, subst, ◌∙◌, none, some, List, ◌++◌, map, All}
use anywise.Common.Dict.{lookup, get_list}
use anywise.Errors.{Result, ok}
use anywise.Classes.{ClassTable, IsClassTable}
use anywise.Metas.{Function}
use anywise.Registry.{function, GuardMeta, Registry, for_each, register, register_one}
use anywise.Registry.Mixed.{IsAnnotated, owned, handler_of, listeners_of}
use anywise.Registry.Sorted.{Role, IsSorted, last_taking, all_taking, HasBases, Fills-all}
use anywise.Registry.Hooked.{AreHooked}
use anywise.Registry.Hooked.Hangs.{Hangs, all_hooks, hooks-Hangs}

-- All that a registration does for one message type.
module _ (t : ClassTable) (command_base event_base : ℕ) where
  -- In a table that defines each class once, after its bases, let a registry have a command and an
  -- event base, let each function that is registered as a handler fit one of them and not the
  -- other, and let the first parameter of every hook be annotated with classes only, of which none
  -- has a metaclass at or below it as `object` has. Then `register` returns; a command is handled
  -- by the last of the command handlers that take its type, or by what handled it before if there
  -- is none; an event has the listeners from before and then all that take its type, in the order
  -- of registration; and behind the guards that a type had before stand a new `Guard` object for
  -- each pre-hook that takes it and then one for each post-hook that does, each group in the order
  -- of registration and no two the same object.
  pub register_hooked :
      (fs : List (Role × Function)) (pres posts : List Function) (reg : Registry)
      → IsClassTable t
      → All (IsSorted t command_base event_base) fs
      → All (IsAnnotated t) pres
      → All (IsAnnotated t) posts
      → reg.command_base ≡ some command_base
      → reg.event_base ≡ some event_base
      → (r : Result (Unit {0}) × Registry)
      → register t (map (λ (role, f). function f) fs) (map function pres) (map function posts) reg
        ≡ r
      → (r.0 ≡ ok tt)
        × ((e : ℕ) → handler_of e r.1 ≡ last_taking t e fs (handler_of e reg))
        × ((e : ℕ) → listeners_of e r.1 ≡ listeners_of e reg ++ all_taking t e fs)
        × ((e : ℕ)
            → (metas : List GuardMeta) × (lo : ℕ) × (get_list e r.1.guard_mapping
                ≡ get_list e reg.guard_mapping ++ metas)
              × AreHooked e (all_hooks t e pres posts) lo metas r.1.fresh)
  unfolding register HasBases
  register_hooked fs pres posts reg v sorted before after c e r is =
      let handled = for_each (register_one t) (map (λ (role, f). function f) fs) reg in
      let filled = Fills-all t command_base event_base v fs reg sorted (c, e) in
      let hangs : (x : ℕ) → Hangs t x (all_hooks t x pres posts) handled.1 r = λ x.
        subst (Hangs t x (all_hooks t x pres posts) handled.1) is
          (rw (filled.returns) (hooks-Hangs t x v pres posts handled.1 before after)) in
      (
        (hangs 0).returns,
        (λ x.
            ap (λ d. elim (lookup x d) [ none ↦ none | some m ↦ some (owned m) ]) (hangs x).commands
            ∙ filled.handlers x),
        (λ x. ap (λ d. map owned (get_list x d)) (hangs x).events ∙ filled.listeners x),
        λ x. (
          (hangs x).metas,
          handled.1.fresh,
          (hangs x).guards ∙ ap (λ d. get_list x d ++ (hangs x).metas) filled.guards,
          (hangs x).hooked,
        ),
      )
