-- ===== src/Registry/Hooked/Hangs.antt =====
-- `pre_handle` and `post_handle` of anywise/registry.py, one after the other, for one message type.
use anywise.Common.{
  ℕ, suc, ◌≤◌, true, false, ◌≡◌, refl, sym, ap, ◌∙◌, Option, none, some, List, [], ◌∷◌, ◌++◌, map,
  arith, All, inl, inr, Bool-cases, if◌then◌else◌,
}
use mathlib.Core.List.{append-nil, append_assoc}
use anywise.Common.Dict.{get_list}
use anywise.Errors.{Result, ok, err}
use anywise.Exec.{Exec, lift, modify, ◌>>=◌, ◌>>◌}
use anywise.Classes.{ClassTable, IsClassTable}
use anywise.Visitor.{Annotation}
use anywise.Visitor.Gather.{accepts, fault}
use anywise.Metas.{Function}
use anywise.Registry.{
  Target, function, GuardMeta, instance_of, Registry, append_guard, add_hooks, get_guardtarget,
  pre_handle, post_handle, for_each,
}
use anywise.Registry.Guards.{meta_of, Hooks, Hooks-function}
use anywise.Registry.Mixed.{takes, IsAnnotated}
use anywise.Registry.Hooked.{Hook, hook_before, hook_after, taking, AreHooked, AreHooked-append}

-- What else hooks change.
abbrev Stays : Registry → Registry → Type 0
Stays reg reg' =
    (reg'.command_mapping ≡ reg.command_mapping)
    × (reg'.event_mapping ≡ reg.event_mapping)
    × (reg.fresh ≤ reg'.fresh)

add_hooks-Stays :
    (pre post : Option Target) (types : List ℕ) (reg : Registry)
    → Stays reg (add_hooks pre post types reg)
unfolding add_hooks
add_hooks-Stays pre post [] reg = (refl, refl, omega arith)
add_hooks-Stays pre post (c ∷ types) reg =
    let next =
      append_guard c (instance_of reg.fresh pre post) (record reg { fresh = suc reg.fresh }) in
    let (commands, events, le) = add_hooks-Stays pre post types next in
    (commands, events, omega arith)

hooks_of-Stays :
    (pre post : Option Target) (r : Result (List ℕ)) (reg : Registry)
    → Stays reg ((lift r >>= λ targets. modify (add_hooks pre post targets)) reg).1
hooks_of-Stays pre post (ok types) reg = add_hooks-Stays pre post types reg
hooks_of-Stays pre post (err x) reg = (refl, refl, omega arith)

module _ (t : ClassTable) (e : ℕ) where
  -- What registering hooks does to a registry and to the guards of the message type.
  pub record Hangs (hs : List Hook) (reg : Registry) (r : Result (Unit {0}) × Registry)
      : Type 0 where
    pub returns : r.0 ≡ ok tt
    pub commands : r.1.command_mapping ≡ reg.command_mapping
    pub events : r.1.event_mapping ≡ reg.event_mapping
    pub metas : List GuardMeta
    pub guards : get_list e r.1.guard_mapping ≡ get_list e reg.guard_mapping ++ metas
    pub hooked : AreHooked e hs reg.fresh metas r.1.fresh

  Hangs-one :
      (f : Function) (pre post : Option Target) (msg : Annotation) (rest : List Annotation)
      (reg : Registry) (r : Result (Unit {0}) × Registry)
      → f.params ≡ msg ∷ rest
      → fault t msg ≡ none
      → Stays reg r.1
      → Hooks t msg rest reg pre post r
      → Hangs (if takes t f e then (pre, post) ∷ [] else []) reg r
  Hangs-one f pre post msg rest reg (err x, reg') params plain stays (same, broken) =
      absurd (ground (arith, plain, broken))
  Hangs-one f pre post msg rest reg (ok done, reg') params plain (commands, events, le)
        (object_of, lists, bounds, apart) =
      elim (Bool-cases (takes t f e)) [
        | inl is ↦
            let it : accepts t msg e ≡ true = rw params at is in
            let (from, to) = bounds e it in
            rw is (record {
              returns = refl;
              commands = commands;
              events = events;
              metas = meta_of e (instance_of (object_of e) pre post) ∷ [];
              guards = lists e ∙ rw it refl;
              hooked = (object_of e, refl, from, omega arith);
            })
        | inr isnt ↦
            let it : accepts t msg e ≡ false = rw params at isnt in
            rw isnt (record {
              returns = refl;
              commands = commands;
              events = events;
              metas = [];
              guards = lists e ∙ rw it (sym (append-nil (get_list e reg.guard_mapping)));
              hooked = le;
            })
      ]

  Hangs-nil : (reg : Registry) → Hangs [] reg (ok tt, reg)
  Hangs-nil reg = record {
    returns = refl;
    commands = refl;
    events = refl;
    metas = [];
    guards = sym (append-nil (get_list e reg.guard_mapping));
    hooked = omega arith;
  }

  -- One registration after the other.
  pub Hangs-append :
      (hs hs' : List Hook) (reg : Registry) (r r' : Result (Unit {0}) × Registry)
      → Hangs hs reg r
      → Hangs hs' r.1 r'
      → Hangs (hs ++ hs') reg r'
  Hangs-append hs hs' reg r r' a b = record {
    returns = b.returns;
    commands = b.commands ∙ a.commands;
    events = b.events ∙ a.events;
    metas = a.metas ++ b.metas;
    guards =
        b.guards
        ∙ ap (λ l. l ++ b.metas) a.guards
        ∙ append_assoc (get_list e reg.guard_mapping) a.metas b.metas;
    hooked =
        AreHooked-append e hs hs' reg.fresh r.1.fresh r'.1.fresh a.metas b.metas a.hooked b.hooked;
  }

  Hangs-all :
      (handle : Target → Exec Registry (Unit {0})) (hook : Function → Hook)
      → ((f : Function) (reg : Registry)
          → IsAnnotated t f
          → Hangs (if takes t f e then hook f ∷ [] else []) reg (handle (function f) reg))
      → (fs : List Function) (reg : Registry) → All (IsAnnotated t) fs
      → Hangs (taking t e hook fs) reg (for_each handle (map function fs) reg)
  unfolding for_each
  Hangs-all handle hook each [] reg annotated = Hangs-nil reg
  Hangs-all handle hook each (f ∷ fs) reg (first, annotated) =
      let r = handle (function f) reg in
      let one = each f reg first in
      rw (one.returns) (
        Hangs-append (if takes t f e then hook f ∷ [] else []) (taking t e hook fs) reg r
          (for_each handle (map function fs) r.1) one (Hangs-all handle hook each fs r.1 annotated))

  pre_handle-Hangs :
      IsClassTable t
      → (f : Function) (reg : Registry) → IsAnnotated t f
      → Hangs (if takes t f e then hook_before f ∷ [] else []) reg (pre_handle t (function f) reg)
  unfolding pre_handle
  pre_handle-Hangs v f reg (msg, rest, params, plain) =
      Hangs-one f (some (function f)) none msg rest reg (pre_handle t (function f) reg) params plain
        (hooks_of-Stays (some (function f)) none (get_guardtarget t (function f)) reg)
        (Hooks-function t msg rest reg f v params).0

  post_handle-Hangs :
      IsClassTable t
      → (f : Function) (reg : Registry) → IsAnnotated t f
      → Hangs (if takes t f e then hook_after f ∷ [] else []) reg (post_handle t (function f) reg)
  unfolding post_handle
  post_handle-Hangs v f reg (msg, rest, params, plain) =
      Hangs-one f none (some (function f)) msg rest reg (post_handle t (function f) reg) params
        plain (hooks_of-Stays none (some (function f)) (get_guardtarget t (function f)) reg)
        (Hooks-function t msg rest reg f v params).1

  -- The hooks of the functions for one message type: the pre-hooks, then the post-hooks.
  abbrev pub all_hooks : List Function → List Function → List Hook
  all_hooks pres posts = taking t e hook_before pres ++ taking t e hook_after posts

  -- The hooks of a registration, behind the handlers.
  pub hooks-Hangs :
      IsClassTable t
      → (pres posts : List Function) (reg : Registry) → All (IsAnnotated t) pres
      → All (IsAnnotated t) posts
      → Hangs (all_hooks pres posts) reg (
          (for_each (pre_handle t) (map function pres)
              >> for_each (post_handle t) (map function posts))
            reg)
  hooks-Hangs v pres posts reg before after =
      let r = for_each (pre_handle t) (map function pres) reg in
      let first = Hangs-all (pre_handle t) hook_before (pre_handle-Hangs v) pres reg before in
      rw (first.returns) (
        Hangs-append (taking t e hook_before pres) (taking t e hook_after posts) reg r
          (for_each (post_handle t) (map function posts) r.1) first
          (Hangs-all (post_handle t) hook_after (post_handle-Hangs v) posts r.1 after))
