-- ===== src/Tests/Hooked.antt =====
-- A program with hooks: two pre-hooks, of which one takes the command, and two post-hooks.
use anywise.Common.{
  ℕ, ◌≡◌, refl, sym, subst, none, some, List, [], ◌∷◌, ◌++◌, map, arith, All, ◌==◌, if◌then◌else◌,
  true,
}
use anywise.Common.Dict.{get_list}
use anywise.Errors.{Result, ok, is_register_fail}
use anywise.Exec.{Exec, ◌>>=◌}
use anywise.Classes.{issubclass, subclasses}
use anywise.Visitor.{cls, gather_types, all_subclasses, all_subclasses_from}
use anywise.Visitor.Gather.{accepts, fault}
use anywise.Metas.{Function, get_funcmetas, check_types, is_contextparam}
use anywise.Registry
use anywise.Registry.{Registry, instance_of, init, register, function, class, object}
use anywise.Registry.Guards.{meta_of}
use anywise.Registry.Mixed.{IsAnnotated, handler_of, listeners_of}
use anywise.Registry.Sorted.{last_taking, all_taking}
use anywise.Registry.Hooked.{AreHooked}
use anywise.Registry.Hooked.Hangs.{all_hooks}
use anywise.Registry.Hooked.Register.{register_hooked}
use anywise.Callable.{Callable, invoke, message, context}
use anywise.Guard.{Message, Callback, hooks, Store}
use anywise.Dispatch.{default_send, default_publish}
use anywise.Dispatch.Hooks.{befores, afters, IsMade}
use anywise.Bus.{Anywise, new_anywise, include, send, publish}
use anywise.Bus.Hooked.{IsHook, with_hooks}
use anywise.Bus.Hooked.Send.{hooked-send}
use anywise.Bus.Hooked.Publish.{hooked-publish}
use anywise.Bus.Program.{called}
use anywise.Tests.Sample.{
  table, table-IsClassTable, functions, functions-IsSorted, create_user_again, created, on_created,
  UserEnv, World, log, perform, create, supply,
}
use anywise.Tests.Bus.{graph}

-- `async def …(cmd: …)` and `async def …(cmd: …, response)`
abbrev hook : ℕ → ℕ → Function
hook ref c = record { ref = ref; params = cls c ∷ []; is_async = true }

abbrev pres : List Function
pres = hook 30 10 ∷ hook 31 12 ∷ []

abbrev posts : List Function
posts = hook 32 11 ∷ hook 33 10 ∷ []

pres-IsAnnotated : All (IsAnnotated table) pres
unfolding fault issubclass
pres-IsAnnotated = ((cls 10, [], refl, refl), ((cls 12, [], refl, refl), tt))

pres-IsHook : All (IsHook table) pres
unfolding fault accepts issubclass
pres-IsHook = (((cls 10, [], refl, refl), refl, refl), (((cls 12, [], refl, refl), refl, refl), tt))

posts-IsAnnotated : All (IsAnnotated table) posts
unfolding fault issubclass
posts-IsAnnotated = ((cls 11, [], refl, refl), ((cls 10, [], refl, refl), tt))

posts-IsHook : All (IsHook table) posts
unfolding fault accepts issubclass
posts-IsHook =
    (((cls 11, [], refl, refl), refl, refl), (((cls 10, [], refl, refl), refl, refl), tt))

abbrev registry : Registry
registry =
    with_hooks table 10 20 0 functions pres posts table-IsClassTable functions-IsSorted pres-IsHook
      posts-IsHook

abbrev ref_of : Registry.Target → ℕ
ref_of (function f) = f.ref
ref_of (class c) = c.ref
ref_of (object o) = o

abbrev before : Registry.Target → Callback UserEnv ℕ
before f = log (ref_of f)

abbrev after : Registry.Target → Message ℕ → ℕ → Exec UserEnv ℕ
after f m response = log (ref_of f) m

-- The objects 1, 4 and 6, with the hooks that the registry made them with.
abbrev made_guards : Store UserEnv ℕ Callable
made_guards = record {
  kind = λ o.
      if o == 1
      then hooks (some (before (function (hook 30 10)))) none
      else if o == 4
      then hooks none (some (after (function (hook 32 11))))
      else hooks none (some (after (function (hook 33 10))));
  next_guard = λ g. none;
}

abbrev program : Anywise ℕ World ℕ
program =
    (new_anywise graph (record { mappings = registry; graph = 0 } ∷ []) none none default_send
      default_publish made_guards).1

-- Of the seven objects that the hooks make, these three stand behind `CreateUser`.
hooked_guards :
    get_list 11 registry.guard_mapping
    ≡ meta_of 11 (instance_of 1 (some (function (hook 30 10))) none)
      ∷ meta_of 11 (instance_of 4 none (some (function (hook 32 11))))
      ∷ meta_of 11 (instance_of 6 none (some (function (hook 33 10))))
      ∷ []
unfolding register init Registry.for_each Registry.register_one Registry.register_target
    Registry.register_commandhandlers Registry.register_eventlisteners Registry.target_metas
    Registry.pre_handle Registry.post_handle Registry.get_guardtarget Registry.add_hooks
    Registry.append_listeners get_funcmetas check_types is_contextparam gather_types all_subclasses
    all_subclasses_from subclasses issubclass is_register_fail
hooked_guards = refl

hooked-send_example :
    (c : Callable) × ((send graph perform 9 create none (some 5) [] program).0
      ≡ default_send create none
          (befores before after
            (hook 30 10 ∷ [])
            λ m. perform c m >>= afters before after (hook 32 11 ∷ hook 33 10 ∷ []) m)
          [])
    × ((invoke supply c (message ∷ context ∷ [])).func ≡ create_user_again)
unfolding new_anywise include accepts issubclass
hooked-send_example =
    hooked-send table 10 20 0 functions pres posts table-IsClassTable functions-IsSorted pres-IsHook
      posts-IsHook supply before after graph perform 8 0 none none default_send default_publish
      made_guards program refl create none 5 [] create_user_again refl refl
      (subst (All (λ m. IsMade before after program.system.objects.store.kind m.guard))
        (sym hooked_guards) (refl, (refl, (refl, tt))))
      (omega arith)

hooked-publish_example :
    (cs : List Callable) × ((publish graph perform 9 created none (some 5) [] program).0
      ≡ default_publish created none (map perform cs) [])
    × (map (called supply) cs ≡ all_taking table 21 functions)
unfolding new_anywise include accepts issubclass
hooked-publish_example =
    hooked-publish table 10 20 0 functions pres posts table-IsClassTable functions-IsSorted
      pres-IsHook posts-IsHook supply graph perform 9 0 none none default_send default_publish
      made_guards program refl created none 5 [] (on_created, none) [] refl

abbrev both : Registry
both = init (some 10) (some 20) 0

abbrev outcome : Result (Unit {0}) × Registry
outcome =
    register table (map (λ (role, f). function f) functions) (map function pres)
      (map function posts) both

register_hooked_example :
    (outcome.0 ≡ ok tt)
    × ((e : ℕ) → handler_of e outcome.1 ≡ last_taking table e functions (handler_of e both))
    × ((e : ℕ) → listeners_of e outcome.1 ≡ listeners_of e both ++ all_taking table e functions)
    × ((e : ℕ)
        → (metas : List Registry.GuardMeta) × (lo : ℕ) × (get_list e outcome.1.guard_mapping
            ≡ get_list e both.guard_mapping ++ metas)
          × AreHooked e (all_hooks table e pres posts) lo metas outcome.1.fresh)
unfolding init
register_hooked_example =
    register_hooked table 10 20 functions pres posts both table-IsClassTable functions-IsSorted
      pres-IsAnnotated posts-IsAnnotated refl refl outcome refl
