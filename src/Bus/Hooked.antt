-- ===== src/Bus/Hooked.antt =====
-- A whole program with hooks: what a registry holds after handlers, pre-hooks and post-hooks have been
-- registered in it.
pub mod Send
pub mod Publish
use anywise.Common.{
  ℕ, suc, ◌+◌, ◌≤◌, false, ◌≡◌, refl, sym, ap, subst, ◌∙◌, Option, none, some, List, [], ◌∷◌, ◌++◌,
  map, arith, All, length, IsDistinct, Bool-cases, inl, inr,
}
use mathlib.Core.List.{append-nil}
use anywise.Common.Dict.{Dict, keys, lookup, get_list, or_else}
use anywise.Errors.{ok}
use anywise.Exec.{Exec, ◌>>=◌}
use anywise.Classes.{ClassTable, IsClassTable}
use anywise.Metas.{Function}
use anywise.Registry
use anywise.Registry.{Registry, GuardMeta, function, init, register}
use anywise.Registry.Mixed.{handler_of, listeners_of, takes, IsAnnotated}
use anywise.Registry.Sorted.{Role, IsSorted, last_taking, all_taking}
use anywise.Registry.Hooked.{
  Hook, hook_before, hook_after, taking, taking_none, AreHooked, AreHooked-nil,
}
use anywise.Registry.Hooked.Hangs.{all_hooks}
use anywise.Registry.Hooked.Register.{register_hooked}
use anywise.Registry.Invariant.{init-IsValid}
use anywise.Registry.Invariant.Methods.{register-IsValid}
use anywise.Manager.{any_type, object_type, no_managers, command_guards}
use anywise.Manager.Include.{
  is_global, global_metas, get_list_absent, HasDicts, lookup-include, command_guards-include,
}
use anywise.Callable.{Callable, invoke, message, context}
use anywise.Callable.Calls.{resolve_meta_function}
use anywise.Guard.{Message, Callback, Store}
use anywise.Dispatch.{Env, SendStrategy, PublishStrategy}
use anywise.Dispatch.Hooks.{takers, IsMade, befores, afters, send_hooked}
use anywise.Dispatch.Hooks.Compose.{compose_hooked}
use anywise.Bus.{Graph, Anywise, new_anywise, in_scope, send}
use anywise.Bus.Including.{new-Included}
use anywise.Bus.Program.{IsValid-HasDicts, meta_of}

global_metas_none :
    (d : Dict (List GuardMeta))
    → IsDistinct (keys d)
    → get_list any_type d ≡ []
    → get_list object_type d ≡ []
    → global_metas d ≡ []
global_metas_none [] h any object = refl
global_metas_none ((k, metas) ∷ d) h any object =
    ground
      (arith, global_metas_none d h.1, get_list_absent any_type d, get_list_absent object_type d)

pub length-taking :
    (t : ClassTable) (e : ℕ) (hook : Function → Hook) (fs : List Function)
    → length (taking t e hook fs) ≤ length fs
length-taking t e hook [] = omega arith
length-taking t e hook (f ∷ fs) = elim (Bool-cases (takes t f e)) [
  | inl is ↦ let rec = length-taking t e hook fs in rw is (omega (arith, rec))
  | inr isnt ↦ let rec = length-taking t e hook fs in rw isnt (omega (arith, rec))
]

pub length_append : (hs hs' : List Hook) → length (hs ++ hs') ≡ length hs + length hs'
length_append [] hs' = omega arith
length_append (h ∷ hs) hs' = omega (arith, length_append hs hs')

-- A hook: the annotation of its first parameter names classes only, and neither `Any` nor `object`
-- is among those that it takes.
abbrev pub IsHook : ClassTable → Function → Type 0
IsHook t f = IsAnnotated t f × (takes t f any_type ≡ false) × (takes t f object_type ≡ false)

All-map :
    {A : Type 0} (P Q : A → Type 0) (xs : List A) → ((x : A) → P x → Q x) → All P xs → All Q xs
All-map P Q [] f h = tt
All-map P Q (x ∷ xs) f (first, h) = (f x first, All-map P Q xs f h)

module _ (t : ClassTable) (command_base event_base fresh : ℕ) (fs : List (Role × Function))
    (pres posts : List Function) (table : IsClassTable t)
    (sorted : All (IsSorted t command_base event_base) fs) (are_pres : All (IsHook t) pres)
    (are_posts : All (IsHook t) posts) where
  -- The registry with both bases, after the functions and the hooks have been registered.
  abbrev pub with_hooks : Registry
  with_hooks =
      (register t (map (λ (role, f). function f) fs) (map function pres) (map function posts)
        (init (some command_base) (some event_base) fresh)).1

  pub with_hooks-HasDicts : HasDicts with_hooks
  with_hooks-HasDicts = IsValid-HasDicts t with_hooks (
      register-IsValid t (map (λ (role, f). function f) fs) (map function pres) (map function posts)
        (init (some command_base) (some event_base) fresh)
        (init-IsValid t (some command_base) (some event_base) fresh))

  annotated : (hs : List Function) → All (IsHook t) hs → All (IsAnnotated t) hs
  annotated hs h = All-map (IsHook t) (IsAnnotated t) hs (λ f is. is.0) h

  pub with_hooks-handler : (e : ℕ) → handler_of e with_hooks ≡ last_taking t e fs none
  unfolding init
  with_hooks-handler e =
      (register_hooked t command_base event_base fs pres posts
          (init (some command_base) (some event_base) fresh) table sorted (annotated pres are_pres)
          (annotated posts are_posts) refl refl
          (register t (map (λ (role, f). function f) fs) (map function pres) (map function posts)
            (init (some command_base) (some event_base) fresh))
          refl).1
        e

  pub with_hooks-listeners : (e : ℕ) → listeners_of e with_hooks ≡ all_taking t e fs
  unfolding init
  with_hooks-listeners e =
      (register_hooked t command_base event_base fs pres posts
          (init (some command_base) (some event_base) fresh) table sorted (annotated pres are_pres)
          (annotated posts are_posts) refl refl
          (register t (map (λ (role, f). function f) fs) (map function pres) (map function posts)
            (init (some command_base) (some event_base) fresh))
          refl).2
        e

  pub with_hooks-guards :
      (e : ℕ)
      → (lo : ℕ) × AreHooked e
          (all_hooks t e pres posts)
          lo
          (get_list e with_hooks.guard_mapping)
          with_hooks.fresh
  unfolding init
  with_hooks-guards e =
      let (metas, lo, guards, hooked) =
        (register_hooked t command_base event_base fs pres posts
            (init (some command_base) (some event_base) fresh) table sorted
            (annotated pres are_pres) (annotated posts are_posts) refl refl
            (register t (map (λ (role, f). function f) fs) (map function pres) (map function posts)
              (init (some command_base) (some event_base) fresh))
            refl).3
          e in
      (
        lo,
        subst (λ ms. AreHooked e (all_hooks t e pres posts) lo ms with_hooks.fresh) (sym guards)
            hooked,
      )

  unhooked :
      (e : ℕ)
      → All (λ f. takes t f e ≡ false) pres
      → All (λ f. takes t f e ≡ false) posts
      → get_list e with_hooks.guard_mapping ≡ []
  unhooked e no_pres no_posts =
      let (lo, hooked) = with_hooks-guards e in
      AreHooked-nil e lo with_hooks.fresh (get_list e with_hooks.guard_mapping) (
        subst (λ hs. AreHooked e hs lo (get_list e with_hooks.guard_mapping) with_hooks.fresh)
          (ap (λ l. l ++ taking t e hook_after posts) (taking_none t e hook_before pres no_pres)
            ∙ taking_none t e hook_after posts no_posts)
          hooked)

  pub with_hooks-global : global_metas with_hooks.guard_mapping ≡ []
  with_hooks-global =
      let any : (hs : List Function)
          → All (IsHook t) hs
          → All (λ f. takes t f any_type ≡ false) hs =
        λ hs h. All-map (IsHook t) (λ f. takes t f any_type ≡ false) hs (λ f is. is.1) h in
      let object : (hs : List Function)
          → All (IsHook t) hs
          → All (λ f. takes t f object_type ≡ false) hs =
        λ hs h. All-map (IsHook t) (λ f. takes t f object_type ≡ false) hs (λ f is. is.2) h in
      global_metas_none with_hooks.guard_mapping (with_hooks-HasDicts.2)
        (unhooked any_type (any pres are_pres) (any posts are_posts))
        (unhooked object_type (object pres are_pres) (object posts are_posts))
