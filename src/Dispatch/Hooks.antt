-- ===== src/Dispatch/Hooks.antt =====
-- The guards that the hooks of a registry make, when a command is sent: they are resolved, and
-- called around the handler.
pub mod Compose
use anywise.Common.{
  ℕ, suc, ◌+◌, ◌≤◌, ◌<◌, Bool, true, false, ◌≡◌, refl, ap, sym, subst, ◌∙◌, fun_ext, Option, none,
  some, List, [], ◌∷◌, ◌++◌, arith, length, contains, IsDistinct, All, inl, inr, Bool-cases,
  if◌then◌else◌,
}
use anywise.Errors.{ok}
use anywise.Exec.{Exec, pure, ◌>>=◌, ◌>>◌}
use anywise.Classes.{ClassTable}
use anywise.Registry
use anywise.Registry.{GuardRef, instance_of, guard_class, GuardMeta}
use anywise.Registry.Guards.{meta_of}
use anywise.Registry.Mixed.{takes}
use anywise.Registry.Hooked.{Hook, hook_before, hook_after, taking, AreHooked}
use anywise.Guard.{Message, Callback, Kind, base, custom, hooks, run_pre, run_post, compose}
use anywise.Guard.Laws.{run_pres, run_posts, compose-hooks, bind-pure, pre-ap, pres-ap}
use anywise.Common.Dict.{Dict, lookup}
use anywise.Metas.{Function, FuncMeta}
use anywise.Manager.{command_guards}
use anywise.Callable.{Callable, resolve_meta}
use anywise.Dispatch.{
  Context, Env, Objects, System, SendStrategy, resolve_guards, resolve_guard, send,
}
use anywise.Dispatch.Send.{send_unguarded, send_in_order}

above-absent : (g : ℕ) (gs : List ℕ) → All (λ x. g < x) gs → contains g gs ≡ false
above-absent g [] h = refl
above-absent g (x ∷ gs) (lt, h) = ground (arith, above-absent g gs h)

above_le : (lo lo' : ℕ) (gs : List ℕ) → lo < lo' → All (λ x. lo' ≤ x) gs → All (λ x. lo < x) gs
above_le lo lo' [] lt h = tt
above_le lo lo' (x ∷ gs) lt (le, h) = (omega arith, above_le lo lo' gs lt h)

from_le : (lo lo' : ℕ) (gs : List ℕ) → lo ≤ lo' → All (λ x. lo' ≤ x) gs → All (λ x. lo ≤ x) gs
from_le lo lo' [] lt h = tt
from_le lo lo' (x ∷ gs) lt (le, h) = (omega arith, from_le lo lo' gs lt h)

-- The functions that take the message type, in their order.
abbrev pub takers : ClassTable → ℕ → List Function → List Function
takers t e [] = []
takers t e (f ∷ fs) = (if takes t f e then f ∷ [] else []) ++ takers t e fs

-- `before` calls a pre-hook and `after` a post-hook.
module _ {S V : Type 0} (before : Registry.Target → Callback S V)
    (after : Registry.Target → Message V → V → Exec S V) where
  abbrev pub hook_pre : Option Registry.Target → Option (Callback S V)
  hook_pre none = none
  hook_pre (some f) = some (before f)

  abbrev pub hook_post : Option Registry.Target → Option (Message V → V → Exec S V)
  hook_post none = none
  hook_post (some f) = some (after f)

  -- The guard of a meta has been made by `Guard(pre_handle=…, post_handle=…)`, if it is an object.
  abbrev pub IsMade : (ℕ → Kind S V) → GuardRef → Type 0
  IsMade kind (instance_of o pre post) = kind o ≡ hooks (hook_pre pre) (hook_post post)
  IsMade kind (guard_class c) = Unit

  -- The pre-hooks in their order, and then the rest.
  abbrev pub befores : List Function → Callback S V → Callback S V
  befores [] rest message = rest message
  befores (f ∷ fs) rest message = before (Registry.function f) message >> befores fs rest message

  -- The post-hooks, the last one first, each on the response of the one before it.
  abbrev pub afters : List Function → Message V → V → Exec S V
  afters [] message response = pure response
  afters (f ∷ fs) message response =
      afters fs message response >>= after (Registry.function f) message

  -- Each object is a `Guard` with its hook.
  abbrev pub AreKinds : (ℕ → Kind S V) → List Hook → List ℕ → Type 0
  AreKinds kind [] [] = Unit
  AreKinds kind [] (g ∷ gs) = ⊥
  AreKinds kind (h ∷ hs) [] = ⊥
  AreKinds kind ((pre, post) ∷ hs) (g ∷ gs) =
      (kind g ≡ hooks (hook_pre pre) (hook_post post)) × AreKinds kind hs gs

  -- The metas that hooks have made resolve to distinct objects, and change nothing.
  pub hooked_guards :
      {D : Type 0} (resolve : ℕ → Exec (Objects S V D) ℕ) (kind : ℕ → Kind S V) (e : ℕ)
      (hs : List Hook) (lo : ℕ) (metas : List GuardMeta) (hi : ℕ)
      → AreHooked e hs lo metas hi
      → All (λ m. IsMade kind m.guard) metas
      → (gs : List ℕ) × ((o : Objects S V D) → resolve_guards resolve metas o ≡ (ok gs, o))
        × IsDistinct gs
        × All (λ x. lo ≤ x) gs
        × (length gs ≡ length hs)
        × AreKinds kind hs gs
  unfolding resolve_guards resolve_guard
  hooked_guards resolve kind e [] lo [] hi h made = ([], λ o. refl, tt, tt, refl, tt)
  hooked_guards resolve kind e [] lo (m ∷ metas) hi h made = absurd h
  hooked_guards resolve kind e (x ∷ hs) lo [] hi h made = absurd h
  hooked_guards resolve kind e ((pre, post) ∷ hs) lo (m ∷ metas) hi (g, is, from, rest)
        (first, made) =
      let (gs, resolved, distinct, above, count, kinds) =
        hooked_guards resolve kind e hs (suc g) metas hi rest made in
      (
        g ∷ gs,
        (λ o. rw (is, resolved o)),
        (above-absent g gs (above_le g (suc g) gs (omega arith) above), distinct),
        (from, from_le lo (suc g) gs (omega arith) above),
        ap suc count,
        (subst (λ m'. IsMade kind m'.guard) is first, kinds),
      )

module _ {V W D : Type 0} (before : Registry.Target → Callback (Env V W) V)
    (after : Registry.Target → Message V → V → Exec (Env V W) V)
    (resolve : ℕ → Exec (Objects (Env V W) V D) ℕ) (perform : Callable → Callback (Env V W) V)
    (sender : SendStrategy V W) (message : Message V) (context : Option (Context V)) (w : W)
    (sys : System (Env V W) V D) (meta : FuncMeta) (callable : Callable)
    (found : lookup message.cls sys.managers.handlers.handler_metas ≡ some meta)
    (resolved : resolve_meta resolve meta sys.objects ≡ (ok callable, sys.objects)) where
  send_distinct :
      (depth n : ℕ) (gs : List ℕ)
      → resolve_guards resolve (command_guards message.cls sys.managers.handlers) sys.objects
        ≡ (ok gs, sys.objects)
      → IsDistinct gs
      → length gs ≡ suc n
      → suc n ≤ depth
      → (send resolve perform (suc depth) sender message context w sys).0
        ≡ sender message context (compose perform sys.objects.store.kind gs callable) w
  send_distinct depth n [] guarded distinct count enough = absurd (omega (arith, count))
  send_distinct depth n (g ∷ gs) guarded distinct count enough =
      send_in_order resolve perform (suc depth) sender message context w sys meta callable
        sys.objects found resolved g gs sys.objects guarded (omega (arith, count, enough)) distinct

  -- A command whose guards are those that hooks have made.
  pub send_hooked :
      (depth e : ℕ) (hs : List Hook) (lo : ℕ) (metas : List GuardMeta) (hi : ℕ)
      → command_guards message.cls sys.managers.handlers ≡ metas
      → AreHooked e hs lo metas hi
      → All (λ m. IsMade before after sys.objects.store.kind m.guard) metas
      → length hs ≤ depth
      → (gs : List ℕ) × AreKinds before after sys.objects.store.kind hs gs
        × ((send resolve perform (suc depth) sender message context w sys).0
            ≡ sender message context (compose perform sys.objects.store.kind gs callable) w)
  unfolding compose
  send_hooked depth e [] lo [] hi unguarded h made enough = (
    [],
    tt,
    send_unguarded resolve perform depth sender message context w sys meta callable sys.objects
        found resolved unguarded,
  )
  send_hooked depth e [] lo (m ∷ metas) hi guarded h made enough = absurd h
  send_hooked depth e (x ∷ hs) lo [] hi guarded h made enough = absurd h
  send_hooked depth e (x ∷ hs) lo (m ∷ metas) hi guarded h made enough =
      let (gs, all_resolved, distinct, above, count, kinds) =
        hooked_guards before after resolve sys.objects.store.kind e (x ∷ hs) lo (m ∷ metas) hi h
          made in
      (
        gs,
        kinds,
        send_distinct depth (length hs) gs
            (ap (λ ms. resolve_guards resolve ms sys.objects) guarded ∙ all_resolved sys.objects)
            distinct count enough,
      )
