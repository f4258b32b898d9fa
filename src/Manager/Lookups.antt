-- ===== src/Manager/Lookups.antt =====
-- Looking up handlers, listeners and guards, through `Inspect` too.
use anywise.Common.{ℕ, ◌≡◌, refl, some, List, [], ◌∷◌, ◌++◌, map}
use anywise.Common.Dict.{get_list-touch}
use anywise.Registry.{GuardMeta}
use anywise.Manager.{HandlerManager, get_guards, command_guards, inspect_guards}

-- Reading the guards of one type stores an empty list in the `defaultdict`; no later read, of any
-- type, can tell.
pub command_guards-get_guards :
    (key e : ℕ) (hm : HandlerManager) → command_guards e (get_guards key hm).1 ≡ command_guards e hm
unfolding command_guards get_guards
command_guards-get_guards key e hm = rw get_list-touch

map-append_guards :
    (xs ys : List GuardMeta)
    → map (λ (m : GuardMeta). m.guard) (xs ++ ys)
      ≡ map (λ (m : GuardMeta). m.guard) xs ++ map (λ (m : GuardMeta). m.guard) ys
map-append_guards [] ys = refl
map-append_guards (x ∷ xs) ys = rw (map-append_guards xs ys)

-- `Inspect.guards` shows the guards that a send of the command goes through, in their order.
pub inspect_guards-command_guards :
    (key : ℕ) (hm : HandlerManager)
    → (inspect_guards key (some hm)).0 ≡ map (λ (m : GuardMeta). m.guard) (command_guards key hm)
unfolding inspect_guards command_guards get_guards
inspect_guards-command_guards key hm = rw map-append_guards
