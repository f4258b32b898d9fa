-- ===== src/Registry/Invariant/Keys.antt =====
-- Adding listeners to a dict keeps each key once.
use anywise.Common.{◌≡◌, List, [], ◌∷◌, ◌++◌, arith, IsDistinct, Option-cases, inl, inr, subst, sym}
use anywise.Common.Dict.{Dict, lookup, insert, get_list, keys, insert-IsDistinct}
use anywise.Metas.{FuncMeta}
use anywise.Registry.{append_listener, append_listeners}

append_listener-eq-insert :
    (m : FuncMeta) (d : Dict (List FuncMeta))
    → append_listener m d ≡ insert m.message_type (get_list m.message_type d ++ m ∷ []) d
append_listener-eq-insert m d = elim (Option-cases (lookup m.message_type d)) [
  | inl absent ↦ ground arith
  | inr (ms, present) ↦ ground arith
]

append_listener-IsDistinct :
    (m : FuncMeta) (d : Dict (List FuncMeta))
    → IsDistinct (keys d)
    → IsDistinct (keys (append_listener m d))
append_listener-IsDistinct m d h =
    subst (λ d'. IsDistinct (keys d')) (sym (append_listener-eq-insert m d))
      (insert-IsDistinct m.message_type (get_list m.message_type d ++ m ∷ []) d h)

pub append_listeners-IsDistinct :
    (metas : List FuncMeta) (d : Dict (List FuncMeta))
    → IsDistinct (keys d)
    → IsDistinct (keys (append_listeners metas d))
unfolding append_listeners
append_listeners-IsDistinct [] d h = h
append_listeners-IsDistinct (m ∷ ms) d h =
    append_listeners-IsDistinct ms (append_listener m d) (append_listener-IsDistinct m d h)
