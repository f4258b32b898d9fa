-- ===== src/Tests/Interleaving.antt =====
-- Two sends on one event loop.
use anywise.Common.{ℕ, ◌+◌, none, ◌≡◌, refl, [], ◌∷◌, arith}
use anywise.Guard.{Store, handler, link, chain_next}
use anywise.Interleaving.{
  Plan, delivered, running, State, advance, wire, link_step, next_step, handle_step, Reach, here,
  more, start,
}
use anywise.Interleaving.Safety.{AreDisjoint, delivered_to_own, delivered_to_other}
use anywise.Interleaving.Links.{AllLead}
use anywise.Interleaving.Delivery.{Ends, can_deliver}
use anywise.Tests.Sample.{UserEnv, kind}

abbrev handler_store : Store UserEnv ℕ ℕ
handler_store = record { kind = kind; next_guard = λ g. none }

-- Send `i` has a guard and a handler of its own.
abbrev apart : ℕ → Plan
apart i = record { guards = i ∷ []; target = 100 + i }

apart-AreDisjoint : AreDisjoint apart
apart-AreDisjoint i j g ne within = ground arith

abbrev after_links : State UserEnv ℕ
after_links = wire 2 (2 ∷ []) 102 (wire 1 (1 ∷ []) 101 (start handler_store))

abbrev outcome : State UserEnv ℕ
outcome = advance 1 (delivered 101) (advance 1 (running (handler 101)) after_links)

-- The second send links its guards while the first is inside its own.
interleaved : Reach apart (start handler_store) outcome
unfolding wire link chain_next
interleaved =
    more
      (more (more (more here (link_step 1 refl refl)) (link_step 2 refl refl))
        (next_step 1 1 (handler 101) refl refl refl))
      (handle_step 1 101 refl refl)

delivered_to_own_example : 101 ≡ (apart 1).target
unfolding wire
delivered_to_own_example =
    delivered_to_own apart handler_store outcome 1 101 apart-AreDisjoint interleaved refl

-- Every send goes through the guard 3.
abbrev shared : ℕ → Plan
shared i = record { guards = 3 ∷ []; target = 100 + i }

delivered_to_other_example :
    (u : State UserEnv ℕ) × Reach shared (start handler_store) u
    × (u.progress 1 ≡ delivered (shared 2).target)
delivered_to_other_example =
    delivered_to_other shared handler_store 1 2 3 (λ same. ground (arith, same)) refl refl

handler_store-AllLead : AllLead handler_store
handler_store-AllLead g t linked = absurd (ground arith)

-- Both sends are inside the guard that they share.
abbrev both_inside : State UserEnv ℕ
both_inside = wire 2 (3 ∷ []) 102 (wire 1 (3 ∷ []) 101 (start handler_store))

reach_both : Reach shared (start handler_store) both_inside
unfolding wire link chain_next
reach_both = more (more here (link_step 1 refl refl)) (link_step 2 refl refl)

can_deliver_example : Ends shared 1 both_inside
can_deliver_example =
    can_deliver shared handler_store both_inside 1 handler_store-AllLead reach_both
