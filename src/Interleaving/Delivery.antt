-- ===== src/Interleaving/Delivery.antt =====
-- Sends that share guards are never stuck, whatever the schedule: they may reach the handler of
-- another send, but none meets a guard without a link, or a circle of links.
use anywise.Common.{
  ℕ, ◌≡◌, ◌≢◌, refl, sym, subst, ap, ◌∙◌, some, List, [], ◌∷◌, arith, ◌==◌, Bool-cases, inl, inr,
}
use anywise.Guard.{Target, guard, handler, Store, link}
use anywise.Interleaving.{
  Plan, Progress, waiting, running, delivered, State, advance, wire, Step, link_step, next_step,
  handle_step, Reach, here, more, start,
}
use anywise.Interleaving.Links.{
  Leads, arrived, onward, AllLead, Leads-next, Leads-link, Leads-kept, AllLead-link,
}

module _ {S V : Type 0} where
  -- What a running send has before it ends at a handler.
  abbrev HasWay : Store S V ℕ → Progress → Type 0
  HasWay st waiting = Unit
  HasWay st (running t) = (h : ℕ) × Leads st h t
  HasWay st (delivered h) = Unit

  HaveWays : State S V → Type 0
  HaveWays s = AllLead s.store × ((i : ℕ) → HasWay s.store (s.progress i))

  HasWay-link :
      (g : ℕ) (gs : List ℕ) (h : ℕ) (st : Store S V ℕ) (p : Progress)
      → HasWay st p
      → HasWay (link g gs h st) p
  HasWay-link g gs h st waiting v = tt
  HasWay-link g gs h st (running t) (old, l) = Leads-kept g gs h st l
  HasWay-link g gs h st (delivered d) v = tt

  advance-HaveWays :
      (i : ℕ) (p : Progress) (s : State S V)
      → HaveWays s
      → HasWay s.store p
      → HaveWays (advance i p s)
  unfolding HaveWays
  advance-HaveWays i p s v moved = (
    v.0,
    λ j. elim (Bool-cases (j == i)) [ inl same ↦ rw same moved | inr differ ↦ rw differ (v.1 j) ],
  )

  wire-HaveWays :
      (i : ℕ) (gs : List ℕ) (h : ℕ) (s : State S V) → HaveWays s → HaveWays (wire i gs h s)
  unfolding HaveWays wire
  wire-HaveWays i [] h s v = advance-HaveWays i (running (handler h)) s v (h, arrived refl)
  wire-HaveWays i (g ∷ gs) h s v =
      advance-HaveWays i (running (guard g)) (record s { store = link g gs h s.store })
        (AllLead-link g gs h s.store v.0, λ j. HasWay-link g gs h s.store (s.progress j) (v.1 j))
        (h, Leads-link g gs h s.store g (ground arith))

module _ {S V : Type 0} (plan : ℕ → Plan) where
  Step-HaveWays : {s u : State S V} → Step plan s u → HaveWays s → HaveWays u
  unfolding HaveWays
  Step-HaveWays {s} (link_step i w e) v =
      subst HaveWays (sym e) (wire-HaveWays i (plan i).guards (plan i).target s v)
  Step-HaveWays {s} (next_step i g t r n e) v =
      subst HaveWays (sym e) (advance-HaveWays i (running t) s v (v.0 g t n))
  Step-HaveWays {s} (handle_step i h r e) v =
      subst HaveWays (sym e) (advance-HaveWays i (delivered h) s v tt)

  Reach-HaveWays : {s u : State S V} → HaveWays s → Reach plan s u → HaveWays u
  Reach-HaveWays v here = v
  Reach-HaveWays v (more r step) = Step-HaveWays step (Reach-HaveWays v r)

  start-HaveWays : (st : Store S V ℕ) → AllLead st → HaveWays (start st)
  unfolding HaveWays
  start-HaveWays st v = (v, λ i. tt)

  -- Let every guard that is linked at first lead to a handler; guards that are new are not linked.
  -- Then under every schedule of any number of sends, whatever guards they share, a send that is
  -- inside a guard finds it linked: no send raises `DunglingGuardError`.
  pub guard-linked :
      (st : Store S V ℕ) (u : State S V) (i g : ℕ)
      → AllLead st
      → Reach plan (start st) u
      → u.progress i ≡ running (guard g)
      → (t : Target ℕ) × (u.store.next_guard g ≡ some t)
  unfolding HaveWays
  guard-linked st u i g v r at_guard =
      let (h, l) = subst (HasWay u.store) at_guard ((Reach-HaveWays (start-HaveWays st v) r).1 i) in
      let (t, n, l') = Leads-next g l refl in (t, n)

  -- What the send alone, run to its end, leaves: the message is delivered, and no other send moved.
  abbrev pub Ends : ℕ → State S V → Type 0
  Ends i s =
      (u : State S V) × (h : ℕ) × Reach plan s u
      × (u.progress i ≡ delivered h)
      × ((j : ℕ) → j ≢ i → u.progress j ≡ s.progress j)

  Reach-trans : {s t u : State S V} → Reach plan s t → Reach plan t u → Reach plan s u
  Reach-trans r here = r
  Reach-trans r (more r' step) = more (Reach-trans r r') step

  -- One step of the send, and then what it does from there.
  Ends-Step :
      (i : ℕ) (s s' : State S V)
      → Step plan s s'
      → ((j : ℕ) → j ≢ i → s'.progress j ≡ s.progress j)
      → Ends i s'
      → Ends i s
  Ends-Step i s s' step others (u, h, r, d, left) =
      (u, h, Reach-trans (more here step) r, d, λ j ne. left j ne ∙ others j ne)

  others-advance :
      (i : ℕ) (p : Progress) (s : State S V) (j : ℕ)
      → j ≢ i
      → (advance i p s).progress j ≡ s.progress j
  others-advance i p s j ne = ground arith

  delivered-Ends : (i : ℕ) (s : State S V) (h : ℕ) → s.progress i ≡ running (handler h) → Ends i s
  delivered-Ends i s h r = (
    advance i (delivered h) s,
    h,
    more here (handle_step i h r refl),
    ground arith,
    others-advance i (delivered h) s,
  )

  Leads-Ends :
      (i : ℕ) {h : ℕ} (st : Store S V ℕ) {t : Target ℕ}
      → Leads st h t
      → (s : State S V) → s.store ≡ st
      → s.progress i ≡ running t
      → Ends i s
  Leads-Ends i {h} st (arrived e) s same r = delivered-Ends i s h (r ∙ ap running e)
  Leads-Ends i st (onward g next e n l) s same r =
      let moved = advance i (running next) s in
      Ends-Step i s moved (next_step i g next (r ∙ ap running e) (rw same n) refl)
        (others-advance i (running next) s) (Leads-Ends i st l moved same (ground arith))

  wire-Ends :
      (i : ℕ) (gs : List ℕ) (s : State S V)
      → (plan i).guards ≡ gs
      → s.progress i ≡ waiting
      → Ends i s
  unfolding wire
  wire-Ends i [] s e w =
      let h = (plan i).target in
      Ends-Step i s (wire i [] h s) (link_step i w (rw e refl))
        (others-advance i (running (handler h)) s)
        (delivered-Ends i (wire i [] h s) h (ground arith))
  wire-Ends i (g ∷ gs) s e w =
      let h = (plan i).target in
      let st = link g gs h s.store in
      Ends-Step i s (wire i (g ∷ gs) h s) (link_step i w (rw e refl))
        (others-advance i (running (guard g)) (record s { store = st }))
        (Leads-Ends i st (Leads-link g gs h s.store g (ground arith)) (wire i (g ∷ gs) h s) refl
          (ground arith))

  HasWay-Ends :
      (i : ℕ) (s : State S V) (p : Progress) → s.progress i ≡ p → HasWay s.store p → Ends i s
  HasWay-Ends i s waiting r w = wire-Ends i (plan i).guards s refl r
  HasWay-Ends i s (running t) r (h, l) = Leads-Ends i s.store l s refl r
  HasWay-Ends i s (delivered h) r w = (s, h, here, r, λ j ne. refl)

  -- Let every guard that is linked at first lead to a handler. Then from every state that a
  -- schedule of sends reaches, whatever guards they share, each send comes to the delivery of its
  -- message to some handler by its own steps alone: guards are never linked in a circle.
  pub can_deliver :
      (st : Store S V ℕ) (u : State S V) (i : ℕ) → AllLead st → Reach plan (start st) u → Ends i u
  unfolding HaveWays
  can_deliver st u i v r =
      HasWay-Ends i u (u.progress i) refl ((Reach-HaveWays (start-HaveWays st v) r).1 i)
