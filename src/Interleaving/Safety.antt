-- ===== src/Interleaving/Safety.antt =====
-- Sends with no guard in common reach their own handlers under every schedule; sends with a common
-- guard need not.
use anywise.Common.{
  ℕ, true, false, ◌≡◌, ◌≢◌, refl, sym, subst, ap, ◌∙◌, none, some, List, [], ◌∷◌, arith, contains,
  ◌==◌, Bool-cases, inl, inr,
}
use anywise.Guard.{Target, guard, handler, Store, link, chain_next}
use anywise.Guard.Effective.{link_of, link_of_absent, link_of_present, next_guard-link}
use anywise.Interleaving.{
  Plan, Progress, waiting, running, delivered, State, advance, wire, Step, link_step, next_step,
  handle_step, Reach, here, more, start,
}

-- No guard object serves two tasks.
abbrev pub AreDisjoint : (ℕ → Plan) → Type 0
AreDisjoint plan =
    (i j g : ℕ) → i ≢ j → contains g (plan i).guards ≡ true → contains g (plan j).guards ≡ false

module _ (plan : ℕ → Plan) where
  -- A target that the chain of the task can lead to.
  abbrev IsOwn : ℕ → Target ℕ → Type 0
  IsOwn i (guard g) = contains g (plan i).guards ≡ true
  IsOwn i (handler h) = h ≡ (plan i).target

  link_of-IsOwn :
      (i y : ℕ) (xs : List ℕ) (t : Target ℕ)
      → ((x : ℕ) → contains x xs ≡ true → contains x (plan i).guards ≡ true)
      → link_of y xs (plan i).target none ≡ some t
      → IsOwn i t
  link_of-IsOwn i y [] t inside e = absurd (ground arith)
  link_of-IsOwn i y (x ∷ []) t inside e =
      let got : t ≡ handler (plan i).target = ground arith in subst (IsOwn i) (sym got) refl
  link_of-IsOwn i y (x ∷ z ∷ xs) t inside e = elim (Bool-cases (contains y (z ∷ xs))) [
    | inl later ↦ link_of-IsOwn i y (z ∷ xs) t (λ k w. inside k (ground (arith, w))) (ground arith)
    | inr last ↦
        let got : t ≡ guard z = ground arith in subst (IsOwn i) (sym got) (inside z (ground arith))
  ]

module _ {S V : Type 0} (plan : ℕ → Plan) where
  -- The guards of the task are linked as the linking loop leaves them.
  abbrev IsWired : ℕ → Store S V ℕ → Type 0
  IsWired i st =
      (y : ℕ)
      → contains y (plan i).guards ≡ true
      → st.next_guard y ≡ link_of y (plan i).guards (plan i).target none

  abbrev IsOnCourse : ℕ → Store S V ℕ → Progress → Type 0
  IsOnCourse i st waiting = Unit
  IsOnCourse i st (running t) = IsWired i st × IsOwn plan i t
  IsOnCourse i st (delivered h) = h ≡ (plan i).target

  AreOnCourse : State S V → Type 0
  AreOnCourse s = (i : ℕ) → IsOnCourse i s.store (s.progress i)

  IsWired-after :
      (i g : ℕ) (gs : List ℕ) (st : Store S V ℕ)
      → (plan i).guards ≡ g ∷ gs
      → IsWired i (link g gs (plan i).target st)
  IsWired-after i g gs st e y w =
      next_guard-link g gs (plan i).target st y
      ∙ link_of_present y (g ∷ gs) (plan i).target (st.next_guard y) none
          (subst (λ l. contains y l ≡ true) e w)
      ∙ ap (λ l. link_of y l (plan i).target none) (sym e)

  IsWired-kept :
      (i j g : ℕ) (gs : List ℕ) (h : ℕ) (st : Store S V ℕ)
      → AreDisjoint plan
      → j ≢ i
      → (plan i).guards ≡ g ∷ gs
      → IsWired j st
      → IsWired j (link g gs h st)
  IsWired-kept i j g gs h st apart ne e wired y w =
      next_guard-link g gs h st y
      ∙ link_of_absent y (g ∷ gs) h (st.next_guard y)
          (subst (λ l. contains y l ≡ false) e (apart j i y ne w))
      ∙ wired y w

  kept :
      (i j g : ℕ) (gs : List ℕ) (h : ℕ) (st : Store S V ℕ) (p : Progress)
      → AreDisjoint plan
      → j ≢ i
      → (plan i).guards ≡ g ∷ gs
      → IsOnCourse j st p
      → IsOnCourse j (link g gs h st) p
  kept i j g gs h st waiting apart ne e v = tt
  kept i j g gs h st (running t) apart ne e (wired, own) =
      (IsWired-kept i j g gs h st apart ne e wired, own)
  kept i j g gs h st (delivered d) apart ne e v = v

  -- What an `advance` leaves to show: the task that moved, and the others in the new store.
  advance-AreOnCourse :
      (i : ℕ) (p : Progress) (s : State S V)
      → IsOnCourse i s.store p
      → ((j : ℕ) → j ≢ i → IsOnCourse j s.store (s.progress j))
      → AreOnCourse (advance i p s)
  unfolding AreOnCourse
  advance-AreOnCourse i p s moved others j = elim (Bool-cases (j == i)) [
    | inl same ↦
        let is : j ≡ i = ground arith in
        rw same (subst (λ k. IsOnCourse k s.store p) (sym is) moved)
    | inr differ ↦ rw differ (others j (λ is. ground arith))
  ]

  wire-AreOnCourse :
      (i : ℕ) (gs : List ℕ) (s : State S V)
      → AreDisjoint plan
      → (plan i).guards ≡ gs
      → s.progress i ≡ waiting
      → AreOnCourse s
      → AreOnCourse (wire i gs (plan i).target s)
  unfolding wire AreOnCourse
  wire-AreOnCourse i [] s apart e w v =
      advance-AreOnCourse i (running (handler (plan i).target)) s
        ((λ y within. absurd (ground (arith, subst (λ l. contains y l ≡ true) e within))), refl)
        (λ j ne. v j)
  wire-AreOnCourse i (g ∷ gs) s apart e w v =
      advance-AreOnCourse i (running (guard g))
        (record s { store = link g gs (plan i).target s.store })
        (IsWired-after i g gs s.store e, subst (λ l. contains g l ≡ true) (sym e) (ground arith))
        (λ j ne. kept i j g gs (plan i).target s.store (s.progress j) apart ne e (v j))

  next-IsOwn :
      (i g : ℕ) (t : Target ℕ) (st : Store S V ℕ)
      → IsOnCourse i st (running (guard g))
      → st.next_guard g ≡ some t
      → IsOnCourse i st (running t)
  next-IsOwn i g t st (wired, own) e =
      (wired, link_of-IsOwn plan i g (plan i).guards t (λ x w. w) (sym (wired g own) ∙ e))

  Step-AreOnCourse :
      {s u : State S V} → AreDisjoint plan → Step plan s u → AreOnCourse s → AreOnCourse u
  unfolding AreOnCourse
  Step-AreOnCourse {s} apart (link_step i w e) v =
      subst AreOnCourse (sym e) (wire-AreOnCourse i (plan i).guards s apart refl w v)
  Step-AreOnCourse {s} apart (next_step i g t r n e) v = subst AreOnCourse (sym e) (
      advance-AreOnCourse i (running t) s
        (next-IsOwn i g t s.store (subst (IsOnCourse i s.store) r (v i)) n) (λ j ne. v j))
  Step-AreOnCourse {s} apart (handle_step i h r e) v =
      subst AreOnCourse (sym e) (
        advance-AreOnCourse i (delivered h) s (subst (IsOnCourse i s.store) r (v i)).1
          (λ j ne. v j))

  Reach-AreOnCourse :
      {s u : State S V} → AreDisjoint plan → AreOnCourse s → Reach plan s u → AreOnCourse u
  Reach-AreOnCourse apart v here = v
  Reach-AreOnCourse apart v (more r step) =
      Step-AreOnCourse apart step (Reach-AreOnCourse apart v r)

  -- If no guard object serves two sends, then under every schedule of any number of sends, from any
  -- links, a message is only ever delivered to the handler of its own send.
  pub delivered_to_own :
      (st : Store S V ℕ) (u : State S V) (i h : ℕ)
      → AreDisjoint plan
      → Reach plan (start st) u
      → u.progress i ≡ delivered h
      → h ≡ (plan i).target
  unfolding AreOnCourse
  delivered_to_own st u i h apart r d =
      subst (IsOnCourse i u.store) d (Reach-AreOnCourse apart (λ j. tt) r i)

  -- Two sends with one and the same guard object as their only guard, from any links: if the second
  -- links its guards while the first is inside the guard, the message of the first goes to the
  -- second's handler.
  pub delivered_to_other :
      (st : Store S V ℕ) (i j g : ℕ)
      → i ≢ j
      → (plan i).guards ≡ g ∷ []
      → (plan j).guards ≡ g ∷ []
      → (u : State S V) × Reach plan (start st) u × (u.progress i ≡ delivered (plan j).target)
  unfolding wire link chain_next
  delivered_to_other st i j g ne ei ej =
      (s4, more (more (more (more here first) second) third) fourth, ground arith)
    where
      s1 : State S V
      s1 = wire i (g ∷ []) (plan i).target (start st)

      s2 : State S V
      s2 = wire j (g ∷ []) (plan j).target s1

      s3 : State S V
      s3 = advance i (running (handler (plan j).target)) s2

      s4 : State S V
      s4 = advance i (delivered (plan j).target) s3

      first : Step plan (start st) s1
      first = link_step i refl (rw ei refl)

      second : Step plan s1 s2
      second = link_step j (ground arith) (rw ej refl)

      third : Step plan s2 s3
      third = next_step i g (handler (plan j).target) (ground arith) (ground arith) refl

      fourth : Step plan s3 s4
      fourth = handle_step i (plan j).target (ground arith) refl
