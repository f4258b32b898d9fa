-- ===== src/Interleaving/Links.antt =====
-- Where the links of guards lead. The linking loop of `_chain_guards` gives every guard of its chain
-- a way to the handler, and leaves a way to every guard that had one.
use anywise.Common.{
  ℕ, true, ◌≡◌, refl, sym, subst, ◌∙◌, some, List, [], ◌∷◌, arith, contains, Bool-cases, inl, inr,
}
use anywise.Guard.{Target, guard, handler, Store, link}
use anywise.Guard.Chain.{Agrees, Agrees-skip, Agrees-tail, Agrees-next, Agrees-link}
use anywise.Guard.Effective.{link_of_absent, next_guard-link}

module _ {S V H : Type 0} where
  -- The links from a target end at the handler.
  pub data Leads (st : Store S V H) (h : H) : Target H → Type 0 where
    arrived : {t : Target H} → t ≡ handler h → Leads st h t
    onward :
        {t : Target H} (g : ℕ) (next : Target H)
        → t ≡ guard g
        → st.next_guard g ≡ some next
        → Leads st h next
        → Leads st h t

  -- Every guard that is linked leads to some handler.
  abbrev pub AllLead : Store S V H → Type 0
  AllLead st = (g : ℕ) (t : Target H) → st.next_guard g ≡ some t → (h : H) × Leads st h t

  pub Leads-next :
      {st : Store S V H} {t : Target H} {h : H} (g : ℕ)
      → Leads st h t
      → t ≡ guard g
      → (next : Target H) × (st.next_guard g ≡ some next) × Leads st h next
  Leads-next g (arrived e) is = absurd (ground arith)
  Leads-next {st} g (onward g' next e n l) is =
      let same : g' ≡ g = ground arith in (next, subst (λ x. st.next_guard x ≡ some next) same n, l)

  Leads-head :
      (st : Store S V H) (h : H) (g : ℕ) (xs : List ℕ) → Agrees h st g xs → Leads st h (guard g)
  Leads-head st h g [] a = onward g (handler h) refl (Agrees-next h st g [] refl a) (arrived refl)
  Leads-head st h g (x ∷ xs) a = elim (Bool-cases (contains g (x ∷ xs))) [
    | inl again ↦ Leads-head st h g xs (Agrees-skip h st g x xs again a)
    | inr once ↦
        onward g (guard x) refl (Agrees-next h st g (x ∷ xs) once a)
          (Leads-head st h x xs (Agrees-tail h st g x xs a))
  ]

  Leads-chain :
      (st : Store S V H) (h : H) (g : ℕ) (xs : List ℕ) (y : ℕ)
      → Agrees h st g xs
      → contains y (g ∷ xs) ≡ true
      → Leads st h (guard y)
  Leads-chain st h g [] y a within =
      subst (λ k. Leads st h (guard k)) (ground arith) (Leads-head st h g [] a)
  Leads-chain st h g (x ∷ xs) y a within = elim (Bool-cases (contains y (x ∷ xs))) [
    | inl later ↦ Leads-chain st h x xs y (Agrees-tail h st g x xs a) later
    | inr not_later ↦
        subst (λ k. Leads st h (guard k)) (ground arith) (Leads-head st h g (x ∷ xs) a)
  ]

  -- After the linking loop every guard of the chain leads to the handler of the chain.
  pub Leads-link :
      (g : ℕ) (gs : List ℕ) (h : H) (st : Store S V H) (y : ℕ)
      → contains y (g ∷ gs) ≡ true
      → Leads (link g gs h st) h (guard y)
  Leads-link g gs h st y within =
      Leads-chain (link g gs h st) h g gs y (Agrees-link h st g gs) within

  -- A target that led to a handler leads to one after the linking loop, though it may be another.
  pub Leads-kept :
      (g : ℕ) (gs : List ℕ) (h : H) (st : Store S V H) {old : H} {t : Target H}
      → Leads st old t
      → (new : H) × Leads (link g gs h st) new t
  Leads-kept g gs h st {old = old} (arrived e) = (old, arrived e)
  Leads-kept g gs h st (onward y next e n l) = elim (Bool-cases (contains y (g ∷ gs))) [
    | inl within ↦
        (h, subst (λ k. Leads (link g gs h st) h k) (sym e) (Leads-link g gs h st y within))
    | inr outside ↦
        let (new, l') = Leads-kept g gs h st l in
        (
          new,
          onward y next e
              (next_guard-link g gs h st y
                ∙ link_of_absent y (g ∷ gs) h (st.next_guard y) outside
                ∙ n)
              l',
        )
  ]

  pub AllLead-link :
      (g : ℕ) (gs : List ℕ) (h : H) (st : Store S V H) → AllLead st → AllLead (link g gs h st)
  AllLead-link g gs h st v y t n = elim (Bool-cases (contains y (g ∷ gs))) [
    | inl within ↦
        let (next, n', l) = Leads-next y (Leads-link g gs h st y within) refl in
        (h, subst (λ k. Leads (link g gs h st) h k) (ground arith) l)
    | inr outside ↦
        let was : st.next_guard y ≡ some t =
          sym (link_of_absent y (g ∷ gs) h (st.next_guard y) outside)
          ∙ sym (next_guard-link g gs h st y)
          ∙ n in
        let (old, l) = v y t was in Leads-kept g gs h st l
  ]
