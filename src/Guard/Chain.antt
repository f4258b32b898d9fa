-- ===== src/Guard/Chain.antt =====
-- A call through the chain that the linking loop of `_chain_guards` leaves in the store.
use anywise.Common.{
  ℕ, zero, suc, ◌+◌, ◌≤◌, true, false, ◌≡◌, refl, none, some, List, [], ◌∷◌, arith, length, subst,
  contains, Bool-cases, inl, inr,
}
use anywise.Guard.{Callback, guard, Store, link, call, compose}
use anywise.Guard.Effective.{reached, head_or, link_of, link_of_present, next_guard-link, kind-link}

module _ {S V H : Type 0} (h : H) where
  -- Every guard from `g` on points where the chain's links say.
  pub Agrees : Store S V H → ℕ → List ℕ → Type 0
  Agrees st g xs =
      (y : ℕ) → contains y (g ∷ xs) ≡ true → st.next_guard y ≡ link_of y (g ∷ xs) h none

  pub Agrees-skip :
      (st : Store S V H) (g x : ℕ) (xs : List ℕ)
      → contains g (x ∷ xs) ≡ true
      → Agrees st g (x ∷ xs)
      → Agrees st g xs
  unfolding Agrees
  Agrees-skip st g x xs again a y within = ground (arith, a y)

  pub Agrees-tail :
      (st : Store S V H) (g x : ℕ) (xs : List ℕ) → Agrees st g (x ∷ xs) → Agrees st x xs
  unfolding Agrees
  Agrees-tail st g x xs a y within = ground (arith, a y)

  pub Agrees-next :
      (st : Store S V H) (g : ℕ) (xs : List ℕ)
      → contains g xs ≡ false
      → Agrees st g xs
      → st.next_guard g ≡ some (head_or xs h)
  unfolding Agrees
  Agrees-next st g xs once a = ground (arith, a g)

  pub Agrees-link : (st : Store S V H) (g : ℕ) (xs : List ℕ) → Agrees (link g xs h st) g xs
  unfolding Agrees
  Agrees-link st g xs y within =
      rw next_guard-link (link_of_present y (g ∷ xs) h (st.next_guard y) none within)

module _ {S V H : Type 0} (run_handler : H → Callback S V) (h : H) where
  call-reached :
      (st : Store S V H) (depth g : ℕ) (xs : List ℕ)
      → length xs + 2 ≤ depth
      → Agrees h st g xs
      → call run_handler depth st (guard g) ≡ compose run_handler st.kind (reached g xs) h
  unfolding call compose reached
  call-reached st zero g xs enough a = absurd (omega arith)
  call-reached st (suc zero) g xs enough a = absurd (omega arith)
  call-reached st (suc (suc depth)) g [] enough a = rw (Agrees-next h st g [] refl a)
  call-reached st (suc (suc depth)) g (x ∷ xs) enough a = elim (Bool-cases (contains g (x ∷ xs))) [
    | inl again ↦
        rw again
          (call-reached st (suc (suc depth)) g xs (omega arith) (Agrees-skip h st g x xs again a))
    | inr once ↦ rw (
      once,
      Agrees-next h st g (x ∷ xs) once a,
      call-reached st (suc depth) x xs (omega arith) (Agrees-tail h st g x xs a),
    )
  ]

  -- After linking, a call of the head with stack enough for the list runs the reached guards in
  -- order, and the handler innermost.
  pub call-link :
      (st : Store S V H) (depth g : ℕ) (xs : List ℕ)
      → length xs + 2 ≤ depth
      → call run_handler depth (link g xs h st) (guard g)
        ≡ compose run_handler st.kind (reached g xs) h
  call-link st depth g xs enough =
      subst
        (λ k.
          call run_handler depth (link g xs h st) (guard g)
          ≡ compose run_handler k (reached g xs) h)
        (kind-link g xs h st)
        (call-reached (link g xs h st) depth g xs enough (Agrees-link h st g xs))
