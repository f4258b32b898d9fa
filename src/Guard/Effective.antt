-- ===== src/Guard/Effective.antt =====
-- Which of the linked guards a call reaches when one object stands in the chain more than once:
-- each link overwrites the one before it, so what counts is the last place of each guard.
use anywise.Common.{
  ℕ, true, false, ◌≡◌, refl, Option, some, List, [], ◌∷◌, ap, arith, ◌==◌, contains, IsDistinct,
  if◌then◌else◌,
}
use anywise.Guard.{Target, guard, handler, Store, chain_next, link}

-- The guards that a call reaches from `g`, where `rest` follows it in the chain.
unfoldable pub reached : ℕ → List ℕ → List ℕ
reached g [] = g ∷ []
reached g (x ∷ rest) =
    let skip = reached g rest in
    let step = reached x rest in if contains g (x ∷ rest) then skip else g ∷ step

module _ {H : Type 0} where
  abbrev pub head_or : List ℕ → H → Target H
  head_or [] h = handler h
  head_or (x ∷ _) h = guard x

  -- The target behind the last place of `g`, and `old` where `g` is not in the list.
  abbrev pub link_of : ℕ → List ℕ → H → Option (Target H) → Option (Target H)
  link_of g [] h old = old
  link_of g (x ∷ xs) h old =
      if contains g xs then link_of g xs h old else if g == x then some (head_or xs h) else old

module _ {H : Type 0} where
  pub link_of_absent :
      (g : ℕ) (xs : List ℕ) (h : H) (old : Option (Target H))
      → contains g xs ≡ false
      → link_of g xs h old ≡ old
  link_of_absent g [] h old e = refl
  link_of_absent g (x ∷ xs) h old e = ground arith

  -- A guard in the list has its link from there, whatever it held before.
  pub link_of_present :
      (g : ℕ) (xs : List ℕ) (h : H) (old new : Option (Target H))
      → contains g xs ≡ true
      → link_of g xs h old ≡ link_of g xs h new
  link_of_present g [] h old new e = ground arith
  link_of_present g (x ∷ xs) h old new e = ground (arith, link_of_present g xs h old new)

module _ {S V H : Type 0} where
  -- What every guard points at after the linking loop.
  pub next_guard-link :
      (x : ℕ) (xs : List ℕ) (h : H) (st : Store S V H) (g : ℕ)
      → (link x xs h st).next_guard g ≡ link_of g (x ∷ xs) h (st.next_guard g)
  unfolding link
  next_guard-link x [] h st g = ground arith
  next_guard-link x (y ∷ ys) h st g = ground (
    arith,
    next_guard-link y ys h (chain_next x (guard y) st) g,
    link_of_present g (y ∷ ys) h (some (guard y)) (st.next_guard g),
    link_of_absent g (y ∷ ys) h (some (guard y)),
    link_of_absent g (y ∷ ys) h (st.next_guard g),
  )

  -- Linking moves no guard to another class.
  pub kind-link : (x : ℕ) (xs : List ℕ) (h : H) (st : Store S V H) → (link x xs h st).kind ≡ st.kind
  unfolding link
  kind-link x [] h st = refl
  kind-link x (y ∷ ys) h st = kind-link y ys h (chain_next x (guard y) st)

pub reached_of_IsDistinct : (g : ℕ) (gs : List ℕ) → IsDistinct (g ∷ gs) → reached g gs ≡ g ∷ gs
unfolding reached
reached_of_IsDistinct g [] h = refl
reached_of_IsDistinct g (x ∷ gs) h = rw h.0 (ap (◌∷◌ g) (reached_of_IsDistinct x gs h.1))
