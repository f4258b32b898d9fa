-- ===== src/Dispatch/Concurrent/Order.antt =====
-- Coroutines that do not depend on one another: a step of one may be made before the others run.
use anywise.Common.{◌≡◌, refl, sym, ap, ◌∙◌, List, [], ◌∷◌, ◌++◌, All}
use anywise.Errors.{Result}
use anywise.Dispatch.Concurrent.{Coroutine, ended, runs, finish}

module _ {A : Type 0} (P : A → Type 0) where
  All-middle : (xs ys : List A) {y : A} → All P (xs ++ y ∷ ys) → P y
  All-middle [] ys h = h.0
  All-middle (x ∷ xs) ys h = All-middle xs ys h.1

  All-replace :
      (xs ys : List A) {y z : A} → (P y → P z) → All P (xs ++ y ∷ ys) → All P (xs ++ z ∷ ys)
  All-replace [] ys f h = (f h.0, h.1)
  All-replace (x ∷ xs) ys f h = (h.0, All-replace xs ys f h.1)

All-map :
    {A : Type 0} {P Q : A → Type 0} (xs : List A) → ((x : A) → P x → Q x) → All P xs → All Q xs
All-map [] f h = tt
All-map (x ∷ xs) f h = (f x h.0, All-map xs f h.1)

module _ {S V : Type 0} where
  -- A step commutes with all that the coroutine writes, and neither changes how the other goes on.
  abbrev pub Ignores : (S → S) → (S → Coroutine S V) → Coroutine S V → Type 0
  Ignores f k (ended r) = Unit
  Ignores f k (runs write next cancelled) =
      ((s : S)
        → (f (write s) ≡ write (f s))
          × (k (write s) ≡ k s)
          × (next (f s) ≡ next s)
          × Ignores f k (next s))

  abbrev pub AreIndependent : Coroutine S V → Coroutine S V → Type 0
  AreIndependent (ended r) c = Unit
  AreIndependent (runs write next cancelled) c =
      Ignores write next c × ((s : S) → AreIndependent (next s) c)

  -- Each is independent of those before it.
  abbrev pub ArePairwise : List (Coroutine S V) → Type 0
  ArePairwise [] = Unit
  ArePairwise (c ∷ cs) = All (λ d. AreIndependent d c × AreIndependent c d) cs × ArePairwise cs

  abbrev push : Result V → List (Result V) × S → List (Result V) × S
  push r (rs, s) = (r ∷ rs, s)

  -- The results and the state after all the coroutines, one after the other.
  abbrev pub run_all : List (Coroutine S V) → S → List (Result V) × S
  run_all [] s = ([], s)
  run_all (c ∷ cs) s = let (r, s') = finish c s in push r (run_all cs s')

  abbrev on_state : (S → S) → Result V × S → Result V × S
  on_state f (r, s) = (r, f s)

  finish-Ignores :
      (f : S → S) (k : S → Coroutine S V) (c : Coroutine S V) (s : S)
      → Ignores f k c
      → (on_state f (finish c s) ≡ finish c (f s)) × (k (finish c s).1 ≡ k s)
  unfolding finish
  finish-Ignores f k (ended r) s i = (refl, refl)
  finish-Ignores f k (runs write next cancelled) s i =
      let (swap, same, on, rest) = i s in
      let (moved, kept) = finish-Ignores f k (next s) (write s) rest in
      (moved ∙ ap (finish (next s)) swap ∙ ap (λ c. finish c (write (f s))) (sym on), kept ∙ same)

  -- A step of a task in the middle, made before the ones in front of it have run.
  pub run_all-step :
      (before after : List (Coroutine S V)) (f : S → S) (k : S → Coroutine S V)
      (cancelled : Coroutine S V) (s : S)
      → All (Ignores f k) before
      → run_all (before ++ runs f k cancelled ∷ after) s ≡ run_all (before ++ k s ∷ after) (f s)
  unfolding finish
  run_all-step [] after f k cancelled s i = refl
  run_all-step (c ∷ before) after f k cancelled s (i, is) =
      let (moved, kept) = finish-Ignores f k c s i in
      let (r, s') = finish c s in
      ap (push r) (
        run_all-step before after f k cancelled s' is
        ∙ ap (λ d. run_all (before ++ d ∷ after) (f s')) kept)
      ∙ ap (λ p. push p.0 (run_all (before ++ k s ∷ after) p.1)) moved

  abbrev AreApart : Coroutine S V → Coroutine S V → Type 0
  AreApart d c = AreIndependent d c × AreIndependent c d

  AreIndependent-next :
      (d : Coroutine S V) (f : S → S) (k : S → Coroutine S V) (cancelled : Coroutine S V) (s : S)
      → AreIndependent d (runs f k cancelled)
      → AreIndependent d (k s)
  AreIndependent-next (ended r) f k cancelled s i = tt
  AreIndependent-next (runs write next c) f k cancelled s (i, is) =
      ((i s).3, λ s'. AreIndependent-next (next s') f k cancelled s (is s'))

  AreApart-next :
      (d : Coroutine S V) (f : S → S) (k : S → Coroutine S V) (cancelled : Coroutine S V) (s : S)
      → AreApart d (runs f k cancelled)
      → AreApart d (k s)
  AreApart-next d f k cancelled s (i, j) = (AreIndependent-next d f k cancelled s i, j.1 s)

  pub ArePairwise-next :
      (before after : List (Coroutine S V)) (f : S → S) (k : S → Coroutine S V)
      (cancelled : Coroutine S V) (s : S)
      → ArePairwise (before ++ runs f k cancelled ∷ after)
      → ArePairwise (before ++ k s ∷ after)
  ArePairwise-next [] after f k cancelled s (i, is) =
      (All-map after (λ d. AreApart-next d f k cancelled s) i, is)
  ArePairwise-next (d ∷ before) after f k cancelled s (i, is) = (
    All-replace (λ c. AreApart c d) before after
        (λ (i, j). let (j', i') = AreApart-next d f k cancelled s (j, i) in (i', j')) i,
    ArePairwise-next before after f k cancelled s is,
  )

  -- The step of a task is ignored by those in front of it.
  pub ArePairwise-Ignores :
      (before after : List (Coroutine S V)) (f : S → S) (k : S → Coroutine S V)
      (cancelled : Coroutine S V)
      → ArePairwise (before ++ runs f k cancelled ∷ after)
      → All (Ignores f k) before
  ArePairwise-Ignores [] after f k cancelled h = tt
  ArePairwise-Ignores (d ∷ before) after f k cancelled (i, is) = (
    (All-middle (λ c. AreApart c d) before after i).0.0,
    ArePairwise-Ignores before after f k cancelled is,
  )
