-- ===== src/Guard/Laws.antt =====
-- What a chain of guards does around its handler.
use anywise.Common.{
  ℕ, ◌+◌, ◌≤◌, true, ◌≡◌, refl, ap, ◌∙◌, sym, fun_ext, Option, none, some, List, [], ◌∷◌, ◌++◌,
  arith, length, contains, All, IsDistinct,
}
use anywise.Errors.{Error, Result, ok, err}
use anywise.Exec.{Exec, pure, continue, ◌>>=◌, ◌>>◌}
use anywise.Guard.{
  Message, Callback, guard, Kind, hooks, Store, hooks_call, guard_call, run_pre, run_post, link,
  call, compose,
}
use anywise.Guard.Effective.{reached, reached_of_IsDistinct}
use anywise.Guard.Chain.{call-link}

module _ {S A B C : Type 0} where
  continue_assoc :
      (r : Result A) (s : S) (f : A → Exec S B) (g : B → Exec S C)
      → (continue r f >>= g) s ≡ continue r (λ a. f a >>= g) s
  continue_assoc (ok a) s f g = refl
  continue_assoc (err e) s f g = refl

  bind_assoc :
      (m : Exec S A) (f : A → Exec S B) (g : B → Exec S C)
      → ((m >>= f) >>= g) ≡ (m >>= λ a. f a >>= g)
  bind_assoc m f g = fun_ext λ s. continue_assoc (m s).0 (m s).1 f g

module _ {S A : Type 0} where
  pub continue-pure : (r : Result A) (s : S) → continue r pure s ≡ (r, s)
  continue-pure (ok a) s = refl
  continue-pure (err e) s = refl

  pub bind-pure : (m : Exec S A) → (m >>= pure) ≡ m
  bind-pure m = fun_ext λ s. continue-pure (m s).0 (m s).1

module _ {S V H : Type 0} (run_handler : H → Callback S V) (kind : ℕ → Kind S V)
    (pre : ℕ → Option (Callback S V)) (post : ℕ → Option (Message V → V → Exec S V)) where
  -- The pre-hooks of the guards, in their order.
  abbrev pub run_pres : List ℕ → Callback S V → Callback S V
  run_pres [] rest message = rest message
  run_pres (g ∷ gs) rest message = run_pre (pre g) (run_pres gs rest) message

  -- The post-hooks of the guards, the last guard's first.
  abbrev pub run_posts : List ℕ → Message V → V → Exec S V
  run_posts [] message response = pure response
  run_posts (g ∷ gs) message response = run_posts gs message response >>= run_post (post g) message

  pre-bind :
      (p : Option (Callback S V)) (rest : Callback S V) (k : V → Exec S V) (message : Message V)
      → (run_pre p rest message >>= k) ≡ run_pre p (λ m. rest m >>= k) message
  pre-bind none rest k message = refl
  pre-bind (some f) rest k message = bind_assoc (f message) (λ _. rest message) k

  pub pre-ap :
      (p : Option (Callback S V)) (f g : Callback S V) (message : Message V)
      → f message ≡ g message
      → run_pre p f message ≡ run_pre p g message
  pre-ap none f g message e = e
  pre-ap (some p) f g message e = ap (λ k. p message >> k) e

  pres-bind :
      (gs : List ℕ) (rest : Callback S V) (k : V → Exec S V) (message : Message V)
      → (run_pres gs rest message >>= k) ≡ run_pres gs (λ m. rest m >>= k) message
  pres-bind [] rest k message = refl
  pres-bind (g ∷ gs) rest k message =
      pre-bind (pre g) (run_pres gs rest) k message
      ∙ pre-ap (pre g) (λ m. run_pres gs rest m >>= k) (run_pres gs (λ m. rest m >>= k)) message
          (pres-bind gs rest k message)

  pub pres-ap :
      (gs : List ℕ) (f g : Callback S V) (message : Message V)
      → f message ≡ g message
      → run_pres gs f message ≡ run_pres gs g message
  pres-ap [] f g message e = e
  pres-ap (x ∷ gs) f g message e =
      pre-ap (pre x) (run_pres gs f) (run_pres gs g) message (pres-ap gs f g message e)

  -- The specification, for guards that are `Guard` objects with hooks.
  pub compose-hooks :
      (gs : List ℕ) (h : H) (message : Message V)
      → All (λ g. kind g ≡ hooks (pre g) (post g)) gs
      → compose run_handler kind gs h message
        ≡ run_pres gs (λ m. run_handler h m >>= run_posts gs m) message
  unfolding compose guard_call hooks_call
  compose-hooks [] h message all = sym (bind-pure (run_handler h message))
  compose-hooks (g ∷ gs) h message all = rw all.0 (
      pre-ap (pre g) (λ m. compose run_handler kind gs h m >>= run_post (post g) m)
        (run_pres gs (λ m. run_handler h m >>= run_posts (g ∷ gs) m)) message
        (ap (λ k. k >>= run_post (post g) message) (compose-hooks gs h message all.1)
          ∙ pres-bind gs (λ m. run_handler h m >>= run_posts gs m) (run_post (post g) message)
              message
          ∙ pres-ap gs (λ m. (run_handler h m >>= run_posts gs m) >>= run_post (post g) message)
              (λ m. run_handler h m >>= run_posts (g ∷ gs) m) message
              (bind_assoc (run_handler h message) (run_posts gs message)
                (run_post (post g) message))))

module _ {S V H : Type 0} (run_handler : H → Callback S V) (kind : ℕ → Kind S V) where
  -- A guard whose pre-hook always raises: what is composed behind it makes no difference.
  pub compose_refused :
      (g : ℕ) (f : Callback S V) (post : Option (Message V → V → Exec S V)) (xs ys zs : List ℕ)
      (h k : H)
      → kind g ≡ hooks (some f) post
      → ((message : Message V) (s : S) → (e : Error) × (s' : S) × (f message s ≡ (err e, s')))
      → compose run_handler kind (xs ++ g ∷ ys) h ≡ compose run_handler kind (xs ++ g ∷ zs) k
  unfolding compose guard_call hooks_call
  compose_refused g f post [] ys zs h k e refuses =
      rw e (fun_ext λ message. fun_ext λ s. let (x, s', raised) = refuses message s in rw raised)
  compose_refused g f post (x ∷ xs) ys zs h k e refuses =
      ap (λ c. guard_call (kind x) x (some c)) (compose_refused g f post xs ys zs h k e refuses)

-- Distinct `Guard` objects with hooks are linked in front of a handler, whatever they pointed at
-- before, and the stack has room for the chain. A call of the first runs all pre-hooks in the order
-- of the guards, then the handler, then the post-hooks, the last guard's first, each on the
-- response of the one before it; the first that raises ends the run.
pub call-hooks :
    {S V H : Type 0} (run_handler : H → Callback S V) (pre : ℕ → Option (Callback S V))
    (post : ℕ → Option (Message V → V → Exec S V)) (st : Store S V H) (h : H) (g : ℕ) (gs : List ℕ)
    (depth : ℕ) (message : Message V)
    → length gs + 2 ≤ depth
    → IsDistinct (g ∷ gs)
    → All (λ x. st.kind x ≡ hooks (pre x) (post x)) (g ∷ gs)
    → call run_handler depth (link g gs h st) (guard g) message
      ≡ run_pres run_handler st.kind pre post
          (g ∷ gs)
          (λ m. run_handler h m >>= run_posts run_handler st.kind pre post (g ∷ gs) m)
          message
call-hooks run_handler pre post st h g gs depth message enough distinct all =
    ap (λ f. f message)
      (call-link run_handler h st depth g gs enough
        ∙ ap (λ l. compose run_handler st.kind l h) (reached_of_IsDistinct g gs distinct))
    ∙ compose-hooks run_handler st.kind pre post (g ∷ gs) h message all

-- In a linked chain of distinct guards, a guard whose pre-hook always raises keeps everything
-- behind it from running: a call of the chain is the same with any other guards and any other
-- handler in that place, the guards in front being the same and the stack having room for both
-- chains.
pub call_refused :
    {S V H : Type 0} (run_handler : H → Callback S V) (st : Store S V H) (g : ℕ) (f : Callback S V)
    (post : Option (Message V → V → Exec S V)) (before ys zs : List ℕ) (h k : H) (a b : ℕ)
    (rest bs : List ℕ) (depth : ℕ)
    → st.kind g ≡ hooks (some f) post
    → ((message : Message V) (s : S) → (e : Error) × (s' : S) × (f message s ≡ (err e, s')))
    → a ∷ rest ≡ before ++ g ∷ ys
    → b ∷ bs ≡ before ++ g ∷ zs
    → IsDistinct (a ∷ rest)
    → IsDistinct (b ∷ bs)
    → length rest + 2 ≤ depth
    → length bs + 2 ≤ depth
    → call run_handler depth (link a rest h st) (guard a)
      ≡ call run_handler depth (link b bs k st) (guard b)
call_refused run_handler st g f post before ys zs h k a b rest bs depth is refuses first second
      distinct distinct' enough enough' =
    call-link run_handler h st depth a rest enough
    ∙ ap (λ l. compose run_handler st.kind l h) (reached_of_IsDistinct a rest distinct ∙ first)
    ∙ compose_refused run_handler st.kind g f post before ys zs h k is refuses
    ∙ sym (
        call-link run_handler k st depth b bs enough'
        ∙ ap (λ l. compose run_handler st.kind l k) (reached_of_IsDistinct b bs distinct' ∙ second))

contains-last : (g : ℕ) (xs : List ℕ) → contains g (xs ++ g ∷ []) ≡ true
contains-last g [] = ground arith
contains-last g (x ∷ xs) = ground (arith, contains-last g xs)

reached_again : (g : ℕ) (xs : List ℕ) → reached g (xs ++ g ∷ []) ≡ g ∷ []
unfolding reached
reached_again g [] = ground arith
reached_again g (x ∷ xs) = ground (arith, reached_again g xs, contains-last g (x ∷ xs))

-- Where one guard object stands first and last in the chain of a command, every guard between its
-- two places is left out, and so is its own second turn; the stack has room for the chain.
pub call_leaves_out :
    {S V H : Type 0} (run_handler : H → Callback S V) (st : Store S V H) (h : H) (g : ℕ)
    (xs : List ℕ) (depth : ℕ)
    → length (xs ++ g ∷ []) + 2 ≤ depth
    → call run_handler depth (link g (xs ++ g ∷ []) h st) (guard g)
      ≡ compose run_handler st.kind (g ∷ []) h
call_leaves_out run_handler st h g xs depth enough =
    rw (call-link run_handler h st depth g (xs ++ g ∷ []) enough, reached_again g xs)
