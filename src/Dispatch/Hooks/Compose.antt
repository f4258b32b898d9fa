-- ===== src/Dispatch/Hooks/Compose.antt =====
-- A chain of the guards that hooks have made runs the hooks around the handler.
use anywise.Common.{
  ℕ, ◌≡◌, refl, ap, ◌∙◌, fun_ext, Option, none, List, [], ◌∷◌, ◌++◌, All, inl, inr, Bool-cases,
}
use anywise.Exec.{Exec, pure, ◌>>=◌, ◌>>◌}
use anywise.Classes.{ClassTable}
use anywise.Metas.{Function}
use anywise.Registry
use anywise.Registry.{GuardRef, instance_of, guard_class, GuardMeta}
use anywise.Registry.Mixed.{takes}
use anywise.Registry.Hooked.{Hook, hook_before, hook_after, taking}
use anywise.Guard.{Message, Callback, Kind, base, custom, hooks, run_pre, run_post, compose}
use anywise.Guard.Laws.{run_pres, run_posts, compose-hooks, bind-pure, pre-ap}
use anywise.Dispatch.Hooks.{takers, hook_pre, hook_post, befores, afters, AreKinds}

module _ {S V : Type 0} (before : Registry.Target → Callback S V)
    (after : Registry.Target → Message V → V → Exec S V) where
  abbrev pre_of : Kind S V → Option (Callback S V)
  pre_of k = elim k [ base ↦ none | hooks pre post ↦ pre | custom around ↦ none ]

  abbrev post_of : Kind S V → Option (Message V → V → Exec S V)
  post_of k = elim k [ base ↦ none | hooks pre post ↦ post | custom around ↦ none ]

  -- The pre-hooks of a list of hooks, and then the rest; and its post-hooks.
  abbrev runs_pre : List Hook → Callback S V → Callback S V
  runs_pre [] rest message = rest message
  runs_pre ((pre, post) ∷ hs) rest message =
      run_pre (hook_pre before after pre) (runs_pre hs rest) message

  abbrev runs_post : List Hook → Message V → V → Exec S V
  runs_post [] message response = pure response
  runs_post ((pre, post) ∷ hs) message response =
      runs_post hs message response >>= run_post (hook_post before after post) message

  module _ (t : ClassTable) (e : ℕ) (message : Message V) where
    pre_of_posts :
        (posts : List Function) (rest : Callback S V)
        → runs_pre (taking t e hook_after posts) rest message ≡ rest message
    pre_of_posts [] rest = refl
    pre_of_posts (f ∷ posts) rest = elim (Bool-cases (takes t f e)) [
      | inl is ↦ rw is (pre_of_posts posts rest)
      | inr isnt ↦ rw isnt (pre_of_posts posts rest)
    ]

    befores-hooks :
        (pres posts : List Function) (rest : Callback S V)
        → runs_pre (taking t e hook_before pres ++ taking t e hook_after posts) rest message
          ≡ befores before after (takers t e pres) rest message
    befores-hooks [] posts rest = pre_of_posts posts rest
    befores-hooks (f ∷ pres) posts rest = elim (Bool-cases (takes t f e)) [
      | inl is ↦
          rw is
            (ap (λ k. before (Registry.function f) message >> k) (befores-hooks pres posts rest))
      | inr isnt ↦ rw isnt (befores-hooks pres posts rest)
    ]

    afters-posts :
        (posts : List Function)
        → runs_post (taking t e hook_after posts) message
          ≡ afters before after (takers t e posts) message
    afters-posts [] = refl
    afters-posts (f ∷ posts) = elim (Bool-cases (takes t f e)) [
      | inl is ↦ rw is (
          ap (λ k response. k response >>= after (Registry.function f) message)
            (afters-posts posts))
      | inr isnt ↦ rw isnt (afters-posts posts)
    ]

    afters-hooks :
        (pres posts : List Function)
        → runs_post (taking t e hook_before pres ++ taking t e hook_after posts) message
          ≡ afters before after (takers t e posts) message
    afters-hooks [] posts = afters-posts posts
    afters-hooks (f ∷ pres) posts = elim (Bool-cases (takes t f e)) [
      | inl is ↦ rw is (
          (fun_ext λ response. bind-pure (
            runs_post (taking t e hook_before pres ++ taking t e hook_after posts) message
              response))
          ∙ afters-hooks pres posts)
      | inr isnt ↦ rw isnt (afters-hooks pres posts)
    ]

  module _ {H : Type 0} (run_handler : H → Callback S V) (kind : ℕ → Kind S V) where
    hooks-AreKinds :
        (hs : List Hook) (gs : List ℕ)
        → AreKinds before after kind hs gs
        → All (λ g. kind g ≡ hooks (pre_of (kind g)) (post_of (kind g))) gs
    hooks-AreKinds [] [] kinds = tt
    hooks-AreKinds [] (g ∷ gs) kinds = absurd kinds
    hooks-AreKinds (x ∷ hs) [] kinds = absurd kinds
    hooks-AreKinds ((pre, post) ∷ hs) (g ∷ gs) (is, kinds) =
        (rw is refl, hooks-AreKinds hs gs kinds)

    runs_pre-AreKinds :
        (hs : List Hook) (gs : List ℕ) (rest : Callback S V) (message : Message V)
        → AreKinds before after kind hs gs
        → run_pres run_handler kind (λ g. pre_of (kind g)) (λ g. post_of (kind g)) gs rest message
          ≡ runs_pre hs rest message
    runs_pre-AreKinds [] [] rest message kinds = refl
    runs_pre-AreKinds [] (g ∷ gs) rest message kinds = absurd kinds
    runs_pre-AreKinds (x ∷ hs) [] rest message kinds = absurd kinds
    runs_pre-AreKinds ((pre, post) ∷ hs) (g ∷ gs) rest message (is, kinds) = rw is (
        pre-ap run_handler kind (λ g'. pre_of (kind g')) (λ g'. post_of (kind g'))
          (hook_pre before after pre)
          (run_pres run_handler kind (λ g'. pre_of (kind g')) (λ g'. post_of (kind g')) gs rest)
          (runs_pre hs rest) message (runs_pre-AreKinds hs gs rest message kinds))

    runs_post-AreKinds :
        (hs : List Hook) (gs : List ℕ) (message : Message V)
        → AreKinds before after kind hs gs
        → run_posts run_handler kind (λ g. pre_of (kind g)) (λ g. post_of (kind g)) gs message
          ≡ runs_post hs message
    runs_post-AreKinds [] [] message kinds = refl
    runs_post-AreKinds [] (g ∷ gs) message kinds = absurd kinds
    runs_post-AreKinds (x ∷ hs) [] message kinds = absurd kinds
    runs_post-AreKinds ((pre, post) ∷ hs) (g ∷ gs) message (is, kinds) = fun_ext λ response. rw is (
        ap (λ k. k response >>= run_post (hook_post before after post) message)
          (runs_post-AreKinds hs gs message kinds))

    -- The guards that hooks have made, around a handler: the pre-hooks that take the message type,
    -- the handler, and then the post-hooks that do.
    pub compose_hooked :
        (t : ClassTable) (e : ℕ) (pres posts : List Function) (gs : List ℕ) (h : H)
        → AreKinds before after kind (taking t e hook_before pres ++ taking t e hook_after posts) gs
        → compose run_handler kind gs h ≡ λ m.
            befores before after
              (takers t e pres)
              (λ m'. run_handler h m' >>= afters before after (takers t e posts) m')
              m
    compose_hooked t e pres posts gs h kinds = fun_ext λ m.
        let hs = taking t e hook_before pres ++ taking t e hook_after posts in
        let pre_hooks : ℕ → Option (Callback S V) = λ g. pre_of (kind g) in
        let post_hooks : ℕ → Option (Message V → V → Exec S V) = λ g. post_of (kind g) in
        compose-hooks run_handler kind pre_hooks post_hooks gs h m (hooks-AreKinds hs gs kinds)
        ∙ ap (λ k. run_pres run_handler kind pre_hooks post_hooks gs k m)
            (fun_ext λ m'.
              ap (λ k. run_handler h m' >>= k)
                (runs_post-AreKinds hs gs m' kinds ∙ afters-hooks t e m' pres posts))
        ∙ runs_pre-AreKinds hs gs
            (λ m'. run_handler h m' >>= afters before after (takers t e posts) m') m kinds
        ∙ befores-hooks t e m pres posts
            (λ m'. run_handler h m' >>= afters before after (takers t e posts) m')
