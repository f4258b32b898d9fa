-- ===== src/Bus/Scopes.antt =====
-- The scopes that sends open, and whether they are closed.
use anywise.Common.{
  ℕ, suc, ◌+◌, ◌≡◌, refl, ap, ◌∙◌, Option, none, some, List, [], ◌∷◌, arith, length,
}
use anywise.Common.Dict.{lookup}
use anywise.Errors.{Result, ok, err}
use anywise.Exec.{Exec, continue, ◌>>=◌}
use anywise.Metas.{FuncMeta, Ignored}
use anywise.Registry.{GuardRef, instance_of, guard_class, GuardMeta}
use anywise.Manager.{command_guards}
use anywise.Callable.{Callable, resolve_meta, bind_owner, maybe_thread}
use anywise.Guard.{Message, Callback, Target}
use anywise.Dispatch
use anywise.Dispatch.{
  Context, Env, Objects, System, on_objects, touched, chained, resolve_guard, resolve_guards,
  link_guards, chain_guards, resolve_found, resolve_handler, SendStrategy, finish_send,
}
use anywise.Bus.{Graph, Anywise, on_graph, message_scope, scope, in_scope, send}

-- What the actions below do not change.
module _ {S V D : Type 0} (count : D → ℕ) where
  abbrev Keeps : {A : Type 0} → Exec (Objects S V D) A → Type 0
  Keeps m = (o : Objects S V D) → count (m o).1.container ≡ count o.container

  Keeps-continue :
      {A B : Type 0} (r : Result A) (o : Objects S V D) (f : A → Exec (Objects S V D) B)
      → ((a : A) → Keeps (f a))
      → count (continue r f o).1.container ≡ count o.container
  Keeps-continue (ok a) o f h = h a o
  Keeps-continue (err e) o f h = refl

  Keeps-bind :
      {A B : Type 0} (m : Exec (Objects S V D) A) (f : A → Exec (Objects S V D) B)
      → Keeps m
      → ((a : A) → Keeps (f a))
      → Keeps (m >>= f)
  Keeps-bind m f h k o = Keeps-continue (m o).0 (m o).1 f k ∙ h o

  module _ (resolve : ℕ → Exec (Objects S V D) ℕ) (keep : (c : ℕ) → Keeps (resolve c)) where
    bind_owner-Keeps :
        (owner_type : Option ℕ) (ignore : List Ignored) (handler : Callable)
        → Keeps (bind_owner resolve owner_type ignore handler)
    bind_owner-Keeps none ignore handler = λ o. refl
    bind_owner-Keeps (some c) ignore handler = Keeps-bind (resolve c) _ (keep c) (λ a o. refl)

    resolve_meta-Keeps : (meta : FuncMeta) → Keeps (resolve_meta resolve meta)
    unfolding resolve_meta
    resolve_meta-Keeps meta =
        Keeps-bind (bind_owner resolve meta.owner_type meta.ignore (maybe_thread meta)) _
          (bind_owner-Keeps meta.owner_type meta.ignore (maybe_thread meta)) (λ a o. refl)

    resolve_guard-Keeps : (guard : GuardRef) → Keeps (resolve_guard resolve guard)
    unfolding resolve_guard
    resolve_guard-Keeps (instance_of g pre post) = λ o. refl
    resolve_guard-Keeps (guard_class c) = keep c

    resolve_guards-Keeps : (metas : List GuardMeta) → Keeps (resolve_guards resolve metas)
    unfolding resolve_guards resolve_guard
    resolve_guards-Keeps [] = λ o. refl
    resolve_guards-Keeps (meta ∷ metas) =
        Keeps-bind (resolve_guard resolve meta.guard) _ (resolve_guard-Keeps meta.guard) (λ g.
          Keeps-bind (resolve_guards resolve metas) _ (resolve_guards-Keeps metas) (λ gs o. refl))

    link_guards-Keeps :
        (gs : List ℕ) (h : Callable) → Keeps (link_guards {S = S} {V = V} {D = D} gs h)
    unfolding link_guards
    link_guards-Keeps [] h o = refl
    link_guards-Keeps (g ∷ gs) h o = refl

    chain_guards-Keeps :
        (metas : List GuardMeta) (h : Callable) → Keeps (chain_guards resolve metas h)
    unfolding chain_guards
    chain_guards-Keeps [] h = λ o. refl
    chain_guards-Keeps (meta ∷ metas) h =
        Keeps-bind (resolve_guards resolve (meta ∷ metas)) _ (resolve_guards-Keeps (meta ∷ metas))
          (λ gs. link_guards-Keeps gs h)

    chained-Keeps :
        (msg_type : ℕ) (r : Result Callable) (sys : System S V D)
        → count (continue r (chained resolve msg_type) sys).1.objects.container
          ≡ count sys.objects.container
    chained-Keeps msg_type (ok h) sys =
        chain_guards-Keeps (command_guards msg_type sys.managers.handlers) h sys.objects
    chained-Keeps msg_type (err e) sys = refl

    resolve_found-Keeps :
        (msg_type : ℕ) (found : Option FuncMeta) (sys : System S V D)
        → count (resolve_found resolve msg_type found sys).1.objects.container
          ≡ count sys.objects.container
    resolve_found-Keeps msg_type none sys = refl
    resolve_found-Keeps msg_type (some meta) sys =
        let (r, o) = resolve_meta resolve meta sys.objects in
        chained-Keeps msg_type r (record sys { objects = o }) ∙ resolve_meta-Keeps meta sys.objects

-- How many scopes the graph of an `Anywise` has that are entered and not left.
abbrev pub open_in : {V W D : Type 0} → (D → ℕ) → Anywise V W D → ℕ
open_in open_scopes aw = open_scopes aw.system.objects.container

module _ {V W D : Type 0} (dg : Graph (Env V W) V D) (perform : Callable → Callback (Env V W) V)
    (depth : ℕ) where
  -- Messages that are sent one after the other, each without a scope and whatever the one before it
  -- came to.
  abbrev pub send_each : List (Message V) → W → Anywise V W D → Anywise V W D
  send_each [] w aw = aw
  send_each (message ∷ messages) w aw =
      let ((r, env), aw') = send dg perform depth message none none w aw in
      send_each messages env.world aw'

module _ {V W D : Type 0} (dg : Graph (Env V W) V D) (open_scopes : D → ℕ)
    (making : (name : Option ℕ) (d : D) → open_scopes (dg.scope name d).1 ≡ open_scopes d)
    (entering : (s : ℕ) (d : D)
      → (s' : ℕ) × ((dg.aenter s d).0 ≡ ok s')
        × (open_scopes (dg.aenter s d).1 ≡ suc (open_scopes d)))
    (resolving : (s c : ℕ) (o : Objects (Env V W) V D)
      → open_scopes (dg.resolve s c o).1.container ≡ open_scopes o.container)
    (perform : Callable → Callback (Env V W) V) (depth : ℕ) where
  resolve_handler-Keeps :
      (s msg_type : ℕ) (sys : System (Env V W) V D)
      → open_scopes (resolve_handler (dg.resolve s) msg_type sys).1.objects.container
        ≡ open_scopes sys.objects.container
  unfolding resolve_handler
  resolve_handler-Keeps s msg_type sys =
      resolve_found-Keeps open_scopes (dg.resolve s) (resolving s) msg_type
        (lookup msg_type sys.managers.handlers.handler_metas) sys

  finish_send-Keeps :
      (s : ℕ) (sender : SendStrategy V W) (message : Message V) (context : Option (Context V))
      (w : W) (r : Result (Target Callable)) (sys : System (Env V W) V D)
      → (finish_send (dg.resolve s) perform depth sender message context w (r, sys)).1 ≡ sys
  finish_send-Keeps s sender message context w (ok t) sys = refl
  finish_send-Keeps s sender message context w (err e) sys = refl

  -- A send in a scope that is given leaves as many scopes open as there were, on every outcome.
  pub send_given_scope :
      (message : Message V) (context : Option (Context V)) (s : ℕ) (w : W) (aw : Anywise V W D)
      → open_in open_scopes (send dg perform depth message context (some s) w aw).1
        ≡ open_in open_scopes aw
  unfolding send in_scope Dispatch.send
  send_given_scope message context s w aw =
      let (r, sys) = resolve_handler (dg.resolve s) message.cls aw.system in
      ap (λ sys'. open_scopes sys'.objects.container)
        (finish_send-Keeps s aw.sender message context w r sys)
      ∙ resolve_handler-Keeps s message.cls aw.system

  send_no_scope :
      (message : Message V) (context : Option (Context V)) (w : W) (aw : Anywise V W D)
      → open_in open_scopes (send dg perform depth message context none w aw).1
        ≡ suc (open_in open_scopes aw)
  unfolding send in_scope scope
  send_no_scope message context w aw =
      let d = aw.system.objects.container in
      let made = dg.scope (some message_scope) d in
      let (s', entered, opened) = entering made.0 made.1 in
      let aw' = (on_graph dg (λ _. (ok tt, (dg.aenter made.0 made.1).1)) aw).1 in
      rw entered (send_given_scope message context s' w aw')
      ∙ opened
      ∙ ap suc (making (some message_scope) d)

  -- If entering a scope opens one more, and making or using one opens and closes none, then every
  -- send without a scope leaves a scope open, whether it returns or raises: after n messages there
  -- are n more.
  pub send_leaves_open :
      (messages : List (Message V)) (w : W) (aw : Anywise V W D)
      → open_in open_scopes (send_each dg perform depth messages w aw)
        ≡ length messages + open_in open_scopes aw
  send_leaves_open [] w aw = omega arith
  send_leaves_open (message ∷ messages) w aw =
      let ((r, env), aw') = send dg perform depth message none none w aw in
      omega (arith, send_leaves_open messages env.world aw', send_no_scope message none w aw)
