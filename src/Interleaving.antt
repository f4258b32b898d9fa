-- ===== src/Interleaving.antt =====
-- Several sends at once, on one event loop. `_chain_guards` of anywise/anywise.py links the guard
-- objects of a command without an `await` between, so it is one step; then the call runs from guard
-- to guard, and reads `_next_guard` (anywise/guard.py) only after what the guard awaits, where other
-- tasks may run. Handlers are numbers, and a task is one send.
pub mod Safety
pub mod Links
pub mod Delivery
use anywise.Common.{ℕ, ◌≡◌, Option, some, List, [], ◌∷◌, ◌==◌, if◌then◌else◌}
use anywise.Guard.{Target, guard, handler, Store, link}

-- What a send resolves to: the guards of its command, and its handler.
pub record Plan : Type 0 where
  pub guards : List ℕ
  pub target : ℕ

pub data Progress : Type 0 where
  -- the guards are not linked yet
  waiting : Progress
  -- the call has got to this guard or handler
  running : Target ℕ → Progress
  -- this handler has been given the message
  delivered : ℕ → Progress

pub record State (S V : Type 0) : Type 0 where
  pub store : Store S V ℕ
  pub progress : ℕ → Progress

module _ {S V : Type 0} where
  abbrev pub advance : ℕ → Progress → State S V → State S V
  advance i p s = record s { progress = λ k. if k == i then p else s.progress k }

  -- `_chain_guards` for a task
  unfoldable pub wire : ℕ → List ℕ → ℕ → State S V → State S V
  wire i [] h s = advance i (running (handler h)) s
  wire i (g ∷ gs) h s = advance i (running (guard g)) (record s { store = link g gs h s.store })

  -- One step of one task.
  pub data Step (plan : ℕ → Plan) (s u : State S V) : Type 0 where
    link_step :
        (i : ℕ)
        → s.progress i ≡ waiting
        → u ≡ wire i (plan i).guards (plan i).target s
        → Step plan s u
    -- the guard reads its `_next_guard` and calls it
    next_step :
        (i g : ℕ) (t : Target ℕ)
        → s.progress i ≡ running (guard g)
        → s.store.next_guard g ≡ some t
        → u ≡ advance i (running t) s
        → Step plan s u
    handle_step :
        (i h : ℕ)
        → s.progress i ≡ running (handler h)
        → u ≡ advance i (delivered h) s
        → Step plan s u

  pub data Reach (plan : ℕ → Plan) (s : State S V) : State S V → Type 0 where
    here : Reach plan s s
    more : {t u : State S V} → Reach plan s t → Step plan t u → Reach plan s u

  -- No task has started; the guards may be linked in any way.
  abbrev pub start : Store S V ℕ → State S V
  start st = record { store = st; progress = λ i. waiting }
