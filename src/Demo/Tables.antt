-- ===== src/Demo/Tables.antt =====
-- Lookups in the table of todos, after the writes that the repository makes.
use anywise.Common.{
  ℕ, false, ◌≡◌, Option, none, some, List, [], ◌∷◌, ◌++◌, arith, ◌==◌, if◌then◌else◌,
}
use anywise.Errors.{Result, ok, err}
use anywise.Demo.{Todo, App, get, integrity_error}

pub get-snoc :
    (i : ℕ) (todos : List Todo) (todo : Todo)
    → get todo.todo_id todos ≡ none
    → get i (todos ++ todo ∷ []) ≡ (if i == todo.todo_id then some todo else get i todos)
unfolding get
get-snoc i [] todo n = ground arith
get-snoc i (x ∷ todos) todo n =
    let rest : get todo.todo_id todos ≡ none = ground arith in
    let apart : (todo.todo_id == x.todo_id) ≡ false = ground arith in
    ground (arith, get-snoc i todos todo rest)

-- A row under its title.
abbrev pub titled : ℕ → Option Todo → Option Todo
titled title none = none
titled title (some todo) = some (record todo { title = title })

module _ {W : Type 0} where
  -- What `TodoRepository.add` leaves, by how it ends.
  abbrev pub Adds : Todo → App W → Result (Unit {0}) × App W → Type 0
  Adds todo s (ok done, s') =
      (get todo.todo_id s.todos ≡ none)
      × ((i : ℕ) → get i s'.todos ≡ (if i == todo.todo_id then some todo else get i s.todos))
      × (s'.world ≡ s.world)
  Adds todo s (err x, s') =
      (x ≡ integrity_error) × (s' ≡ s) × (row : Todo) × (get todo.todo_id s.todos ≡ some row)
