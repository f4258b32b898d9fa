-- ===== src/Demo.antt =====
-- The demo application: the todos and their events of demo/message.py, and the repository of
-- demo/todo.py, whose table is a list of rows.
pub mod Rebuild
pub mod Tables
pub mod Api
use anywise.Common.{
  ℕ, Bool, true, false, Option, none, some, List, [], ◌∷◌, ◌++◌, ◌==◌, if◌then◌else◌,
}
use anywise.Errors.{Error, Result, ok, err, raised, key_error, type_error, index_error}
use anywise.Exec.{Exec, pure, raise, lift, gets, modify, ◌>>=◌, ◌>>◌}
use anywise.Messages.EventStore.{all_event_streams}

pub record Todo : Type 0 where
  pub todo_id : ℕ
  pub title : ℕ
  pub content : ℕ
  pub is_completed : Bool

-- `TodoCreated` and `TodoRetitled`
pub data TodoEvent : Type 0 where
  todo_created : ℕ → ℕ → ℕ → TodoEvent
  todo_retitled : ℕ → ℕ → TodoEvent

abbrev pub entity_id : TodoEvent → ℕ
entity_id (todo_created i title content) = i
entity_id (todo_retitled i title) = i

-- `Todo.apply(event)` on the class: the registered method lacks its second argument there.
unfoldable pub apply_cls : TodoEvent → Result Todo
apply_cls (todo_created i title content) =
    ok (record { todo_id = i; title = title; content = content; is_completed = false })
apply_cls (todo_retitled i title) = err type_error

-- `todo.apply(event)` on an instance, as it is afterwards: a creation makes another todo.
unfoldable pub apply : TodoEvent → Todo → Todo
apply (todo_created i title content) todo = todo
apply (todo_retitled i title) todo = record todo { title = title }

-- `for e in rest: self.apply(e)`
unfoldable pub apply_all : List TodoEvent → Todo → Todo
apply_all [] todo = todo
apply_all (e ∷ rest) todo = apply_all rest (apply e todo)

abbrev pub apply_rest : List TodoEvent → Result Todo → Result Todo
apply_rest rest (err e) = err e
apply_rest rest (ok todo) = ok (apply_all rest todo)

-- `Todo.rebuild`
unfoldable pub rebuild : List TodoEvent → Result Todo
rebuild [] = err index_error
rebuild (create ∷ rest) = apply_rest rest (apply_cls create)

-- The table `todos`, and the rest of the application.
pub record App (W : Type 0) : Type 0 where
  pub todos : List Todo
  pub world : W

-- `IntegrityError`
abbrev pub integrity_error : Error
integrity_error = raised 0

-- `select(TodoTable).where(TodoTable.todo_id == todo_id)`, of which there is one at most
unfoldable pub get : ℕ → List Todo → Option Todo
get i [] = none
get i (todo ∷ todos) = let rest = get i todos in if i == todo.todo_id then some todo else rest

-- `update(TodoTable).values(title=title).where(TodoTable.todo_id == todo_id)`
unfoldable pub retitle : ℕ → ℕ → List Todo → List Todo
retitle i title [] = []
retitle i title (todo ∷ todos) =
    let rest = retitle i title todos in
    (if i == todo.todo_id then record todo { title = title } else todo) ∷ rest

module _ {W : Type 0} where
  abbrev pub insert_row : Todo → Option Todo → Exec (App W) (Unit {0})
  insert_row todo (some row) = raise integrity_error
  insert_row todo none = modify λ s. record s { todos = s.todos ++ todo ∷ [] }

  -- `TodoRepository.add`; the column `todo_id` is unique.
  unfoldable pub repo_add : Todo → Exec (App W) (Unit {0})
  repo_add todo s = insert_row todo (get todo.todo_id s.todos) s
