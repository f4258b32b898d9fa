-- ===== src/Tests/Demo.antt =====
-- The demo application.
use anywise.Common.{ℕ, ◌≡◌, [], ◌∷◌, false}
use anywise.Errors.{ok}
use anywise.Demo.{Todo, todo_created, todo_retitled, rebuild, App}
use anywise.Demo.Rebuild.{rebuild_lem}

abbrev first : Todo
first = record { todo_id = 5; title = 1; content = 2; is_completed = false }

abbrev app : App ℕ
app = record { todos = first ∷ []; world = 0 }

rebuild_lem_example :
    rebuild (todo_created 5 1 2 ∷ todo_retitled 5 7 ∷ [])
    ≡ ok (record { todo_id = 5; title = 7; content = 2; is_completed = false })
rebuild_lem_example = rebuild_lem 5 1 2 (todo_retitled 5 7 ∷ [])
