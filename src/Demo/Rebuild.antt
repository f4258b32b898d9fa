-- ===== src/Demo/Rebuild.antt =====
-- Todos that are rebuilt from their events.
use anywise.Common.{ℕ, false, ◌≡◌, refl, ap, List, [], ◌∷◌}
use anywise.Errors.{ok}
use anywise.Demo.{
  Todo, TodoEvent, todo_created, todo_retitled, apply, apply_all, apply_cls, rebuild,
}

-- The title that the last renaming gave.
abbrev pub last_title : List TodoEvent → ℕ → ℕ
last_title [] title = title
last_title (todo_created i t c ∷ rest) title = last_title rest title
last_title (todo_retitled i t ∷ rest) title = last_title rest t

apply_all_lem :
    (rest : List TodoEvent) (todo : Todo)
    → apply_all rest todo ≡ record todo { title = last_title rest todo.title }
unfolding apply_all apply
apply_all_lem [] todo = refl
apply_all_lem (todo_created i t c ∷ rest) todo = apply_all_lem rest todo
apply_all_lem (todo_retitled i t ∷ rest) todo = apply_all_lem rest (record todo { title = t })

-- A todo that is rebuilt from its creation and what followed has the id and the content of the
-- creation and the title of the last renaming.
pub rebuild_lem :
    (i title content : ℕ) (rest : List TodoEvent)
    → rebuild (todo_created i title content ∷ rest)
      ≡ ok (record {
        todo_id = i;
        title = last_title rest title;
        content = content;
        is_completed = false;
      })
unfolding rebuild apply_cls
rebuild_lem i title content rest = ap ok (apply_all_lem rest _)
