-- ===== src/Messages/Entity.antt =====
-- `Entity` and `PydanticEntity` of anywise/messages/model.py. An entity is a mutable object: its `apply`
-- may change it, and returns a value.
use anywise.Common.{◌≡◌, refl, List, [], ◌∷◌}
use anywise.Errors.{Result, ok, err, index_error}
use anywise.Exec.{Exec, skip, ◌>>◌}

-- The entity after the loop, or the exception.
abbrev pub outcome : {S : Type 0} → Result (Unit {0}) × S → Result S
outcome (ok done, self) = ok self
outcome (err e, self) = err e

module _ {S E : Type 0} where
  -- `for e in rest: self.apply(e)`
  unfoldable pub apply_each : (E → Exec S S) → List E → Exec S (Unit {0})
  apply_each apply [] = skip
  apply_each apply (e ∷ rest) = apply e >> apply_each apply rest

  abbrev pub rebuild_rest : (E → Exec S S) → List E → Result S → Result S
  rebuild_rest apply rest (err e) = err e
  rebuild_rest apply rest (ok self) = outcome (apply_each apply rest self)

  -- `rebuild`, by what `apply` does on the class and on an entity
  unfoldable pub rebuild : (E → Result S) → (E → Exec S S) → List E → Result S
  rebuild apply_cls apply [] = err index_error
  rebuild apply_cls apply (create ∷ rest) = rebuild_rest apply rest (apply_cls create)

  -- Applying the events one after the other to an entity that each of them changes.
  abbrev pub fold : (E → S → S) → List E → S → S
  fold change [] self = self
  fold change (e ∷ rest) self = fold change rest (change e self)

  -- What an `apply` that raises nothing leaves of the entity is all that counts.
  apply_each-fold :
      (apply : E → Exec S S) (change result : E → S → S) (rest : List E) (self : S)
      → ((e : E) (s : S) → apply e s ≡ (ok (result e s), change e s))
      → apply_each apply rest self ≡ (ok tt, fold change rest self)
  unfolding apply_each
  apply_each-fold apply change result [] self does = refl
  apply_each-fold apply change result (e ∷ rest) self does =
      rw (does e self) (apply_each-fold apply change result rest (change e self) does)

  -- If `apply` raises nothing, `rebuild` applies the events in their order to the entity that the
  -- first one makes, and keeps what they change in it; what `apply` returns is dropped, so an
  -- entity whose `apply` returns a new one stays as it was made.
  pub rebuild-fold :
      (apply_cls : E → Result S) (apply : E → Exec S S) (change result : E → S → S) (create : E)
      (rest : List E) (self : S)
      → ((e : E) (s : S) → apply e s ≡ (ok (result e s), change e s))
      → apply_cls create ≡ ok self
      → rebuild apply_cls apply (create ∷ rest) ≡ ok (fold change rest self)
  unfolding rebuild
  rebuild-fold apply_cls apply change result create rest self does made =
      rw (made, apply_each-fold apply change result rest self does) refl
