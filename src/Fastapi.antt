-- ===== src/Fastapi.antt =====
-- anywise/integration/fastapi.py: the `Anywise` that a request finds.
use anywise.Common.{ℕ, none, some}
use anywise.Common.Dict.{Dict, lookup}
use anywise.Errors.{Result, ok, err, invalid_app_state, key_error, ◌>>=◌}

-- The keys "state" and "anywise".
abbrev pub state_key : ℕ
state_key = 0

abbrev pub anywise_key : ℕ
anywise_key = 1

-- `d[key]`
abbrev pub get_item {ℓ} : {A : Type ℓ} → ℕ → Dict A → Result A
get_item key d = elim (lookup key d) [ none ↦ err key_error | some a ↦ ok a ]

-- `except KeyError: raise InvalidAppStateError()`
abbrev pub except_key_error {ℓ} : {A : Type ℓ} → Result A → Result A
except_key_error (err key_error) = err invalid_app_state
except_key_error r = r

-- `get_anywise`; the values of `r.scope` are dicts here.
unfoldable pub get_anywise : {A : Type 0} → Dict (Dict A) → Result A
get_anywise scope = except_key_error (get_item state_key scope >>= get_item anywise_key)
