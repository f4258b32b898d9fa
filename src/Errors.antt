-- ===== src/Errors.antt =====
-- anywise/errors.py: the library's exceptions, and the Python exceptions that its code can raise.
use anywise.Common.{ℕ, Bool, true, false, ◌≡◌, refl, ◌⊎◌, inl, inr}

pub data Error : Type 0 where
  -- `NotSupportedHandlerTypeError(handler)`
  not_supported_handler_type : Error
  -- `InvalidMessageTypeError(origin)`
  invalid_message_type : ℕ → Error
  -- `MessageHandlerNotFoundError`
  message_handler_not_found : Error
  -- `InvalidHandlerError(base, msg_type, handler)`
  invalid_handler : ℕ → ℕ → Error
  -- `UnregisteredMessageError(msg_type)`
  unregistered_message : ℕ → Error
  -- `DunglingGuardError(guard)`
  dungling_guard : ℕ → Error
  sink_unset : Error
  -- `UnregisteredEventError(type_id)` of anywise/messages/model.py
  unregistered_event : ℕ → Error
  -- `InvalidAppStateError` of anywise/integration/fastapi.py
  invalid_app_state : Error
  -- Python's own
  attribute_error type_error value_error index_error key_error recursion_error exception_group :
      Error
  -- anything that the user's code raises
  raised : ℕ → Error

-- `isinstance(e, HandlerRegisterFailError)`
unfoldable pub is_register_fail : Error → Bool
is_register_fail (invalid_message_type _) = true
is_register_fail message_handler_not_found = true
is_register_fail (invalid_handler _ _) = true
is_register_fail _ = false

pub data Result {ℓ} (A : Type ℓ) : Type ℓ where
  ok : A → Result A
  err : Error → Result A

pub Result-cases {ℓ} :
    {A : Type ℓ} (r : Result A) → ((a : A) × (r ≡ ok a)) ⊎ ((e : Error) × (r ≡ err e))
Result-cases (ok a) = inl (a, refl)
Result-cases (err e) = inr (e, refl)

infixl 5 ◌>>=◌ ◌>>◌
abbrev pub ◌>>=◌ {ℓ κ} : {A : Type ℓ} {B : Type κ} → Result A → (A → Result B) → Result B
ok a >>= f = f a
err e >>= f = err e

abbrev pub ◌>>◌ {ℓ κ} : {A : Type ℓ} {B : Type κ} → Result A → Result B → Result B
m >> k = m >>= λ _. k
