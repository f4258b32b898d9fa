-- ===== src/Registry/Attempts.antt =====
-- The two attempts of `_register`: as a command handler, then as an event listener.
use anywise.Common.{ℕ, true, ◌≡◌, none, some, arith, Option-cases, inl, inr}
use anywise.Errors.{Error, ok, err, is_register_fail, Result-cases}
use anywise.Classes.{ClassTable}
use anywise.Registry.{
  Target, Registry, target_metas, register_commandhandlers, register_eventlisteners,
  register_target,
}

module _ (t : ClassTable) (handler : Target) (reg : Registry) where
  -- `_register` reports that no handler fits only if the registry has both bases and the handler
  -- fits neither; then nothing has changed.
  pub register_target_refused :
      (e : Error)
      → (register_target t handler reg).0 ≡ err e
      → is_register_fail e ≡ true
      → (command_base : ℕ) × (event_base : ℕ) × (d : Error) × (reg.command_base ≡ some command_base)
        × (reg.event_base ≡ some event_base)
        × (target_metas t command_base handler ≡ err d)
        × (is_register_fail d ≡ true)
        × (target_metas t event_base handler ≡ err e)
        × ((register_target t handler reg).1 ≡ reg)
  unfolding register_target register_commandhandlers register_eventlisteners
  register_target_refused e h fails = elim (Option-cases reg.command_base) [
    | inl n ↦ absurd (ground arith)
    | inr (cb, p) ↦ elim (Option-cases reg.event_base) [
      | inl n ↦ absurd (ground arith)
      | inr (eb, q) ↦ elim (Result-cases (target_metas t cb handler)) [
        | inl (metas, m) ↦ absurd (ground arith)
        | inr (d, m) ↦ (cb, eb, d, p, q, m, ground arith, ground arith, ground arith)
      ]
    ]
  ]

  -- With a command base alone, a handler that does not fit it is accepted in silence, and nothing
  -- is registered.
  pub register_target_silent :
      (base : ℕ) (e : Error)
      → reg.command_base ≡ some base
      → reg.event_base ≡ none
      → target_metas t base handler ≡ err e
      → is_register_fail e ≡ true
      → register_target t handler reg ≡ (ok tt, reg)
  unfolding register_target register_commandhandlers register_eventlisteners
  register_target_silent base e b n m fails = ground arith
