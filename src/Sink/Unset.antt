-- ===== src/Sink/Unset.antt =====
-- When `Anywise.sink` says that no sink is set.
use anywise.Common.{◌≡◌, ◌⊎◌, ◌↔◌, inl, inr, refl, ap, Option, none, some, arith}
use anywise.Errors.{Error, Result, ok, err, attribute_error, sink_unset}
use anywise.Exec.{Exec}
use anywise.Sink.{sink_error, except_attribute_error, anywise_sink}

sink_error-cases : (e : Error) → (e ≡ attribute_error) ⊎ (sink_error e ≡ e)
sink_error-cases attribute_error = inl refl
sink_error-cases e = inr refl

masked :
    {S : Type 0} (s' : S) (out : Result (Unit {0}) × S)
    → except_attribute_error out ≡ (err sink_unset, s')
    → (out ≡ (err attribute_error, s')) ⊎ (out ≡ (err sink_unset, s'))
masked s' (ok done, s) h = absurd (ground arith)
masked s' (err e, s) h = elim (sink_error-cases e) [
  | inl is ↦ inl (ground arith)
  | inr same ↦ inr (ground arith)
]

module _ {S V : Type 0} where
  -- The sink that is set ended so itself.
  abbrev pub IsMasked : (V → Exec S (Unit {0})) → V → S → S → Type 0
  IsMasked f event s s' =
      (f event s ≡ (err attribute_error, s')) ⊎ (f event s ≡ (err sink_unset, s'))

  unset :
      (event_sink : Option (V → Exec S (Unit {0}))) (event : V) (s s' : S)
      → anywise_sink event_sink event s ≡ (err sink_unset, s')
      → ((event_sink ≡ none) × (s ≡ s'))
        ⊎ ((f : V → Exec S (Unit {0})) × (event_sink ≡ some f) × IsMasked f event s s')
  unfolding anywise_sink
  unset none event s s' h = inl (refl, ap (λ o. o.1) h)
  unset (some f) event s s' h = inr (f, refl, masked s' (f event s) h)

  -- `SinkUnsetError` is raised not only where no sink is set: a sink that is set and raises an
  -- `AttributeError` of its own is reported so too, after what it has already done.
  pub anywise_sink_unset :
      (event_sink : Option (V → Exec S (Unit {0}))) (event : V) (s s' : S)
      → (anywise_sink event_sink event s ≡ (err sink_unset, s'))
        ↔ ((event_sink ≡ none) × (s ≡ s'))
          ⊎ ((f : V → Exec S (Unit {0})) × (event_sink ≡ some f) × IsMasked f event s s')
  unfolding anywise_sink
  anywise_sink_unset event_sink event s s' = (
    unset event_sink event s s',
    λ w. elim w [
      | inl (is, same) ↦ rw (is, same) refl
      | inr (f, is, inl by) ↦ rw (is, by) refl
      | inr (f, is, inr by) ↦ rw (is, by) refl
    ],
  )
