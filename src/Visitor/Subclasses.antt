-- ===== src/Visitor/Subclasses.antt =====
-- `all_subclasses` of anywise/_visitor.py (and of anywise/messages/model.py) against `issubclass`.
use anywise.Common.{
  ℕ, suc, Bool, false, ◌&&◌, any, any_elim, any_intro, map, refl, sym, ap, subst, ◌∙◌, true, ◌≡◌,
  ◌↔◌, ◌⊎◌, inl, inr, List, [], ◌∷◌, arith, length, contains, Bool-cases,
}
use anywise.Classes.{ClassDef, ClassTable, IsClassTable, is_defined, issubclass}
use anywise.Classes.Below.{
  Below, direct, through, newer-le-length, issubclass_iff, subclass_defined,
}
use anywise.Errors.{Result, ok, err, type_error}
use anywise.Visitor.{type_class, all_subclasses}
use anywise.Visitor.Closure.{
  raised_or, closure, raises, all_subclasses_from-closure, closure_sound, closure_complete,
  raises_sound, raises_complete,
}

-- Some class at or below `c` is a metaclass, as is so of `object`.
abbrev pub has_metaclass : ClassTable → ℕ → Bool
has_metaclass t c =
    any (λ d. issubclass t d c && issubclass t d type_class) (c ∷ map (λ (d : ClassDef). d.name) t)

defined_names :
    (t : ClassTable) (d : ℕ)
    → is_defined d t ≡ true
    → contains d (map (λ (x : ClassDef). x.name) t) ≡ true
defined_names [] d h = ground arith
defined_names (x ∷ t) d h = ground (arith, defined_names t d)

Below-defined : {t : ClassTable} {e c : ℕ} → Below t e c → is_defined e t ≡ true
Below-defined {t} (direct {e} {c} h) = subclass_defined t e c h
Below-defined (through h b) = Below-defined b

has_metaclass_iff :
    (t : ClassTable) (c : ℕ)
    → IsClassTable t
    → (has_metaclass t c ≡ true)
      ↔ ((d : ℕ) × ((d ≡ c) ⊎ Below t d c) × (issubclass t d type_class ≡ true))
has_metaclass_iff t c v = (
  λ h.
      let (d, within, both) =
        any_elim (λ d. issubclass t d c && issubclass t d type_class)
          (c ∷ map (λ (d : ClassDef). d.name) t) h in
      (d, (issubclass_iff t d c v).0 (ground arith), ground arith),
  λ (d, either, is).
      let below = (issubclass_iff t d c v).1 either in
      any_intro (λ x. issubclass t x c && issubclass t x type_class) d
        (c ∷ map (λ (x : ClassDef). x.name) t)
        (elim either [
          | inl same ↦ ground arith
          | inr under ↦ ground (arith, defined_names t d (Below-defined under))
        ])
        (ground arith),
)

raises-has_metaclass :
    (t : ClassTable) (c : ℕ) → IsClassTable t → raises t (suc (length t)) c ≡ has_metaclass t c
raises-has_metaclass t c v = elim (Bool-cases (has_metaclass t c)) [
  | inl is ↦
      let (d, either, metaclass) = (has_metaclass_iff t c v).0 is in
      rw is
        (raises_complete (suc (length t)) v (omega (arith, newer-le-length t c)) either metaclass)
  | inr isnt ↦ elim (Bool-cases (raises t (suc (length t)) c)) [
    | inl raises_there ↦
        let is = (has_metaclass_iff t c v).1 (raises_sound t (suc (length t)) c raises_there) in
        absurd (ground arith)
    | inr none_there ↦ rw (isnt, none_there)
  ]
]

-- The set that is expected of `all_subclasses`, or the exception.
abbrev pub AreSubclasses : ClassTable → ℕ → Result (List ℕ) → Type 0
AreSubclasses t c (ok types) =
    (has_metaclass t c ≡ false) × ((e : ℕ) → (contains e types ≡ true) ↔ Below t e c)
AreSubclasses t c (err x) = (has_metaclass t c ≡ true) × (x ≡ type_error)

-- In a table that defines each class once, after its bases, `all_subclasses` of `c` returns, and
-- what it returns holds exactly the proper subclasses of `c`, those of subclasses included; or it
-- raises `TypeError`, exactly if `c` or a subclass of it is a metaclass, that is `type` or a
-- subclass of `type`.
pub all_subclasses_lem :
    (t : ClassTable) (c : ℕ) → IsClassTable t → AreSubclasses t c (all_subclasses t c)
unfolding all_subclasses
all_subclasses_lem t c v =
    let depth = suc (length t) in
    let computed = all_subclasses_from-closure t depth c in
    elim (Bool-cases (has_metaclass t c)) [
      | inl is ↦
          subst (AreSubclasses t c)
            (sym (
              computed
              ∙ ap (λ b. raised_or b (closure t depth c)) (raises-has_metaclass t c v ∙ is)))
            (is, refl)
      | inr isnt ↦
          subst (AreSubclasses t c)
            (sym (
              computed
              ∙ ap (λ b. raised_or b (closure t depth c)) (raises-has_metaclass t c v ∙ isnt)))
            (
              isnt,
              λ e. (
                closure_sound t depth e c,
                closure_complete depth v (omega (arith, newer-le-length t c)),
              ),
            )
    ]
