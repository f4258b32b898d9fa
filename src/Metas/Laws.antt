-- ===== src/Metas/Laws.antt =====
-- `get_funcmetas`: which types a function is registered for, and what it raises otherwise.
use anywise.Common.{
  ℕ, true, false, ◌≡◌, refl, none, some, List, [], ◌∷◌, map, arith, subst, sym, contains,
  IsDistinct, Bool-cases, inl, inr, ◌⊎◌,
}
use anywise.Errors.{Result, ok, err, invalid_handler, ◌>>=◌}
use anywise.Classes.{ClassTable, IsClassTable, issubclass}
use anywise.Visitor.{Annotation, gather_types}
use anywise.Visitor.Gather.{accepts, fault, Gathers, gather_types_lem}
use anywise.Metas.{Function, FuncMeta, build_meta, check_types, funcmetas_from, get_funcmetas}

abbrev pub Checked : ClassTable → ℕ → List ℕ → Result (Unit {0}) → Type 0
Checked t base types (ok done) = (e : ℕ) → contains e types ≡ true → issubclass t e base ≡ true
Checked t base types (err error) =
    (c : ℕ) × (error ≡ invalid_handler base c)
    × (contains c types ≡ true)
    × (issubclass t c base ≡ false)

pub check_types-Checked :
    (t : ClassTable) (base : ℕ) (types : List ℕ) → Checked t base types (check_types t base types)
unfolding check_types
check_types-Checked t base [] = λ e h. absurd (ground arith)
check_types-Checked t base (c ∷ cs) = elim (Bool-cases (issubclass t c base)) [
  | inl fits ↦ rw fits (later (check_types t base cs) (check_types-Checked t base cs) fits)
  | inr stops ↦ rw stops (c, refl, ground arith, stops)
]
  where
    later :
        (r : Result (Unit {0}))
        → Checked t base cs r
        → issubclass t c base ≡ true
        → Checked t base (c ∷ cs) r
    later (ok done) h fits = λ e within. ground (arith, h e)
    later (err error) h fits = (h.0, h.1, ground (arith, h.2), h.3)

-- What the metas of a function are, and what it is refused for.
abbrev pub Reads :
    ClassTable → ℕ → Function → Annotation → List Annotation → Result (List FuncMeta) → Type 0
Reads t base func msg rest (ok metas) =
    (types : List ℕ) × (metas ≡ map (build_meta func rest types none) types)
    × IsDistinct types
    × ((e : ℕ) → contains e types ≡ accepts t msg e)
    × ((e : ℕ) → accepts t msg e ≡ true → issubclass t e base ≡ true)
    × (fault t msg ≡ none)
Reads t base func msg rest (err error) =
    (fault t msg ≡ some error)
    ⊎ ((c : ℕ) × (error ≡ invalid_handler base c)
        × (accepts t msg c ≡ true)
        × (issubclass t c base ≡ false))

module _ (t : ClassTable) (base : ℕ) (func : Function) (msg : Annotation)
    (rest : List Annotation) where
  Reads-Checked :
      (types : List ℕ) (r : Result (Unit {0}))
      → Gathers t (fault t msg) (accepts t msg) (ok types)
      → Checked t base types r
      → Reads t base func msg rest (r >>= λ _. ok (map (build_meta func rest types none) types))
  Reads-Checked types (ok done) g c = (types, refl, g.1, g.2, λ e h. c e (rw g.2 h), g.0)
  Reads-Checked types (err error) g c = inr (c.0, c.1, rw (← g.2) (c.2), c.3)

  Reads-gathered :
      (r : Result (List ℕ))
      → Gathers t (fault t msg) (accepts t msg) r
      → Reads t base func msg rest (
          r >>= λ types.
          check_types t base types >>= λ _. ok (map (build_meta func rest types none) types))
  Reads-gathered (ok types) g =
      Reads-Checked types (check_types t base types) g (check_types-Checked t base types)
  Reads-gathered (err error) g = inl g

  -- In a table that defines each class once, after its bases: a function whose first parameter is
  -- annotated `msg` has one meta for each class that the annotation accepts, all of them subclasses
  -- of the base; it is refused only for a part of the annotation that is no class or has a
  -- metaclass at or below it, or for an accepted class outside the base.
  pub get_funcmetas-Reads :
      IsClassTable t
      → func.params ≡ msg ∷ rest
      → Reads t base func msg rest (get_funcmetas t base func)
  unfolding get_funcmetas
  get_funcmetas-Reads v e =
      subst (λ ps. Reads t base func msg rest (funcmetas_from t base func ps)) (sym e)
        (Reads-gathered (gather_types t msg) (gather_types_lem t msg v))
