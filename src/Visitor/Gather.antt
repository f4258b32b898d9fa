-- ===== src/Visitor/Gather.antt =====
-- `gather_types` against the classes that an annotation names.
use anywise.Common.{
  ℕ, inl, inr, Bool-cases, ap, sym, [], ◌∷◌, ◌==◌, if◌then◌else◌, true, false, Bool, ◌≡◌, refl,
  ◌||◌, Option, none, some, List, arith, contains, union, IsDistinct, contains-union,
  union-IsDistinct,
}
use anywise.Errors.{
  Error, Result, ok, err, invalid_message_type, attribute_error, type_error, ◌>>=◌,
}
use anywise.Classes.Below.{issubclass_iff}
use anywise.Classes.{ClassTable, IsClassTable, issubclass}
use anywise.Visitor.{
  Annotation, Annotations, empty, cls, annotated, union_of, generic, alias, other, nil, cons,
  all_subclasses, gather_types, gather_args,
}
use anywise.Visitor.Subclasses.{has_metaclass, AreSubclasses, all_subclasses_lem}

-- Whether `e` is a subclass of a class that the annotation names, under any nesting of
-- `Annotated` and unions.
unfoldable mutual
  pub accepts : ClassTable → Annotation → ℕ → Bool
  accepts t (cls c) e = issubclass t e c
  accepts t (annotated a metadata) e = accepts t a e
  accepts t (union_of args) e = accepts_any t args e
  accepts t _ e = false

  pub accepts_any : ClassTable → Annotations → ℕ → Bool
  accepts_any t nil e = false
  accepts_any t (cons a args) e = accepts t a e || accepts_any t args e

-- The complaint about the first part, from the left, that is no class.
abbrev or_else : Option Error → Option Error → Option Error
or_else none b = b
or_else (some e) b = some e

unfoldable mutual
  pub fault : ClassTable → Annotation → Option Error
  fault t empty = none
  fault t (cls c) = if has_metaclass t c then some type_error else none
  fault t (annotated a metadata) = fault t a
  fault t (union_of args) = fault_any t args
  fault t (generic origin) = some (invalid_message_type origin)
  fault t (alias true origin metadata) = some (invalid_message_type origin)
  fault t (alias false origin metadata) = some attribute_error
  fault t other = some attribute_error

  pub fault_any : ClassTable → Annotations → Option Error
  fault_any t nil = none
  fault_any t (cons a args) = or_else (fault t a) (fault_any t args)

-- The set that is expected for an annotation, or the exception.
abbrev pub Gathers : ClassTable → Option Error → (ℕ → Bool) → Result (List ℕ) → Type 0
Gathers t complaint accepted (ok types) =
    (complaint ≡ none) × IsDistinct types × ((e : ℕ) → contains e types ≡ accepted e)
Gathers t complaint accepted (err error) = complaint ≡ some error

Gathers-union :
    (t : ClassTable) (f g : Option Error) (p q : ℕ → Bool) (r s : Result (List ℕ))
    → Gathers t f p r
    → Gathers t g q s
    → Gathers t (or_else f g) (λ e. p e || q e) (r >>= λ found. s >>= λ rest. ok (union rest found))
Gathers-union t f g p q (ok x) (ok y) h k = (
  ground arith,
  union-IsDistinct y x h.1,
  λ e. ground (arith, contains-union e y x, h.2 e, k.2 e),
)
Gathers-union t f g p q (ok x) (err e) h k = ground arith
Gathers-union t f g p q (err e) s h k = ground arith

direct_types-Gathers :
    (t : ClassTable) (c : ℕ)
    → IsClassTable t
    → (r : Result (List ℕ)) → AreSubclasses t c r
    → Gathers t
        (if has_metaclass t c then some type_error else none)
        (λ e. issubclass t e c)
        (r >>= λ found. ok (union found (c ∷ [])))
direct_types-Gathers t c v (err x) (is, same) = rw is (ap some (sym same))
direct_types-Gathers t c v (ok types) (isnt, exact) = (
  rw isnt refl,
  union-IsDistinct types (c ∷ []) (ground arith),
  λ e. elim (Bool-cases (issubclass t e c)) [
    | inl is ↦ elim ((issubclass_iff t e c v).0 is) [
      | inl same ↦ ground (arith, contains-union e types (c ∷ []))
      | inr below ↦ let found = (exact e).1 below in ground (arith, contains-union e types (c ∷ []))
    ]
    | inr out ↦ elim (Bool-cases (contains e types)) [
      | inl found ↦
          let is = (issubclass_iff t e c v).1 (inr ((exact e).0 found)) in absurd (ground arith)
      | inr missing ↦ elim (Bool-cases (e == c)) [
        | inl same ↦
            let is = (issubclass_iff t e c v).1 (inl (ground arith)) in absurd (ground arith)
        | inr differ ↦ ground (arith, contains-union e types (c ∷ []))
      ]
    ]
  ],
)

mutual
  unfolding gather_types accepts fault

  gather_types-Gathers :
      (t : ClassTable) (a : Annotation)
      → IsClassTable t
      → Gathers t (fault t a) (accepts t a) (gather_types t a)
  gather_types-Gathers t empty v = (refl, tt, λ e. refl)
  gather_types-Gathers t (cls c) v =
      direct_types-Gathers t c v (all_subclasses t c) (all_subclasses_lem t c v)
  gather_types-Gathers t (annotated a metadata) v = gather_types-Gathers t a v
  gather_types-Gathers t (union_of args) v = gather_args-Gathers t args v
  gather_types-Gathers t (generic origin) v = refl
  gather_types-Gathers t (alias true origin metadata) v = refl
  gather_types-Gathers t (alias false origin metadata) v = refl
  gather_types-Gathers t other v = refl

  gather_args-Gathers :
      (t : ClassTable) (args : Annotations)
      → IsClassTable t
      → Gathers t (fault_any t args) (accepts_any t args) (gather_args t args)
  gather_args-Gathers t nil v = (refl, tt, λ e. refl)
  gather_args-Gathers t (cons a args) v =
      Gathers-union t (fault t a) (fault_any t args) (accepts t a) (accepts_any t args)
        (gather_types t a) (gather_args t args) (gather_types-Gathers t a v)
        (gather_args-Gathers t args v)

-- In a table that defines each class once, after its bases, `gather_types` returns, without
-- repetition, exactly the classes that are subclasses of a class named in the annotation; it raises
-- exactly when a part is no class, or is a class with a metaclass at or below it, such as `object`,
-- with the exception of the first such part from the left.
pub gather_types_lem :
    (t : ClassTable) (a : Annotation)
    → IsClassTable t
    → Gathers t (fault t a) (accepts t a) (gather_types t a)
gather_types_lem t a v = gather_types-Gathers t a v
