-- ===== src/Metas/Bases.antt =====
-- Every meta that a handler gives stands for a subclass of the base it was read for.
use Prim.Native.String.{String}
use text.Mathlib.Text.{starts_with}
use anywise.Common.{
  ℕ, Bool, true, false, ◌≡◌, Option, none, some, List, [], ◌∷◌, ◌++◌, map, arith, contains, all,
  All, all_elim, Bool-cases, inl, inr, if◌then◌else◌,
}
use anywise.Errors.{Result, ok, err, ◌>>=◌}
use anywise.Classes.{ClassTable, issubclass}
use anywise.Visitor.{Annotation, gather_types}
use anywise.Metas.{
  Function, FuncMeta, ClassObject, build_meta, check_types, funcmetas_from, get_funcmetas,
  methodmetas_of, collect_members, found_any, get_methodmetas,
}
use anywise.Metas.Laws.{Checked, check_types-Checked}

module _ (t : ClassTable) (base : ℕ) where
  abbrev pub IsInBase : FuncMeta → Type 0
  IsInBase m = issubclass t m.message_type base ≡ true

  abbrev pub AreInBase : Result (List FuncMeta) → Type 0
  AreInBase (ok metas) = All IsInBase metas
  AreInBase (err e) = Unit

  map-IsInBase :
      (f : Function) (rest : List Annotation) (ts : List ℕ) (owner : Option ℕ) (types : List ℕ)
      → ((e : ℕ) → contains e types ≡ true → issubclass t e base ≡ true)
      → All IsInBase (map (build_meta f rest ts owner) types)
  map-IsInBase f rest ts owner [] h = tt
  map-IsInBase f rest ts owner (c ∷ types) h =
      (h c (ground arith), map-IsInBase f rest ts owner types (λ e w. h e (ground (arith, w))))

  All-append : (xs ys : List FuncMeta) → All IsInBase xs → All IsInBase ys → All IsInBase (xs ++ ys)
  All-append [] ys h k = k
  All-append (x ∷ xs) ys h k = (h.0, All-append xs ys h.1 k)

  Checked-AreInBase :
      (f : Function) (rest : List Annotation) (types : List ℕ) (r : Result (Unit {0}))
      → Checked t base types r
      → AreInBase (r >>= λ _. ok (map (build_meta f rest types none) types))
  Checked-AreInBase f rest types (ok done) h = map-IsInBase f rest types none types h
  Checked-AreInBase f rest types (err e) h = tt

  gathered-AreInBase :
      (f : Function) (rest : List Annotation) (r : Result (List ℕ))
      → AreInBase (
          r >>= λ types.
          check_types t base types >>= λ _. ok (map (build_meta f rest types none) types))
  gathered-AreInBase f rest (ok types) =
      Checked-AreInBase f rest types (check_types t base types) (check_types-Checked t base types)
  gathered-AreInBase f rest (err e) = tt

  funcmetas_from-AreInBase :
      (f : Function) (ps : List Annotation) → AreInBase (funcmetas_from t base f ps)
  funcmetas_from-AreInBase f [] = tt
  funcmetas_from-AreInBase f (msg ∷ rest) = gathered-AreInBase f rest (gather_types t msg)

  pub get_funcmetas-AreInBase : (f : Function) → AreInBase (get_funcmetas t base f)
  unfolding get_funcmetas
  get_funcmetas-AreInBase f = funcmetas_from-AreInBase f f.params

  methods-AreInBase :
      (owner : ℕ) (f : Function) (rest : List Annotation) (r : Result (List ℕ))
      → AreInBase (
          r >>= λ types. ok (
            if all (λ c. issubclass t c base) types
            then map (build_meta f rest types (some owner)) types
            else []))
  methods-AreInBase owner f rest (err e) = tt
  methods-AreInBase owner f rest (ok types) =
      elim (Bool-cases (all (λ c. issubclass t c base) types)) [
        | inl fit ↦ rw fit (
            map-IsInBase f rest types (some owner) types
              (λ e w. all_elim (λ c. issubclass t c base) e types fit w))
        | inr stop ↦ rw stop tt
      ]

  methodmetas_of-AreInBase :
      (owner : ℕ) (f : Function) (ps : List Annotation)
      → AreInBase (methodmetas_of t base owner f ps)
  unfolding methodmetas_of
  methodmetas_of-AreInBase owner f [] = tt
  methodmetas_of-AreInBase owner f (self ∷ []) = tt
  methodmetas_of-AreInBase owner f (self ∷ msg ∷ rest) =
      methods-AreInBase owner f rest (gather_types t msg)

  append-AreInBase :
      (r s : Result (List FuncMeta))
      → AreInBase r
      → AreInBase s
      → AreInBase (r >>= λ xs. s >>= λ ys. ok (xs ++ ys))
  append-AreInBase (ok xs) (ok ys) h k = All-append xs ys h k
  append-AreInBase (ok xs) (err e) h k = tt
  append-AreInBase (err e) s h k = tt

  if-AreInBase :
      (b : Bool) (r : Result (List FuncMeta)) → AreInBase r → AreInBase (if b then ok [] else r)
  if-AreInBase true r h = tt
  if-AreInBase false r h = h

  collect_members-AreInBase :
      (owner : ℕ) (members : List (String × Function))
      → AreInBase (collect_members t base owner members)
  unfolding collect_members
  collect_members-AreInBase owner [] = tt
  collect_members-AreInBase owner ((name, f) ∷ members) =
      append-AreInBase
        (if starts_with name "_" then ok [] else methodmetas_of t base owner f f.params)
        (collect_members t base owner members)
        (if-AreInBase (starts_with name "_") (methodmetas_of t base owner f f.params)
          (methodmetas_of-AreInBase owner f f.params))
        (collect_members-AreInBase owner members)

  found-AreInBase :
      (r : Result (List FuncMeta)) → AreInBase r → AreInBase (r >>= λ metas. found_any metas)
  found-AreInBase (ok []) h = tt
  found-AreInBase (ok (m ∷ ms)) h = h
  found-AreInBase (err e) h = tt

  pub get_methodmetas-AreInBase : (c : ClassObject) → AreInBase (get_methodmetas t base c)
  unfolding get_methodmetas
  get_methodmetas-AreInBase c =
      found-AreInBase (collect_members t base c.ref c.members)
        (collect_members-AreInBase c.ref c.members)
