-- ===== src/Visitor/Closure.antt =====
-- The recursion of `all_subclasses` of anywise/_visitor.py: what it collects and where it raises.
use anywise.Common.{
  ℕ, zero, suc, ◌≤◌, Bool, false, ◌||◌, any, any_elim, any_intro, refl, sym, subst, ◌<◌,
  if◌then◌else◌, true, ◌≡◌, ◌⊎◌, inl, inr, List, [], ◌∷◌, arith, ◌==◌, contains, union,
  contains-union, Bool-cases,
}
use anywise.Classes.{ClassTable, IsClassTable, subclasses, issubclass}
use anywise.Classes.Below.{Below, direct, through, newer, newer-subclass}
use anywise.Errors.{Result, ok, err, type_error}
use anywise.Visitor.{type_class, union_all, all_subclasses_from}

-- What the calls come to where none of them raises.
abbrev union_each : (ℕ → List ℕ) → List ℕ → List ℕ
union_each f [] = []
union_each f (c ∷ cs) = union (f c) (union_each f cs)

pub closure : ClassTable → ℕ → ℕ → List ℕ
closure t zero c = []
closure t (suc depth) c =
    union (union (subclasses t c) []) (union_each (closure t depth) (subclasses t c))

-- Whether one of the calls raises.
pub raises : ClassTable → ℕ → ℕ → Bool
raises t zero c = false
raises t (suc depth) c = issubclass t c type_class || any (raises t depth) (subclasses t c)

abbrev pub raised_or : Bool → List ℕ → Result (List ℕ)
raised_or r types = if r then err type_error else ok types

union_all-union_each :
    (f : ℕ → Result (List ℕ)) (r : ℕ → Bool) (g : ℕ → List ℕ) (cs : List ℕ)
    → ((c : ℕ) → f c ≡ raised_or (r c) (g c))
    → union_all f cs ≡ raised_or (any r cs) (union_each g cs)
union_all-union_each f r g [] h = refl
union_all-union_each f r g (c ∷ cs) h = elim (Bool-cases (r c)) [
  | inl is ↦ rw (h c, is)
  | inr isnt ↦ elim (Bool-cases (any r cs)) [
    | inl later ↦ rw (h c, isnt, union_all-union_each f r g cs h, later)
    | inr none_there ↦ rw (h c, isnt, union_all-union_each f r g cs h, none_there)
  ]
]

pub all_subclasses_from-closure :
    (t : ClassTable) (depth c : ℕ)
    → all_subclasses_from t depth c ≡ raised_or (raises t depth c) (closure t depth c)
unfolding all_subclasses_from raises closure
all_subclasses_from-closure t zero c = refl
all_subclasses_from-closure t (suc depth) c = elim (Bool-cases (issubclass t c type_class)) [
  | inl is ↦ rw is refl
  | inr isnt ↦ elim (Bool-cases (any (raises t depth) (subclasses t c))) [
    | inl later ↦ rw (
      isnt,
      union_all-union_each (all_subclasses_from t depth) (raises t depth) (closure t depth)
          (subclasses t c) (all_subclasses_from-closure t depth),
      later,
    )
    | inr none_there ↦ rw (
      isnt,
      union_all-union_each (all_subclasses_from t depth) (raises t depth) (closure t depth)
          (subclasses t c) (all_subclasses_from-closure t depth),
      none_there,
    )
  ]
]

union_each_elim :
    (f : ℕ → List ℕ) (e : ℕ) (cs : List ℕ)
    → contains e (union_each f cs) ≡ true
    → (c : ℕ) × (contains c cs ≡ true) × (contains e (f c) ≡ true)
union_each_elim f e [] h = absurd (ground arith)
union_each_elim f e (c ∷ cs) h = elim (Bool-cases (contains e (f c))) [
  | inl here ↦ (c, ground arith, here)
  | inr there ↦
      let (d, within, holds) =
        union_each_elim f e cs (ground (arith, contains-union e (f c) (union_each f cs))) in
      (d, ground arith, holds)
]

union_each_intro :
    (f : ℕ → List ℕ) (e c : ℕ) (cs : List ℕ)
    → contains c cs ≡ true
    → contains e (f c) ≡ true
    → contains e (union_each f cs) ≡ true
union_each_intro f e c [] h g = ground arith
union_each_intro f e c (d ∷ cs) h g = elim (Bool-cases (c == d)) [
  | inl same ↦ let e : c ≡ d = ground arith in rw (contains-union, ← e, g)
  | inr differ ↦ ground (arith, union_each_intro f e c cs, contains-union e (f d) (union_each f cs))
]

pub closure_sound :
    (t : ClassTable) (depth e c : ℕ) → contains e (closure t depth c) ≡ true → Below t e c
unfolding closure
closure_sound t zero e c h = absurd (ground arith)
closure_sound t (suc depth) e c h = elim (Bool-cases (contains e (subclasses t c))) [
  | inl here ↦ direct here
  | inr there ↦
      let (d, within, found) = union_each_elim (closure t depth) e (subclasses t c) (
        ground (
          arith,
          contains-union e (subclasses t c) [],
          contains-union e (union (subclasses t c) [])
              (union_each (closure t depth) (subclasses t c)),
        )) in
      through within (closure_sound t depth e d found)
]

pub closure_complete :
    {t : ClassTable} {e c : ℕ} (depth : ℕ)
    → IsClassTable t
    → newer t c ≤ depth
    → Below t e c
    → contains e (closure t depth c) ≡ true
unfolding closure
closure_complete {t} zero v enough (direct {e} {c} h) =
    absurd (omega (arith, newer-subclass t e c v h))
closure_complete {t} zero v enough (through {e} {d} {c} h b) =
    absurd (omega (arith, newer-subclass t d c v h))
closure_complete {t} (suc depth) v enough (direct {e} {c} h) = ground (
  arith,
  contains-union e (subclasses t c) [],
  contains-union e (union (subclasses t c) []) (union_each (closure t depth) (subclasses t c)),
)
closure_complete {t} (suc depth) v enough (through {e} {d} {c} h b) =
    let found =
      union_each_intro (closure t depth) e d (subclasses t c) h
        (closure_complete depth v (omega (arith, newer-subclass t d c v h)) b) in
    ground (
      arith,
      found,
      contains-union e (union (subclasses t c) []) (union_each (closure t depth) (subclasses t c)),
    )

pub raises_sound :
    (t : ClassTable) (depth c : ℕ)
    → raises t depth c ≡ true
    → (d : ℕ) × ((d ≡ c) ⊎ Below t d c) × (issubclass t d type_class ≡ true)
unfolding raises
raises_sound t zero c h = absurd (ground arith)
raises_sound t (suc depth) c h = elim (Bool-cases (issubclass t c type_class)) [
  | inl is ↦ (c, inl refl, is)
  | inr isnt ↦
      let (d, within, later) = any_elim (raises t depth) (subclasses t c) (ground arith) in
      let (e, either, is) = raises_sound t depth d later in
      elim either [
        | inl same ↦ (e, inr (subst (λ x. Below t x c) (sym same) (direct within)), is)
        | inr below ↦ (e, inr (through within below), is)
      ]
]

pub raises_complete :
    {t : ClassTable} {d c : ℕ} (depth : ℕ)
    → IsClassTable t
    → newer t c < depth
    → (d ≡ c) ⊎ Below t d c
    → issubclass t d type_class ≡ true
    → raises t depth c ≡ true
unfolding raises
raises_complete {t} zero v enough either is = absurd (omega arith)
raises_complete {t} (suc depth) v enough (inl same) is =
    let here = subst (λ x. issubclass t x type_class ≡ true) same is in ground arith
raises_complete {t} (suc depth) v enough (inr (direct {e} {c} h)) is =
    let later =
      any_intro (raises t depth) e (subclasses t c) h
        (raises_complete depth v (omega (arith, newer-subclass t e c v h)) (inl refl) is) in
    ground arith
raises_complete {t} (suc depth) v enough (inr (through {e} {d} {c} h b)) is =
    let later =
      any_intro (raises t depth) d (subclasses t c) h
        (raises_complete depth v (omega (arith, newer-subclass t d c v h)) (inr b) is) in
    ground arith
