-- ===== src/Classes/Below.antt =====
-- The subclass relation of a class table, which `issubclass` decides, and how far a class can be
-- from the newest one.
use anywise.Common.{
  ℕ, suc, ◌≤◌, ◌<◌, true, false, ◌≡◌, ◌⊎◌, inl, inr, [], ◌∷◌, arith, ◌==◌, length, contains, any,
  any_elim, any_intro, All_elim, if◌then◌else◌, Bool-cases, subst, ◌↔◌,
}
use anywise.Classes.{ClassDef, ClassTable, is_defined, IsClassTable, subclasses, issubclass}

-- `e` is a proper subclass of `c`.
pub data Below (t : ClassTable) : ℕ → ℕ → Type 0 where
  direct : {e c : ℕ} → contains e (subclasses t c) ≡ true → Below t e c
  through : {e d c : ℕ} → contains d (subclasses t c) ≡ true → Below t e d → Below t e c

-- How many classes are newer than `c`.
abbrev pub newer : ClassTable → ℕ → ℕ
newer [] c = 0
newer (d ∷ t) c = if c == d.name then 0 else suc (newer t c)

pub newer-le-length : (t : ClassTable) (c : ℕ) → newer t c ≤ length t
newer-le-length [] c = omega arith
newer-le-length (d ∷ t) c = ground (arith, newer-le-length t c)

pub subclass_defined :
    (t : ClassTable) (d c : ℕ) → contains d (subclasses t c) ≡ true → is_defined d t ≡ true
unfolding subclasses
subclass_defined [] d c h = h
subclass_defined (x ∷ t) d c h = ground (arith, subclass_defined t d c)

base_defined :
    (t : ClassTable) (d c : ℕ)
    → IsClassTable t
    → contains d (subclasses t c) ≡ true
    → is_defined c t ≡ true
unfolding subclasses
base_defined [] d c v h = h
base_defined (x ∷ t) d c v h = elim (Bool-cases (contains c x.bases)) [
  | inl e ↦ ground (arith, All_elim (λ b. is_defined b t ≡ true) c x.bases v.1 e)
  | inr e ↦ ground (arith, base_defined t d c v.2)
]

-- A subclass is newer than its base.
pub newer-subclass :
    (t : ClassTable) (d c : ℕ)
    → IsClassTable t
    → contains d (subclasses t c) ≡ true
    → newer t d < newer t c
unfolding subclasses
newer-subclass [] d c v h = ground arith
newer-subclass (x ∷ t) d c v h = elim (Bool-cases (contains c x.bases)) [
  | inl e ↦
      let known = All_elim (λ b. is_defined b t ≡ true) c x.bases v.1 e in
      ground (arith, known, subclass_defined t d c, newer-subclass t d c v.2)
  | inr e ↦ ground (arith, base_defined t d c v.2, subclass_defined t d c, newer-subclass t d c v.2)
]

subclasses_older :
    (x : ClassDef) (t : ClassTable) (d c : ℕ)
    → contains d (subclasses t c) ≡ true
    → contains d (subclasses (x ∷ t) c) ≡ true
unfolding subclasses
subclasses_older x t d c h = ground arith

Below-older : {t : ClassTable} {e c : ℕ} (x : ClassDef) → Below t e c → Below (x ∷ t) e c
Below-older {t} x (direct {e} {c} h) = direct (subclasses_older x t e c h)
Below-older {t} x (through {d = d} {c = c} h b) =
    through (subclasses_older x t d c h) (Below-older x b)

Below-extend :
    {t : ClassTable} {d c : ℕ} (e : ℕ)
    → contains e (subclasses t d) ≡ true
    → Below t d c
    → Below t e c
Below-extend e h (direct g) = through g (direct h)
Below-extend e h (through g b) = through g (Below-extend e h b)

issubclass_refl : (t : ClassTable) (c : ℕ) → issubclass t c c ≡ true
unfolding issubclass
issubclass_refl [] c = ground arith
issubclass_refl (x ∷ t) c = ground (arith, issubclass_refl t c)

-- A class that is not in the table has no subclass but itself.
issubclass_undefined :
    (t : ClassTable) (e c : ℕ)
    → IsClassTable t
    → is_defined c t ≡ false
    → issubclass t e c ≡ true
    → e ≡ c
unfolding issubclass
issubclass_undefined [] e c v u h = ground arith
issubclass_undefined (x ∷ t) e c v u h = elim (Bool-cases (any (λ b. issubclass t b c) x.bases)) [
  | inl found ↦
      let (b, within, below) = any_elim (λ b. issubclass t b c) x.bases found in
      ground (
        arith,
        All_elim (λ b. is_defined b t ≡ true) b x.bases v.1 within,
        issubclass_undefined t b c v.2,
        issubclass_undefined t e c v.2,
      )
  | inr none_found ↦ ground (arith, issubclass_undefined t e c v.2)
]

issubclass-subclass :
    (t : ClassTable) (e d c : ℕ)
    → IsClassTable t
    → issubclass t e d ≡ true
    → contains d (subclasses t c) ≡ true
    → issubclass t e c ≡ true
unfolding issubclass subclasses
issubclass-subclass [] e d c v h s = ground arith
issubclass-subclass (x ∷ t) e d c v h s = elim (Bool-cases (contains d (subclasses t c))) [
  | inl older ↦ elim (Bool-cases (any (λ b. issubclass t b d) x.bases)) [
    | inl found ↦
        let (b, within, below) = any_elim (λ b. issubclass t b d) x.bases found in
        let goes =
          any_intro (λ b. issubclass t b c) b x.bases within
            (issubclass-subclass t b d c v.2 below older) in
        ground (arith, goes, issubclass-subclass t e d c v.2)
    | inr missed ↦ ground (arith, subclass_defined t d c older, issubclass-subclass t e d c v.2)
  ]
  | inr newest ↦ elim (Bool-cases (contains c x.bases)) [
    | inl base ↦
        let goes = any_intro (λ b. issubclass t b c) c x.bases base (issubclass_refl t c) in
        elim (Bool-cases (any (λ b. issubclass t b d) x.bases)) [
          | inl found ↦
              let (b, within, below) = any_elim (λ b. issubclass t b d) x.bases found in
              ground (
                arith,
                goes,
                issubclass_undefined t e d v.2,
                issubclass_undefined t b d v.2,
                All_elim (λ b. is_defined b t ≡ true) b x.bases v.1 within,
              )
          | inr missed ↦ ground (arith, goes, issubclass_undefined t e d v.2)
        ]
    | inr unrelated ↦ ground arith
  ]
]

-- What `issubclass` finds is the class itself or a proper subclass.
issubclass_sound : (t : ClassTable) (e c : ℕ) → issubclass t e c ≡ true → (e ≡ c) ⊎ Below t e c
unfolding issubclass subclasses
issubclass_sound [] e c h = inl (ground arith)
issubclass_sound (x ∷ t) e c h = elim (Bool-cases (e == x.name)) [
  | inl here ↦ elim (Bool-cases (e == c)) [
    | inl same ↦ inl (ground arith)
    | inr differ ↦
        let (b, within, below) = any_elim (λ b. issubclass t b c) x.bases (ground arith) in
        inr (elim (issubclass_sound t b c below) [
          | inl base ↦ direct (ground arith)
          | inr far ↦ Below-extend e (ground arith) (Below-older x far)
        ])
  ]
  | inr older ↦ elim (issubclass_sound t e c (ground arith)) [
    | inl same ↦ inl same
    | inr below ↦ inr (Below-older x below)
  ]
]

issubclass_complete :
    {t : ClassTable} {e c : ℕ} → IsClassTable t → Below t e c → issubclass t e c ≡ true
issubclass_complete {t} v (direct {e} {c} h) = issubclass-subclass t e e c v (issubclass_refl t e) h
issubclass_complete {t} v (through {e} {d} {c} h b) =
    issubclass-subclass t e d c v (issubclass_complete v b) h

pub issubclass_iff :
    (t : ClassTable) (e c : ℕ)
    → IsClassTable t
    → (issubclass t e c ≡ true) ↔ ((e ≡ c) ⊎ Below t e c)
issubclass_iff t e c v = (
  issubclass_sound t e c,
  λ either. elim either [
    | inl same ↦ subst (λ k. issubclass t e k ≡ true) same (issubclass_refl t e)
    | inr below ↦ issubclass_complete v below
  ],
)
