-- ===== src/Classes.antt =====
-- Python's class objects, as far as the code asks about them: `cls.__subclasses__()` and
-- `issubclass`. A class statement names classes that exist already, so the classes of a program
-- are a list in the order of definition, the newest first, with `object` and `type` at its end.
pub mod Below
use anywise.Common.{
  ℕ, Bool, true, false, List, [], ◌∷◌, ◌==◌, ◌||◌, contains, any, All, if◌then◌else◌, ◌≡◌,
}

pub record ClassDef : Type 0 where
  pub name : ℕ
  pub bases : List ℕ

abbrev pub ClassTable : Type 0
ClassTable = List ClassDef

abbrev pub is_defined : ℕ → ClassTable → Bool
is_defined c [] = false
is_defined c (d ∷ t) = c == d.name || is_defined c t

-- Each class is defined once, after its bases.
abbrev pub IsClassTable : ClassTable → Type 0
IsClassTable [] = Unit
IsClassTable (d ∷ t) =
    (is_defined d.name t ≡ false) × All (λ b. is_defined b t ≡ true) d.bases × IsClassTable t

-- `cls.__subclasses__()`: the classes that name `cls` among their bases
unfoldable pub subclasses : ClassTable → ℕ → List ℕ
subclasses [] c = []
subclasses (d ∷ t) c =
    let rest = subclasses t c in if contains c d.bases then d.name ∷ rest else rest

-- `issubclass(c, base)`: `base` is `c` itself or is reached from `c` through bases
unfoldable pub issubclass : ClassTable → ℕ → ℕ → Bool
issubclass [] c base = c == base
issubclass (d ∷ t) c base =
    let here = c == base || any (λ b. issubclass t b base) d.bases in
    let older = issubclass t c base in if c == d.name then here else older
