-- ===== src/Visitor.antt =====
-- anywise/_visitor.py: `all_subclasses` and `gather_types`, over Python annotations.
pub mod Closure
pub mod Subclasses
pub mod Gather
use anywise.Common.{
  ℕ, zero, suc, List, [], ◌∷◌, union, Bool, true, false, length, add, if◌then◌else◌,
}
use anywise.Errors.{Result, ok, err, invalid_message_type, attribute_error, type_error, ◌>>=◌}
use anywise.Classes.{ClassTable, subclasses, issubclass}

-- What `inspect` finds as the annotation of a parameter.
mutual
  pub data Annotation : Type 0 where
    -- `inspect.Signature.empty`
    empty : Annotation
    -- a class, `Any` among them
    cls : ℕ → Annotation
    -- `Annotated[a, ...]` and its metadata
    annotated : Annotation → List ℕ → Annotation
    -- `Union[...]` or `X | Y`
    union_of : Annotations → Annotation
    -- another generic, such as `list[int]`, with its origin
    generic : ℕ → Annotation
    -- a `type` alias, such as `Context[dict]`: whether it is subscripted, its own identity as an
    -- origin, and the metadata of its `__value__`
    alias : Bool → ℕ → List ℕ → Annotation
    -- a string or another object that is no class and has no origin
    other : Annotation

  pub data Annotations : Type 0 where
    nil : Annotations
    cons : Annotation → Annotations → Annotations

-- The class `type`. In a class below it, a metaclass, `cls.__subclasses__` is the plain function of
-- `type`, and its call lacks an argument.
abbrev pub type_class : ℕ
type_class = 3

-- `set().union(*[...])` over the results of the recursive calls.
abbrev pub union_all : (ℕ → Result (List ℕ)) → List ℕ → Result (List ℕ)
union_all f [] = ok []
union_all f (c ∷ cs) = f c >>= λ found. union_all f cs >>= λ rest. ok (union found rest)

-- `all_subclasses`, on fuel: the depth of the class hierarchy.
unfoldable pub all_subclasses_from : ClassTable → ℕ → ℕ → Result (List ℕ)
all_subclasses_from t zero c = ok []
all_subclasses_from t (suc depth) c =
    if issubclass t c type_class
    then err type_error
    else union_all (all_subclasses_from t depth) (subclasses t c) >>= λ found.
        ok (union (union (subclasses t c) []) found)

unfoldable pub all_subclasses : ClassTable → ℕ → Result (List ℕ)
unfolding all_subclasses_from
all_subclasses t c = all_subclasses_from t (suc (length t)) c

-- `types.add(annotation); types |= all_subclasses(annotation)`
abbrev pub direct_types : ClassTable → ℕ → Result (List ℕ)
direct_types t c = all_subclasses t c >>= λ found. ok (union found (c ∷ []))

unfoldable mutual
  pub gather_types : ClassTable → Annotation → Result (List ℕ)
  gather_types t empty = ok []
  gather_types t (cls c) = direct_types t c
  gather_types t (annotated a metadata) = gather_types t a
  gather_types t (union_of args) = gather_args t args
  gather_types t (generic origin) = err (invalid_message_type origin)
  gather_types t (alias true origin metadata) = err (invalid_message_type origin)
  gather_types t (alias false origin metadata) = err attribute_error
  gather_types t other = err attribute_error

  -- `for arg in get_args(annotation): types.update(gather_types(arg))`
  pub gather_args : ClassTable → Annotations → Result (List ℕ)
  gather_args t nil = ok []
  gather_args t (cons a args) = do
    found ← gather_types t a
    rest ← gather_args t args
    ok (union rest found)
