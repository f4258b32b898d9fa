-- ===== src/Tests/Visitor.antt =====
-- Annotations and the types that they stand for.
use anywise.Common.{◌≡◌, refl, [], ◌∷◌}
use anywise.Errors.{ok, err, type_error, invalid_message_type}
use anywise.Classes.{subclasses, issubclass}
use anywise.Visitor.{
  Annotation, cls, union_of, annotated, generic, nil, cons, all_subclasses, all_subclasses_from,
  gather_types,
}
use anywise.Visitor.Gather.{accepts, fault, Gathers, gather_types_lem}
use anywise.Visitor.Subclasses.{AreSubclasses, all_subclasses_lem}
use anywise.Metas.{get_funcmetas}
use anywise.Metas.Laws.{Reads, get_funcmetas-Reads}
use anywise.Tests.Sample.{table, table-IsClassTable, create_user}

all_subclasses_lem_example : AreSubclasses table 10 (all_subclasses table 10)
all_subclasses_lem_example = all_subclasses_lem table 10 table-IsClassTable

-- `all_subclasses(object)` comes to `type.__subclasses__()`.
object_raises : all_subclasses table 1 ≡ err type_error
unfolding all_subclasses all_subclasses_from subclasses issubclass
object_raises = refl

abbrev either : Annotation
either = annotated (union_of (cons (cls 10) (cons (cls 21) nil))) []

gather_types_lem_example :
    Gathers table (fault table either) (accepts table either) (gather_types table either)
gather_types_lem_example = gather_types_lem table either table-IsClassTable

-- A base stands for itself and its subclasses; each class is there once.
gather_runs : gather_types table either ≡ ok (21 ∷ 12 ∷ 11 ∷ 10 ∷ [])
unfolding gather_types all_subclasses all_subclasses_from subclasses issubclass
gather_runs = refl

gather_fails :
    gather_types table (union_of (cons (cls 10) (cons (generic 50) nil)))
    ≡ err (invalid_message_type 50)
unfolding gather_types all_subclasses all_subclasses_from subclasses issubclass
gather_fails = refl

get_funcmetas-Reads_example :
    Reads table 10 create_user (cls 11) [] (get_funcmetas table 10 create_user)
get_funcmetas-Reads_example =
    get_funcmetas-Reads table 10 create_user (cls 11) [] table-IsClassTable refl
