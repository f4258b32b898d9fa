-- ===== src/Registry/Guards.antt =====
-- What registering guards and hooks does to the guard mapping of a registry.
use anywise.Common.{
  ℕ, suc, ◌+◌, ◌≤◌, ◌<◌, true, ◌≡◌, ◌≢◌, refl, Option, none, some, List, [], ◌∷◌, ◌++◌, arith,
  contains, IsDistinct, subst, sym, if◌then◌else◌, ◌==◌, length,
}
use anywise.Common.Dict.{get_list, get_list-extend}
use anywise.Errors.{Result, ok, err}
use anywise.Exec.{lift, modify, ◌>>=◌}
use anywise.Classes.{ClassTable, IsClassTable}
use anywise.Visitor.{Annotation, gather_types}
use anywise.Visitor.Gather.{accepts, fault, Gathers, gather_types_lem}
use anywise.Metas.{Function, ClassObject}
use anywise.Registry.{
  Target, function, GuardRef, instance_of, guard_class, GuardMeta, guard_type, Registry,
  append_guard, add_hooks, add_guard, first_types, get_guardtarget, pre_handle, post_handle,
  add_guards,
}

-- The place of a type among the targets.
abbrev pub index : ℕ → List ℕ → ℕ
index e [] = 0
index e (x ∷ xs) = if e == x then 0 else suc (index e xs)

abbrev pub meta_of : ℕ → GuardRef → GuardMeta
meta_of target guard = record { guard_target = target; guard = guard }

get_list-append_guard :
    (target e : ℕ) (guard : GuardRef) (reg : Registry)
    → get_list e (append_guard target guard reg).guard_mapping ≡ (
        if e == target
        then get_list e reg.guard_mapping ++ meta_of target guard ∷ []
        else get_list e reg.guard_mapping)
get_list-append_guard target e guard reg =
    get_list-extend target e (meta_of target guard ∷ []) reg.guard_mapping

get_list-add_guard :
    (guard : GuardRef) (e : ℕ) (types : List ℕ) (reg : Registry)
    → IsDistinct types
    → get_list e (add_guard guard types reg).guard_mapping ≡ (
        if contains e types
        then get_list e reg.guard_mapping ++ meta_of e guard ∷ []
        else get_list e reg.guard_mapping)
unfolding add_guard
get_list-add_guard guard e [] reg h = refl
get_list-add_guard guard e (c ∷ types) reg h = ground (
  arith,
  get_list-add_guard guard e types (append_guard c guard reg) h.1,
  get_list-append_guard c e guard reg,
)

get_list-add_hooks :
    (pre post : Option Target) (e : ℕ) (types : List ℕ) (reg : Registry)
    → IsDistinct types
    → get_list e (add_hooks pre post types reg).guard_mapping ≡ (
        if contains e types
        then get_list e reg.guard_mapping
          ++ meta_of e (instance_of (reg.fresh + index e types) pre post) ∷ []
        else get_list e reg.guard_mapping)
unfolding add_hooks
get_list-add_hooks pre post e [] reg h = refl
get_list-add_hooks pre post e (c ∷ types) reg h =
    let next =
      append_guard c (instance_of reg.fresh pre post) (record reg { fresh = suc reg.fresh }) in
    ground (
      arith,
      get_list-add_hooks pre post e types next h.1,
      get_list-append_guard c e (instance_of reg.fresh pre post)
          (record reg { fresh = suc reg.fresh }),
    )

fresh-add_hooks :
    (pre post : Option Target) (types : List ℕ) (reg : Registry)
    → (add_hooks pre post types reg).fresh ≡ reg.fresh + length types
unfolding add_hooks
fresh-add_hooks pre post [] reg = omega arith
fresh-add_hooks pre post (c ∷ types) reg =
    let next =
      append_guard c (instance_of reg.fresh pre post) (record reg { fresh = suc reg.fresh }) in
    omega (arith, fresh-add_hooks pre post types next)

index-lt-length : (e : ℕ) (types : List ℕ) → contains e types ≡ true → index e types < length types
index-lt-length e [] h = ground arith
index-lt-length e (c ∷ types) h = ground (arith, index-lt-length e types)

index_ne :
    (d e : ℕ) (types : List ℕ)
    → contains d types ≡ true
    → contains e types ≡ true
    → d ≢ e
    → index d types ≢ index e types
index_ne d e [] h k ne = ground arith
index_ne d e (c ∷ types) h k ne = ground (arith, index_ne d e types)

module _ (t : ClassTable) (msg : Annotation) (rest : List Annotation) (reg : Registry) where
  -- What `add_guards` leaves, by how it ends.
  abbrev pub Guards : GuardRef → Result (Unit {0}) × Registry → Type 0
  Guards guard (ok done, reg') =
      (fault t msg ≡ none)
      × ((e : ℕ)
          → get_list e reg'.guard_mapping ≡ (
              if accepts t msg e
              then get_list e reg.guard_mapping ++ meta_of e guard ∷ []
              else get_list e reg.guard_mapping))
  Guards guard (err e, reg') = (reg' ≡ reg) × (fault t msg ≡ some e)

  Guards-gathered :
      (guard : GuardRef) (r : Result (List ℕ))
      → Gathers t (fault t msg) (accepts t msg) r
      → Guards guard ((lift r >>= λ targets. modify (add_guard guard targets)) reg)
  Guards-gathered guard (err e) g = (refl, g)
  Guards-gathered guard (ok types) (plain, distinct, exact) =
      (plain, λ e. rw (← exact e) (get_list-add_guard guard e types reg distinct))

  -- In a table that defines each class once, after its bases: a guard class whose `__call__` has a
  -- message parameter is put behind the guards of exactly the message types that the annotation of
  -- that parameter accepts, or the registration raises and changes nothing.
  pub add_guards_class :
      (c : ClassObject) (self : Annotation)
      → IsClassTable t
      → c.call_params ≡ self ∷ msg ∷ rest
      → Guards (guard_class c.ref) (add_guards t (guard_type c) reg)
  unfolding add_guards get_guardtarget
  add_guards_class c self v e =
      rw e (Guards-gathered (guard_class c.ref) (gather_types t msg) (gather_types_lem t msg v))

  -- What `pre_handle` and `post_handle` leave: a `Guard` object of its own for each type.
  abbrev pub Hooks : Option Target → Option Target → Result (Unit {0}) × Registry → Type 0
  Hooks pre post (ok done, reg') =
      (object_of : ℕ → ℕ) × ((e : ℕ)
        → get_list e reg'.guard_mapping ≡ (
            if accepts t msg e
            then get_list e reg.guard_mapping ++ meta_of e (instance_of (object_of e) pre post) ∷ []
            else get_list e reg.guard_mapping))
      × ((e : ℕ) → accepts t msg e ≡ true → (reg.fresh ≤ object_of e) × (object_of e < reg'.fresh))
      × ((d e : ℕ)
          → accepts t msg d ≡ true
          → accepts t msg e ≡ true
          → d ≢ e
          → object_of d ≢ object_of e)
  Hooks pre post (err e, reg') = (reg' ≡ reg) × (fault t msg ≡ some e)

  Hooks-gathered :
      (pre post : Option Target) (r : Result (List ℕ))
      → Gathers t (fault t msg) (accepts t msg) r
      → Hooks pre post ((lift r >>= λ targets. modify (add_hooks pre post targets)) reg)
  Hooks-gathered pre post (err e) g = (refl, g)
  Hooks-gathered pre post (ok types) (plain, distinct, exact) = (
    λ e. reg.fresh + index e types,
    λ e. rw (← exact e) (get_list-add_hooks pre post e types reg distinct),
    λ e a.
        let within = index-lt-length e types (rw (exact e) a) in
        (omega arith, omega (arith, within, fresh-add_hooks pre post types reg)),
    λ d e a b ne same. index_ne d e types (rw (exact d) a) (rw (exact e) b) ne (omega arith),
  )

  pre_handle_function :
      (f : Function)
      → IsClassTable t
      → f.params ≡ msg ∷ rest
      → Hooks (some (function f)) none (pre_handle t (function f) reg)
  unfolding pre_handle get_guardtarget
  pre_handle_function f v e =
      subst
        (λ ps. Hooks (some (function f)) none (
          (lift (first_types t ps) >>= λ targets.
          modify (add_hooks (some (function f)) none targets))
            reg))
        (sym e)
        (Hooks-gathered (some (function f)) none (gather_types t msg) (gather_types_lem t msg v))

  post_handle_function :
      (f : Function)
      → IsClassTable t
      → f.params ≡ msg ∷ rest
      → Hooks none (some (function f)) (post_handle t (function f) reg)
  unfolding post_handle get_guardtarget
  post_handle_function f v e =
      subst
        (λ ps. Hooks none (some (function f)) (
          (lift (first_types t ps) >>= λ targets.
          modify (add_hooks none (some (function f)) targets))
            reg))
        (sym e)
        (Hooks-gathered none (some (function f)) (gather_types t msg) (gather_types_lem t msg v))

  -- In a table that defines each class once, after its bases: a function with parameters that is
  -- registered as a pre-hook or as a post-hook is put, in a new `Guard` object for each type,
  -- behind the guards of exactly the types that the annotation of its first parameter accepts, or
  -- the registration raises and changes nothing.
  pub Hooks-function :
      (f : Function)
      → IsClassTable t
      → f.params ≡ msg ∷ rest
      → Hooks (some (function f)) none (pre_handle t (function f) reg)
        × Hooks none (some (function f)) (post_handle t (function f) reg)
  Hooks-function f v e = (pre_handle_function f v e, post_handle_function f v e)
