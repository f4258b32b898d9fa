-- ===== src/Registry/Invariant/Methods.antt =====
-- `register` of anywise/registry.py keeps the invariant.
use anywise.Common.{List, [], ◌∷◌, Bool-cases, inl, inr}
use anywise.Errors.{Result, ok, err}
use anywise.Exec.{Exec, continue, ◌>>◌}
use anywise.Classes.{ClassTable, issubclass}
use anywise.Registry.{
  Target, function, class, object, guard_type, Registry, base_guard, pre_handle, post_handle,
  register_one, for_each, register,
}
use anywise.Registry.Invariant.{IsValid}
use anywise.Registry.Invariant.Messages.{register_target-IsValid}
use anywise.Registry.Invariant.Guards.{pre_handle-IsValid, post_handle-IsValid, add_guards-IsValid}

module _ (t : ClassTable) where
  register_one-IsValid :
      (x : Target) (reg : Registry) → IsValid t reg → IsValid t (register_one t x reg).1
  unfolding register_one
  register_one-IsValid (function f) reg v = register_target-IsValid t (function f) reg v
  register_one-IsValid (object o) reg v = register_target-IsValid t (object o) reg v
  register_one-IsValid (class c) reg v = elim (Bool-cases (issubclass t c.ref base_guard)) [
    | inl is ↦ rw is (add_guards-IsValid t (guard_type c) reg v)
    | inr isnt ↦ rw isnt (register_target-IsValid t (class c) reg v)
  ]

  then-IsValid :
      (m n : Exec Registry (Unit {0})) (reg : Registry)
      → IsValid t (m reg).1
      → ((r : Registry) → IsValid t r → IsValid t (n r).1)
      → IsValid t ((m >> n) reg).1
  then-IsValid m n reg first rest = go (m reg) first
    where
      go :
          (out : Result (Unit {0}) × Registry)
          → IsValid t out.1
          → IsValid t (continue out.0 (λ _. n) out.1).1
      go (ok done, r) v = rest r v
      go (err e, r) v = v

  for_each-IsValid :
      (f : Target → Exec Registry (Unit {0}))
      → ((x : Target) (reg : Registry) → IsValid t reg → IsValid t (f x reg).1)
      → (xs : List Target) (reg : Registry) → IsValid t reg
      → IsValid t (for_each f xs reg).1
  unfolding for_each
  for_each-IsValid f keeps [] reg v = v
  for_each-IsValid f keeps (x ∷ xs) reg v =
      then-IsValid (f x) (for_each f xs) reg (keeps x reg v) (for_each-IsValid f keeps xs)

  -- If every meta of a registry stands under its own type, the types of handlers and listeners are
  -- subclasses of the command and the event base, and each of its dicts has each key once, then so
  -- it is after `register` with any handlers and hooks, whether it returns or raises.
  pub register-IsValid :
      (handlers pre_handles post_handles : List Target) (reg : Registry)
      → IsValid t reg
      → IsValid t (register t handlers pre_handles post_handles reg).1
  unfolding register
  register-IsValid handlers pre post reg v =
      then-IsValid (for_each (register_one t) handlers >> for_each (pre_handle t) pre)
        (for_each (post_handle t) post) reg
        (then-IsValid (for_each (register_one t) handlers) (for_each (pre_handle t) pre) reg
          (for_each-IsValid (register_one t) register_one-IsValid handlers reg v)
          (for_each-IsValid (pre_handle t) (pre_handle-IsValid t) pre))
        (for_each-IsValid (post_handle t) (post_handle-IsValid t) post)
