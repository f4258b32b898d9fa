-- ===== src/Registry/Invariant/Guards.antt =====
-- `pre_handle`, `post_handle` and `add_guards` of anywise/registry.py keep the invariant.
use anywise.Common.{
  ◌++◌, ℕ, suc, ◌≡◌, Option, none, some, List, [], ◌∷◌, arith, Bool-cases, inl, inr, ◌==◌,
}
use anywise.Common.Dict.{insert-IsDistinct, get_list, get_list-extend}
use anywise.Errors.{Result, ok, err}
use anywise.Exec.{lift, modify, ◌>>=◌}
use anywise.Classes.{ClassTable}
use anywise.Registry.{
  Target, GuardRef, instance_of, GuardMeta, GuardArg, arg_target, guard_ref, Registry, append_guard,
  add_hooks, add_guard, get_guardtarget, pre_handle, post_handle, add_guards,
}
use anywise.Registry.Invariant.{IsValid, All-snoc}

module _ (t : ClassTable) where
  append_guard-IsValid :
      (target : ℕ) (guard : GuardRef) (reg : Registry)
      → IsValid t reg
      → IsValid t (append_guard target guard reg)
  append_guard-IsValid target guard reg v = record {
    commands = v.commands;
    listeners = v.listeners;
    guards = λ e. elim (Bool-cases (e == target)) [
      | inl same ↦
          rw (get_list-extend, same)
            (All-snoc (λ (m : GuardMeta). m.guard_target ≡ e) (get_list e reg.guard_mapping)
              (record { guard_target = target; guard = guard }) (v.guards e) (ground arith))
      | inr differ ↦ rw (get_list-extend, differ) (v.guards e)
    ];
    command_keys = v.command_keys;
    event_keys = v.event_keys;
    guard_keys =
        insert-IsDistinct target
          (get_list target reg.guard_mapping
            ++ record { guard_target = target; guard = guard } ∷ [])
          reg.guard_mapping v.guard_keys;
  }

  add_guard-IsValid :
      (guard : GuardRef) (targets : List ℕ) (reg : Registry)
      → IsValid t reg
      → IsValid t (add_guard guard targets reg)
  unfolding add_guard
  add_guard-IsValid guard [] reg v = v
  add_guard-IsValid guard (c ∷ targets) reg v =
      add_guard-IsValid guard targets (append_guard c guard reg)
        (append_guard-IsValid c guard reg v)

  IsValid-fresh :
      (reg : Registry) (fresh : ℕ) → IsValid t reg → IsValid t (record reg { fresh = fresh })
  IsValid-fresh reg fresh v = record {
    commands = v.commands;
    listeners = v.listeners;
    guards = v.guards;
    command_keys = v.command_keys;
    event_keys = v.event_keys;
    guard_keys = v.guard_keys;
  }

  add_hooks-IsValid :
      (pre post : Option Target) (targets : List ℕ) (reg : Registry)
      → IsValid t reg
      → IsValid t (add_hooks pre post targets reg)
  unfolding add_hooks
  add_hooks-IsValid pre post [] reg v = v
  add_hooks-IsValid pre post (c ∷ targets) reg v =
      let next = record reg { fresh = suc reg.fresh } in
      add_hooks-IsValid pre post targets (append_guard c (instance_of reg.fresh pre post) next) (
        append_guard-IsValid c (instance_of reg.fresh pre post) next
          (IsValid-fresh reg (suc reg.fresh) v))

  targets-IsValid :
      (r : Result (List ℕ)) (f : List ℕ → Registry → Registry) (reg : Registry)
      → ((targets : List ℕ) → IsValid t (f targets reg))
      → IsValid t reg
      → IsValid t ((lift r >>= λ targets. modify (f targets)) reg).1
  targets-IsValid (ok targets) f reg keeps v = keeps targets
  targets-IsValid (err e) f reg keeps v = v

  hooks-IsValid :
      (pre post : Option Target) (r : Result (List ℕ)) (reg : Registry)
      → IsValid t reg
      → IsValid t ((lift r >>= λ targets. modify (add_hooks pre post targets)) reg).1
  hooks-IsValid pre post r reg v =
      targets-IsValid r (add_hooks pre post) reg
        (λ targets. add_hooks-IsValid pre post targets reg v) v

  pub pre_handle-IsValid :
      (f : Target) (reg : Registry) → IsValid t reg → IsValid t (pre_handle t f reg).1
  unfolding pre_handle
  pre_handle-IsValid f = hooks-IsValid (some f) none (get_guardtarget t f)

  pub post_handle-IsValid :
      (f : Target) (reg : Registry) → IsValid t reg → IsValid t (post_handle t f reg).1
  unfolding post_handle
  post_handle-IsValid f = hooks-IsValid none (some f) (get_guardtarget t f)

  pub add_guards-IsValid :
      (g : GuardArg) (reg : Registry) → IsValid t reg → IsValid t (add_guards t g reg).1
  unfolding add_guards
  add_guards-IsValid g reg v =
      targets-IsValid (get_guardtarget t (arg_target g)) (add_guard (guard_ref g)) reg
        (λ targets. add_guard-IsValid (guard_ref g) targets reg v) v
