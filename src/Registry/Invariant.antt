-- ===== src/Registry/Invariant.antt =====
-- The invariant of a registry: what stands under a message type was built for that type, and the
-- type is a subclass of the base; and each dict has each key once.
pub mod Keys
pub mod Messages
pub mod Guards
pub mod Methods
use anywise.Common.{
  IsDistinct, ℕ, suc, true, ◌≡◌, refl, Option, none, some, List, [], ◌∷◌, ◌++◌, map, arith, All,
  Option-cases, Bool-cases, inl, inr, ◌==◌, subst, sym,
}
use anywise.Common.Dict.{
  keys, Dict, lookup, update, get_list, last, lookup-update_built, get_list-extend,
}
use anywise.Errors.{Result, ok, err, is_register_fail}
use anywise.Exec.{Exec, continue, lift, modify, ◌>>=◌, ◌>>◌}
use anywise.Classes.{ClassTable, issubclass}
use anywise.Metas.{FuncMeta}
use anywise.Metas.Bases.{IsInBase, AreInBase, get_funcmetas-AreInBase, get_methodmetas-AreInBase}
use anywise.Registry.Handlers.{get_list-append_listener}
use anywise.Registry.{
  Target, function, class, object, GuardRef, instance_of, GuardMeta, GuardArg, guard_type,
  arg_target, guard_ref, Registry, base_guard, to_mapping, append_listener, append_listeners,
  append_guard, add_hooks, add_guard, target_metas, command_metas, register_commandhandlers,
  event_metas, register_eventlisteners, after_commands, ignore_register_fail, register_target,
  get_guardtarget, pre_handle, post_handle, add_guards, register_one, for_each, register, init,
}

pub All-snoc {ℓ κ} :
    {A : Type ℓ} (P : A → Type κ) (xs : List A) (x : A) → All P xs → P x → All P (xs ++ x ∷ [])
All-snoc P [] x h p = (p, tt)
All-snoc P (y ∷ xs) x h p = (h.0, All-snoc P xs x h.1 p)

module _ (t : ClassTable) where
  -- The type is a subclass of the base, and there is a base.
  abbrev pub IsOfBase : Option ℕ → ℕ → Type 0
  IsOfBase none e = ⊥
  IsOfBase (some base) e = issubclass t e base ≡ true

  abbrev pub IsFor : Option ℕ → ℕ → FuncMeta → Type 0
  IsFor base e m = (m.message_type ≡ e) × IsOfBase base e

  pub record IsValid (reg : Registry) : Type 0 where
    pub commands :
        (e : ℕ) (m : FuncMeta) → lookup e reg.command_mapping ≡ some m → IsFor reg.command_base e m
    pub listeners : (e : ℕ) → All (IsFor reg.event_base e) (get_list e reg.event_mapping)
    pub guards :
        (e : ℕ) → All (λ (m : GuardMeta). m.guard_target ≡ e) (get_list e reg.guard_mapping)
    pub command_keys : IsDistinct (keys reg.command_mapping)
    pub event_keys : IsDistinct (keys reg.event_mapping)
    pub guard_keys : IsDistinct (keys reg.guard_mapping)

  -- A new registry meets the invariant.
  pub init-IsValid :
      (command_base event_base : Option ℕ) (fresh : ℕ)
      → IsValid (init command_base event_base fresh)
  unfolding init
  init-IsValid command_base event_base fresh = record {
    commands = λ e m h. absurd (ground arith);
    listeners = λ e. tt;
    guards = λ e. tt;
    command_keys = tt;
    event_keys = tt;
    guard_keys = tt;
  }
