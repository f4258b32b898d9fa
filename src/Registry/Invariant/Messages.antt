-- ===== src/Registry/Invariant/Messages.antt =====
-- `_register` of anywise/registry.py keeps the invariant, whether it returns or raises.
use anywise.Common.{
  ℕ, true, ◌≡◌, refl, Option, none, some, List, [], ◌∷◌, map, arith, All, Option-cases, Bool-cases,
  inl, inr, ◌==◌, subst, sym,
}
use anywise.Common.Dict.{
  update-IsDistinct, Dict, lookup, update, get_list, last, lookup-update_built,
}
use anywise.Errors.{Result, ok, err, is_register_fail}
use anywise.Exec.{lift, modify, ◌>>=◌}
use anywise.Classes.{ClassTable, issubclass}
use anywise.Metas.{FuncMeta}
use anywise.Metas.Bases.{IsInBase, AreInBase, get_funcmetas-AreInBase, get_methodmetas-AreInBase}
use anywise.Registry.Handlers.{get_list-append_listener}
use anywise.Registry.{
  Target, function, class, object, Registry, to_mapping, append_listener, append_listeners,
  target_metas, command_metas, register_commandhandlers, event_metas, register_eventlisteners,
  after_commands, ignore_register_fail, register_target,
}
use anywise.Registry.Invariant.Keys.{append_listeners-IsDistinct}
use anywise.Registry.Invariant.{IsFor, IsValid, All-snoc}

module _ (t : ClassTable) where
  target_metas-AreInBase :
      (base : ℕ) (handler : Target) → AreInBase t base (target_metas t base handler)
  unfolding target_metas
  target_metas-AreInBase base (function f) = get_funcmetas-AreInBase t base f
  target_metas-AreInBase base (class c) = get_methodmetas-AreInBase t base c
  target_metas-AreInBase base (object o) = tt

  last-IsFor :
      (base e : ℕ) (metas : List FuncMeta) (m : FuncMeta)
      → All (IsInBase t base) metas
      → last e (map (λ (m : FuncMeta). (m.message_type, m)) metas) ≡ some m
      → IsFor t (some base) e m
  last-IsFor base e [] m h found = cc
  last-IsFor base e (x ∷ metas) m h found =
      elim (Option-cases (last e (map (λ (m : FuncMeta). (m.message_type, m)) metas))) [
        | inr (w, later) ↦ last-IsFor base e metas m h.1 (ground (arith, later))
        | inl here ↦ elim (Bool-cases (e == x.message_type)) [
          | inl same ↦
              let is : x ≡ m = ground arith in
              subst (IsFor t (some base) e) is
                (ground arith, subst (λ k. issubclass t k base ≡ true) (ground arith) h.0)
          | inr differ ↦ absurd (ground arith)
        ]
      ]

  update-IsFor :
      (base e : ℕ) (metas : List FuncMeta) (d : Dict FuncMeta) (m : FuncMeta)
      → All (IsInBase t base) metas
      → ((w : FuncMeta) → lookup e d ≡ some w → IsFor t (some base) e w)
      → lookup e (update d (to_mapping metas)) ≡ some m
      → IsFor t (some base) e m
  update-IsFor base e metas d m h old found =
      elim (Option-cases (last e (map (λ (m : FuncMeta). (m.message_type, m)) metas))) [
        | inr (w, written) ↦ last-IsFor base e metas m h (
            ground
              (arith, lookup-update_built e d (map (λ (m : FuncMeta). (m.message_type, m)) metas)))
        | inl kept ↦ old m (
            ground
              (arith, lookup-update_built e d (map (λ (m : FuncMeta). (m.message_type, m)) metas)))
      ]

  append_listener-IsFor :
      (base : ℕ) (m : FuncMeta) (d : Dict (List FuncMeta))
      → IsInBase t base m
      → ((e : ℕ) → All (IsFor t (some base) e) (get_list e d))
      → (e : ℕ) → All (IsFor t (some base) e) (get_list e (append_listener m d))
  append_listener-IsFor base m d p h e = elim (Bool-cases (e == m.message_type)) [
    | inl same ↦
        let is : m.message_type ≡ e = ground arith in
        rw (get_list-append_listener, same)
          (All-snoc (IsFor t (some base) e) (get_list e d) m (h e)
            (is, subst (λ k. issubclass t k base ≡ true) is p))
    | inr differ ↦ rw (get_list-append_listener, differ) (h e)
  ]

  append_listeners-IsFor :
      (base : ℕ) (metas : List FuncMeta) (d : Dict (List FuncMeta))
      → All (IsInBase t base) metas
      → ((e : ℕ) → All (IsFor t (some base) e) (get_list e d))
      → (e : ℕ) → All (IsFor t (some base) e) (get_list e (append_listeners metas d))
  unfolding append_listeners
  append_listeners-IsFor base [] d p h = h
  append_listeners-IsFor base (m ∷ ms) d p h =
      append_listeners-IsFor base ms (append_listener m d) p.1
        (append_listener-IsFor base m d p.0 h)

  commands-IsValid :
      (base : Option ℕ) (handler : Target) (reg : Registry)
      → reg.command_base ≡ base
      → IsValid t reg
      → IsValid t (command_metas t base handler reg).1
  commands-IsValid none handler reg b v = v
  commands-IsValid (some base) handler reg b v =
      written (target_metas t base handler) (target_metas-AreInBase base handler)
    where
      written :
          (r : Result (List FuncMeta))
          → AreInBase t base r
          → IsValid t
              ((lift r >>= λ metas. modify λ reg. record reg {
                command_mapping = update reg.command_mapping (to_mapping metas);
              })
                reg).1
      written (err e) h = v
      written (ok metas) h = record {
        commands = λ e m found.
            subst (λ o. IsFor t o e m) (sym b)
              (update-IsFor base e metas reg.command_mapping m h
                (λ w old. subst (λ o. IsFor t o e w) b (v.commands e w old)) found);
        listeners = v.listeners;
        guards = v.guards;
        command_keys = update-IsDistinct reg.command_mapping (to_mapping metas) v.command_keys;
        event_keys = v.event_keys;
        guard_keys = v.guard_keys;
      }

  events-IsValid :
      (base : Option ℕ) (handler : Target) (reg : Registry)
      → reg.event_base ≡ base
      → IsValid t reg
      → IsValid t (event_metas t base handler reg).1
  events-IsValid none handler reg b v = v
  events-IsValid (some base) handler reg b v =
      written (target_metas t base handler) (target_metas-AreInBase base handler)
    where
      written :
          (r : Result (List FuncMeta))
          → AreInBase t base r
          → IsValid t
              ((lift r >>= λ metas.
                  modify
                    λ reg. record reg { event_mapping = append_listeners metas reg.event_mapping })
                reg).1
      written (err e) h = v
      written (ok metas) h = record {
        commands = v.commands;
        listeners = λ e.
            subst (λ o. All (IsFor t o e) (get_list e (append_listeners metas reg.event_mapping)))
              (sym b)
              (append_listeners-IsFor base metas reg.event_mapping h
                (λ k.
                  subst (λ o. All (IsFor t o k) (get_list k reg.event_mapping)) b (v.listeners k))
                e);
        guards = v.guards;
        command_keys = v.command_keys;
        event_keys = append_listeners-IsDistinct metas reg.event_mapping v.event_keys;
        guard_keys = v.guard_keys;
      }

  commandhandlers-IsValid :
      (handler : Target) (reg : Registry)
      → IsValid t reg
      → IsValid t (register_commandhandlers t handler reg).1
  unfolding register_commandhandlers
  commandhandlers-IsValid handler reg v = commands-IsValid reg.command_base handler reg refl v

  eventlisteners-IsValid :
      (handler : Target) (reg : Registry)
      → IsValid t reg
      → IsValid t (register_eventlisteners t handler reg).1
  unfolding register_eventlisteners
  eventlisteners-IsValid handler reg v = events-IsValid reg.event_base handler reg refl v

  ignored-IsValid :
      (out : Result (Unit {0}) × Registry)
      → IsValid t out.1
      → IsValid t (ignore_register_fail out).1
  ignored-IsValid (ok done, reg) v = v
  ignored-IsValid (err e, reg) v = v

  after-IsValid :
      (handler : Target) (out : Result (Unit {0}) × Registry)
      → IsValid t out.1
      → IsValid t (after_commands t handler out).1
  after-IsValid handler (ok done, reg) v =
      ignored-IsValid (register_eventlisteners t handler reg) (eventlisteners-IsValid handler reg v)
  after-IsValid handler (err e, reg) v = elim (Bool-cases (is_register_fail e)) [
    | inl fails ↦ rw fails (eventlisteners-IsValid handler reg v)
    | inr other ↦ rw other v
  ]

  pub register_target-IsValid :
      (handler : Target) (reg : Registry)
      → IsValid t reg
      → IsValid t (register_target t handler reg).1
  unfolding register_target
  register_target-IsValid handler reg v =
      after-IsValid handler (register_commandhandlers t handler reg)
        (commandhandlers-IsValid handler reg v)
