-- ===== src/Tests/Bus.antt =====
-- An `Anywise` of two registries, on a graph that counts its open scopes.
use anywise.Common.{
  ◌==◌, if◌then◌else◌, ℕ, suc, ◌+◌, true, ◌≡◌, refl, none, some, List, [], ◌∷◌, arith,
}
use anywise.Errors.{ok, err, value_error}
use anywise.Metas.{is_contextparam}
use anywise.Callable.{Callable, function, entry, context_wrapper, resolve_meta}
use anywise.Guard.{compose}
use anywise.Dispatch.{default_send, default_publish, resolve_guard, resolve_guards}
use anywise.Bus.{Graph, MessageRegistry, Anywise, new_anywise, include, send}
use anywise.Bus.Including.{Includes, include-Includes, new_anywise-send}
use anywise.Bus.Scopes.{send_each, open_in, send_leaves_open}
use anywise.Tests.Sample.{UserEnv, World, store, perform, create, create_user, create_user_meta}
use anywise.Tests.Managers.{first_registry, second_registry}

abbrev pub graph : Graph UserEnv ℕ ℕ
graph = record {
  new = 0;
  is_truthy = λ d. true;
  merge = λ other d. (ok tt, d);
  analyze_nodes = λ d. (ok tt, d);
  register_singleton = λ d. (ok tt, d);
  node = λ config factory d. (ok tt, d);
  reset = λ d. d;
  scope = λ name d. (5, d);
  aenter = λ s d. (ok s, suc d);
  resolve = λ s c o. (ok (100 + c), o);
}

abbrev registries : List (MessageRegistry ℕ)
registries =
    record { mappings = first_registry; graph = 0 }
    ∷ record { mappings = second_registry; graph = 0 }
    ∷ []

abbrev bus : Anywise ℕ World ℕ
bus = (new_anywise graph registries none none default_send default_publish store).1

abbrev callable : Callable
callable = context_wrapper (entry create_user_meta.ignore (function create_user))

-- A graph that refuses to be merged with the graph 1.
abbrev strict_graph : Graph UserEnv ℕ ℕ
strict_graph = record graph {
  merge = λ other d. if other == 1 then (err value_error, d) else (ok tt, suc d);
}

abbrev refused : List (MessageRegistry ℕ)
refused =
    record { mappings = first_registry; graph = 0 }
    ∷ record { mappings = second_registry; graph = 1 }
    ∷ []

include-Includes_example : Includes strict_graph refused bus (include strict_graph refused bus)
include-Includes_example = include-Includes strict_graph refused bus

second_refused : (include strict_graph refused bus).0 ≡ err value_error
unfolding include
second_refused = refl

new_anywise-send_example :
    (send graph perform 9 create none (some 5) [] bus).0
    ≡ default_send create none (compose perform store.kind (3 ∷ 4 ∷ 6 ∷ []) callable) []
unfolding new_anywise include resolve_meta resolve_guards resolve_guard is_contextparam
new_anywise-send_example =
    new_anywise-send graph perform 9 registries none none default_send default_publish store bus
      refl create none 5 [] create_user_meta callable bus.system.objects bus.system.objects 3
      (4 ∷ 6 ∷ []) refl (ground arith) refl refl refl (omega arith) (ground arith)

send_leaves_open_example :
    open_in (λ d. d) (send_each graph perform 9 (create ∷ create ∷ []) [] bus)
    ≡ 2 + open_in (λ d. d) bus
send_leaves_open_example =
    send_leaves_open graph (λ d. d) (λ name d. refl) (λ s d. (s, refl, refl)) (λ s c o. refl)
      perform 9 (create ∷ create ∷ []) [] bus
