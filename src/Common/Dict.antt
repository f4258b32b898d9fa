-- ===== src/Common/Dict.antt =====
-- Python's `dict` with keys that are compared only, as an association list in insertion order.
use Prim.Native.Nat.{ℕ}
use mathlib.Core.Path.{◌≡◌, refl, ap}
use mathlib.Core.Logic.{inl, inr}
use mathlib.Core.Bool.{Bool, true, false, ◌||◌}
use mathlib.Core.Option.{Option, none, some}
use mathlib.Core.List.{List, [], ◌∷◌, ◌++◌}
use native.Mathlib.Omega.{arith}
use anywise.Common.Tests.{◌==◌, if◌then◌else◌, Bool-cases}
use anywise.Common.Lists.{contains, IsDistinct}

abbrev pub Dict {ℓ} : Type ℓ → Type ℓ
Dict V = List (ℕ × V)

module _ {ℓ} {V : Type ℓ} where
  abbrev pub lookup : ℕ → Dict V → Option V
  lookup k [] = none
  lookup k ((j, v) ∷ d) = if k == j then some v else lookup k d

  -- `d[k] = v`: a known key keeps its place.
  abbrev pub insert : ℕ → V → Dict V → Dict V
  insert k v [] = (k, v) ∷ []
  insert k v ((j, w) ∷ d) = if k == j then (k, v) ∷ d else (j, w) ∷ insert k v d

  -- `d.update(e)`
  abbrev pub update : Dict V → Dict V → Dict V
  update d [] = d
  update d ((k, v) ∷ e) = update (insert k v d) e

  pub lookup-insert :
      (k j : ℕ) (v : V) (d : Dict V)
      → lookup j (insert k v d) ≡ (if j == k then some v else lookup j d)
  lookup-insert k j v [] = refl
  lookup-insert k j v ((i, w) ∷ d) = ground (arith, lookup-insert k j v d)

  -- `{k: v for k, v in d.items() if not p(k)}`
  abbrev pub reject : (ℕ → Bool) → Dict V → Dict V
  reject p [] = []
  reject p ((k, v) ∷ d) = let rest = reject p d in if p k then rest else (k, v) ∷ rest

  pub lookup-reject :
      (p : ℕ → Bool) (k : ℕ) (d : Dict V)
      → lookup k (reject p d) ≡ (if p k then none else lookup k d)
  lookup-reject p k [] = ground arith
  lookup-reject p k ((j, v) ∷ d) = elim (Bool-cases (k == j)) [
    | inl same ↦ let is : p j ≡ p k = ap p (ground arith) in ground (arith, lookup-reject p k d, is)
    | inr differ ↦ ground (arith, lookup-reject p k d)
  ]

-- `d[k]` of a `defaultdict(list)`, as a list; a missing key reads as the empty list.
module _ {ℓ} {A : Type ℓ} where
  abbrev pub get_list : ℕ → Dict (List A) → List A
  get_list k d = elim (lookup k d) [ none ↦ [] | some xs ↦ xs ]

  -- Reading a missing key of a `defaultdict(list)` stores the empty list under it.
  abbrev pub touch : ℕ → Dict (List A) → Dict (List A)
  touch k d = elim (lookup k d) [ none ↦ insert k [] d | some _ ↦ d ]

  -- `d[k].extend(xs)`
  abbrev pub extend : ℕ → List A → Dict (List A) → Dict (List A)
  extend k xs d = insert k (get_list k d ++ xs) d

  pub get_list-extend :
      (k j : ℕ) (xs : List A) (d : Dict (List A))
      → get_list j (extend k xs d) ≡ (if j == k then get_list j d ++ xs else get_list j d)
  get_list-extend k j xs d = ground (arith, lookup-insert k j (get_list k d ++ xs) d)

  pub get_list-touch : (k j : ℕ) (d : Dict (List A)) → get_list j (touch k d) ≡ get_list j d
  get_list-touch k j d = ground (arith, lookup-insert {V = List A} k j [] d)

-- What the items of a dict write under a key, and the value that stays when they are written in
-- turn.
module _ {ℓ} {V : Type ℓ} where
  abbrev pub or_else : Option V → Option V → Option V
  or_else none old = old
  or_else (some new) old = some new

  abbrev pub last : ℕ → Dict V → Option V
  last j [] = none
  last j ((k, v) ∷ e) = or_else (last j e) (if j == k then some v else none)

  abbrev pub keys : Dict V → List ℕ
  keys [] = []
  keys ((k, v) ∷ d) = k ∷ keys d

  pub contains-keys-reject :
      (p : ℕ → Bool) (k : ℕ) (d : Dict V)
      → contains k (keys (reject p d)) ≡ (if p k then false else contains k (keys d))
  contains-keys-reject p k [] = ground arith
  contains-keys-reject p k ((j, v) ∷ d) = elim (Bool-cases (k == j)) [
    | inl same ↦
        let is : p j ≡ p k = ap p (ground arith) in ground (arith, contains-keys-reject p k d, is)
    | inr differ ↦ ground (arith, contains-keys-reject p k d)
  ]

  pub contains-keys-append :
      (k : ℕ) (d e : Dict V)
      → contains k (keys (d ++ e)) ≡ (contains k (keys d) || contains k (keys e))
  contains-keys-append k [] e = refl
  contains-keys-append k ((j, v) ∷ d) e = ground (arith, contains-keys-append k d e)

  pub lookup-append :
      (k : ℕ) (d e : Dict V)
      → lookup k (d ++ e) ≡ (if contains k (keys d) then lookup k d else lookup k e)
  lookup-append k [] e = refl
  lookup-append k ((j, v) ∷ d) e = ground (arith, lookup-append k d e)

  pub lookup-update :
      (j : ℕ) (d e : Dict V) → lookup j (update d e) ≡ or_else (last j e) (lookup j d)
  lookup-update j d [] = refl
  lookup-update j d ((k, v) ∷ e) =
      ground (arith, lookup-update j (insert k v d) e, lookup-insert k j v d)

  contains-keys-insert :
      (a k : ℕ) (v : V) (d : Dict V)
      → contains a (keys (insert k v d)) ≡ (if a == k then true else contains a (keys d))
  contains-keys-insert a k v [] = ground arith
  contains-keys-insert a k v ((j, w) ∷ d) = ground (arith, contains-keys-insert a k v d)

  pub insert-IsDistinct :
      (k : ℕ) (v : V) (d : Dict V) → IsDistinct (keys d) → IsDistinct (keys (insert k v d))
  insert-IsDistinct k v [] h = ground arith
  insert-IsDistinct k v ((j, w) ∷ d) h = elim (Bool-cases (k == j)) [
    | inl same ↦ rw same (ground arith)
    | inr differ ↦
        rw differ (rw (contains-keys-insert j k v d) (ground arith), insert-IsDistinct k v d h.1)
  ]

  pub update-IsDistinct : (d e : Dict V) → IsDistinct (keys d) → IsDistinct (keys (update d e))
  update-IsDistinct d [] h = h
  update-IsDistinct d ((k, v) ∷ e) h =
      update-IsDistinct (insert k v d) e (insert-IsDistinct k v d h)

  pub lookup_absent : (j : ℕ) (d : Dict V) → contains j (keys d) ≡ false → lookup j d ≡ none
  lookup_absent j [] h = refl
  lookup_absent j ((k, v) ∷ d) h = ground (arith, lookup_absent j d)

  pub last-eq-lookup : (j : ℕ) (d : Dict V) → IsDistinct (keys d) → last j d ≡ lookup j d
  last-eq-lookup j [] h = refl
  last-eq-lookup j ((k, v) ∷ d) h = ground (arith, last-eq-lookup j d h.1, lookup_absent j d)

  -- Writing a dict that was built from items is writing the items.
  pub lookup-update_built :
      (j : ℕ) (d e : Dict V) → lookup j (update d (update [] e)) ≡ or_else (last j e) (lookup j d)
  lookup-update_built j d e = ground (
    arith,
    lookup-update j d (update [] e),
    last-eq-lookup j (update [] e) (update-IsDistinct [] e tt),
    lookup-update j [] e,
  )
