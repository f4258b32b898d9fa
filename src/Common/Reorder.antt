-- ===== src/Common/Reorder.antt =====
-- Lists with the same elements, each as often, in any order.
use mathlib.Core.Path.{◌≡◌, refl}
use mathlib.Core.List.{List, [], ◌∷◌}

module _ {ℓ} {A : Type ℓ} where
  pub data IsReordered : List A → List A → Type ℓ where
    nil : IsReordered [] []
    cons : {a b : A} {l m : List A} → a ≡ b → IsReordered l m → IsReordered (a ∷ l) (b ∷ m)
    swap : {a b a' b' : A} {l : List A} → a ≡ b' → b ≡ a' → IsReordered (a ∷ b ∷ l) (a' ∷ b' ∷ l)
    trans : {l m n : List A} → IsReordered l m → IsReordered m n → IsReordered l n

  pub IsReordered-same : (l : List A) → IsReordered l l
  IsReordered-same [] = nil
  IsReordered-same (a ∷ l) = cons refl (IsReordered-same l)
