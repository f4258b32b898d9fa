-- ===== src/Common/Lists.antt =====
-- Lists over the native numbers, and Python sets of identities as lists without repetition.
use Prim.Native.Nat.{ℕ, zero, suc, ◌+◌}
use mathlib.Core.Path.{◌≡◌, refl, ap, subst}
use mathlib.Core.Logic.{◌⊎◌, inl, inr}
use mathlib.Core.Bool.{Bool, true, false, ◌||◌, ◌&&◌}
use mathlib.Core.List.{List, [], ◌∷◌, ◌++◌}
use native.Mathlib.Omega.{arith}
use anywise.Common.Tests.{◌==◌, if◌then◌else◌, Bool-cases}

module _ {ℓ} {A : Type ℓ} where
  abbrev pub length : List A → ℕ
  length [] = 0
  length (x ∷ xs) = suc (length xs)

  abbrev pub take : ℕ → List A → List A
  take zero xs = []
  take (suc n) [] = []
  take (suc n) (x ∷ xs) = x ∷ take n xs

  abbrev pub drop : ℕ → List A → List A
  drop zero xs = xs
  drop (suc n) [] = []
  drop (suc n) (x ∷ xs) = drop n xs

  pub length-append : (xs ys : List A) → length (xs ++ ys) ≡ length xs + length ys
  length-append [] ys = omega arith
  length-append (x ∷ xs) ys = rw (length-append xs ys) (omega arith)

  pub take-length-append : (xs ys : List A) → take (length xs) (xs ++ ys) ≡ xs
  take-length-append [] ys = refl
  take-length-append (x ∷ xs) ys = ap (◌∷◌ x) (take-length-append xs ys)

  pub List-cases : (xs : List A) → (xs ≡ []) ⊎ ((y : A) × (ys : List A) × (xs ≡ y ∷ ys))
  List-cases [] = inl refl
  List-cases (y ∷ ys) = inr (y, ys, refl)

  pub length-snoc : (xs : List A) (x : A) → length (xs ++ x ∷ []) ≡ suc (length xs)
  length-snoc [] x = refl
  length-snoc (y ∷ xs) x = rw (length-snoc xs x)

  abbrev pub all : (A → Bool) → List A → Bool
  all p [] = true
  all p (x ∷ xs) = p x && all p xs

  abbrev pub any : (A → Bool) → List A → Bool
  any p [] = false
  any p (x ∷ xs) = p x || any p xs

  abbrev pub All {κ} : (A → Type κ) → List A → Type κ
  All P [] = Unit
  All P (x ∷ xs) = P x × All P xs

-- `x in xs`, for identities.
abbrev pub contains : ℕ → List ℕ → Bool
contains a [] = false
contains a (x ∷ xs) = a == x || contains a xs

-- `s.add(x)`; a set is a list without repetition, in some order.
abbrev pub add : ℕ → List ℕ → List ℕ
add a s = if contains a s then s else a ∷ s

-- `s | t`
abbrev pub union : List ℕ → List ℕ → List ℕ
union [] t = t
union (x ∷ s) t = add x (union s t)

abbrev pub IsDistinct : List ℕ → Type 0
IsDistinct [] = Unit
IsDistinct (x ∷ xs) = (contains x xs ≡ false) × IsDistinct xs

pub contains-add :
    (a b : ℕ) (s : List ℕ) → contains a (add b s) ≡ (if a == b then true else contains a s)
contains-add a b s = ground arith

pub add-IsDistinct : (a : ℕ) (s : List ℕ) → IsDistinct s → IsDistinct (add a s)
add-IsDistinct a s h = elim (Bool-cases (contains a s)) [ inl e ↦ rw e h | inr e ↦ rw e (e, h) ]

pub contains-union :
    (a : ℕ) (s t : List ℕ) → contains a (union s t) ≡ (if contains a s then true else contains a t)
contains-union a [] t = refl
contains-union a (x ∷ s) t = ground (arith, contains-union a s t, contains-add a x (union s t))

pub union-IsDistinct : (s t : List ℕ) → IsDistinct t → IsDistinct (union s t)
union-IsDistinct [] t h = h
union-IsDistinct (x ∷ s) t h = add-IsDistinct x (union s t) (union-IsDistinct s t h)

pub any_elim :
    (p : ℕ → Bool) (xs : List ℕ) → any p xs ≡ true → (x : ℕ) × (contains x xs ≡ true) × (p x ≡ true)
any_elim p [] h = ground arith
any_elim p (x ∷ xs) h = elim (Bool-cases (p x)) [
  | inl e ↦ (x, ground arith, e)
  | inr e ↦ let (y, within, holds) = any_elim p xs (rw e at h) in (y, ground arith, holds)
]

pub any_intro :
    (p : ℕ → Bool) (x : ℕ) (xs : List ℕ) → contains x xs ≡ true → p x ≡ true → any p xs ≡ true
any_intro p x [] h e = ground arith
any_intro p x (y ∷ xs) h e = ground (arith, any_intro p x xs)

pub all_elim :
    (p : ℕ → Bool) (x : ℕ) (xs : List ℕ) → all p xs ≡ true → contains x xs ≡ true → p x ≡ true
all_elim p x [] h e = ground arith
all_elim p x (y ∷ xs) h e = ground (arith, all_elim p x xs)

pub all_intro :
    (p : ℕ → Bool) (xs : List ℕ) → ((x : ℕ) → contains x xs ≡ true → p x ≡ true) → all p xs ≡ true
all_intro p [] h = refl
all_intro p (x ∷ xs) h =
    ground (arith, h x, all_intro p xs (λ y within. h y (ground (arith, within))))

pub All_elim {κ} : (P : ℕ → Type κ) (x : ℕ) (xs : List ℕ) → All P xs → contains x xs ≡ true → P x
All_elim P x [] h e = absurd (ground arith)
All_elim P x (y ∷ xs) h e = elim (Bool-cases (x == y)) [
  | inl same ↦ subst P (ground arith) h.0
  | inr differ ↦ All_elim P x xs h.1 (ground arith)
]
