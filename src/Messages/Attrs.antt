-- ===== src/Messages/Attrs.antt =====
-- The attributes and fields of an event, one by one.
use anywise.Common.{
  ℕ, zero, suc, ◌-◌, Bool, true, false, ◌≡◌, refl, ap, subst, sym, ◌∙◌, inl, inr, Option, none,
  some, List, [], ◌∷◌, ◌++◌, arith, contains, length, length-append, take, take-length-append,
  Option-cases, Bool-cases, ◌==◌, ◌||◌, if◌then◌else◌, IsDistinct,
}
use anywise.Common.Dict.{Dict, lookup, keys}
use anywise.Errors.{ok}
use anywise.Messages.{
  entity_id_key, Cell, value, base_fields, current_only_fields, with_attr, getattrs, cells,
}

module _ {V : Type 0} where
  abbrev pub cell_of : Option V → Option (Cell V)
  cell_of none = none
  cell_of (some v) = some (value v)

  abbrev pub is_some : Option V → Bool
  is_some none = false
  is_some (some v) = true

  pub lookup-cells : (k : ℕ) (d : Dict V) → lookup k (cells d) ≡ cell_of (lookup k d)
  lookup-cells k [] = refl
  lookup-cells k ((j, v) ∷ d) = ground (arith, lookup-cells k d)

  pub keys-cells : (d : Dict V) → keys (cells d) ≡ keys d
  keys-cells [] = refl
  keys-cells ((j, v) ∷ d) = ap (◌∷◌ j) (keys-cells d)

  -- The attributes of the fields are there.
  pub getattrs_total :
      (fs : List ℕ) (attrs : ℕ → Option V)
      → ((f : ℕ) → contains f fs ≡ true → is_some (attrs f) ≡ true)
      → (d : Dict V) × (getattrs fs attrs ≡ ok d)
        × (keys d ≡ fs)
        × ((f : ℕ) → lookup f d ≡ (if contains f fs then attrs f else none))
  unfolding getattrs
  getattrs_total [] attrs there = ([], refl, refl, λ f. refl)
  getattrs_total (f ∷ fs) attrs there =
      let (d, e, ks, found) = getattrs_total fs attrs (λ k w. there k (ground (arith, w))) in
      elim (Option-cases (attrs f)) [
        | inl missing ↦ absurd (ground (arith, there f))
        | inr (v, is) ↦ (
          (f, v) ∷ d,
          ap (λ o. with_attr f o (getattrs fs attrs)) is ∙ ap (with_attr f (some v)) e,
          ap (◌∷◌ f) ks,
          λ k. elim (Bool-cases (k == f)) [
            | inl same ↦
                let same_attr : attrs k ≡ attrs f = ap attrs (ground arith) in
                ground (arith, is, same_attr)
            | inr differ ↦ ground (arith, found k)
          ],
        )
      ]

-- `l[: len(l) - 3]` of a list that ends in the base fields
pub take-append : (own : List ℕ) → current_only_fields (own ++ base_fields) ≡ own
unfolding current_only_fields
take-append own =
    ap (λ n. take n (own ++ base_fields)) (omega (arith, length-append own base_fields))
    ∙ take-length-append own base_fields

pub absent-append :
    (x : ℕ) (xs ys : List ℕ) → contains x (xs ++ ys) ≡ (contains x xs || contains x ys)
absent-append x [] ys = refl
absent-append x (y ∷ xs) ys = ground (arith, absent-append x xs ys)

pub apart_of_IsDistinct :
    (x : ℕ) (xs ys : List ℕ) → IsDistinct (xs ++ ys) → contains x xs ≡ true → contains x ys ≡ false
apart_of_IsDistinct x [] ys h w = ground arith
apart_of_IsDistinct x (y ∷ xs) ys h w = elim (Bool-cases (x == y)) [
  | inl same ↦
      let is : x ≡ y = ground arith in
      let gone : contains x (xs ++ ys) ≡ false =
        subst (λ k. contains k (xs ++ ys) ≡ false) (sym is) h.0 in
      ground (arith, absent-append x xs ys)
  | inr differ ↦ apart_of_IsDistinct x xs ys h.1 (ground arith)
]

take_inside : (n f : ℕ) (xs : List ℕ) → contains f (take n xs) ≡ true → contains f xs ≡ true
take_inside zero f xs w = absurd (ground arith)
take_inside (suc n) f [] w = w
take_inside (suc n) f (x ∷ xs) w = ground (arith, take_inside n f xs)

pub current_inside :
    (f : ℕ) (fs : List ℕ) → contains f (current_only_fields fs) ≡ true → contains f fs ≡ true
unfolding current_only_fields
current_inside f fs w = take_inside (length fs - length base_fields) f fs w

pub take-base_first :
    (x : ℕ) (own : List ℕ)
    → contains entity_id_key (current_only_fields (base_fields ++ x ∷ own)) ≡ true
unfolding current_only_fields
take-base_first x own =
    let n : suc (length own) ≡ length (base_fields ++ x ∷ own) - length base_fields = omega arith in
    subst (λ n. contains entity_id_key (take n (base_fields ++ x ∷ own)) ≡ true) n refl
