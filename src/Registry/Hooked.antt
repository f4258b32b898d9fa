-- ===== src/Registry/Hooked.antt =====
-- The guards of one message type after hooks have been registered.
pub mod Hangs
pub mod Register
use anywise.Common.{
  ℕ, suc, ◌+◌, ◌≤◌, ◌<◌, Bool, true, false, ◌≡◌, refl, Option, none, some, List, [], ◌∷◌, ◌++◌,
  arith, All, if◌then◌else◌,
}
use anywise.Classes.{ClassTable}
use anywise.Metas.{Function}
use anywise.Registry.{Target, function, instance_of, GuardMeta}
use anywise.Registry.Guards.{meta_of}
use anywise.Registry.Mixed.{takes}

-- The pre-hook and the post-hook of a `Guard`.
abbrev pub Hook : Type 0
Hook = Option Target × Option Target

abbrev pub hook_before : Function → Hook
hook_before f = (some (function f), none)

abbrev pub hook_after : Function → Hook
hook_after f = (none, some (function f))

-- The hooks among the functions that take the message type, in their order.
abbrev pub taking : ClassTable → ℕ → (Function → Hook) → List Function → List Hook
taking t e hook [] = []
taking t e hook (f ∷ fs) = (if takes t f e then hook f ∷ [] else []) ++ taking t e hook fs

-- A `Guard` object of its own for each hook, made in their order among those from `lo` to `hi`.
abbrev pub AreHooked : ℕ → List Hook → ℕ → List GuardMeta → ℕ → Type 0
AreHooked e [] lo [] hi = lo ≤ hi
AreHooked e [] lo (m ∷ ms) hi = ⊥
AreHooked e (h ∷ hs) lo [] hi = ⊥
AreHooked e ((pre, post) ∷ hs) lo (m ∷ ms) hi =
    (o : ℕ) × (m ≡ meta_of e (instance_of o pre post)) × (lo ≤ o) × AreHooked e hs (suc o) ms hi

pub AreHooked-le :
    (e : ℕ) (hs : List Hook) (lo lo' : ℕ) (ms : List GuardMeta) (hi : ℕ)
    → lo ≤ lo'
    → AreHooked e hs lo' ms hi
    → AreHooked e hs lo ms hi
AreHooked-le e [] lo lo' [] hi le h = omega arith
AreHooked-le e [] lo lo' (m ∷ ms) hi le h = h
AreHooked-le e (x ∷ hs) lo lo' [] hi le h = h
AreHooked-le e ((pre, post) ∷ hs) lo lo' (m ∷ ms) hi le (o, is, from, rest) =
    (o, is, omega arith, rest)

pub AreHooked-append :
    (e : ℕ) (hs hs' : List Hook) (lo mid hi : ℕ) (ms ms' : List GuardMeta)
    → AreHooked e hs lo ms mid
    → AreHooked e hs' mid ms' hi
    → AreHooked e (hs ++ hs') lo (ms ++ ms') hi
AreHooked-append e [] hs' lo mid hi [] ms' a b = AreHooked-le e hs' lo mid ms' hi a b
AreHooked-append e [] hs' lo mid hi (m ∷ ms) ms' a b = absurd a
AreHooked-append e (x ∷ hs) hs' lo mid hi [] ms' a b = absurd a
AreHooked-append e ((pre, post) ∷ hs) hs' lo mid hi (m ∷ ms) ms' (o, is, from, rest) b =
    (o, is, from, AreHooked-append e hs hs' (suc o) mid hi ms ms' rest b)

pub AreHooked-nil : (e lo hi : ℕ) (ms : List GuardMeta) → AreHooked e [] lo ms hi → ms ≡ []
AreHooked-nil e lo hi [] h = refl
AreHooked-nil e lo hi (m ∷ ms) h = absurd h

-- No hook takes the message type.
pub taking_none :
    (t : ClassTable) (e : ℕ) (hook : Function → Hook) (fs : List Function)
    → All (λ f. takes t f e ≡ false) fs
    → taking t e hook fs ≡ []
taking_none t e hook [] none_takes = refl
taking_none t e hook (f ∷ fs) (first, rest) = rw first (taking_none t e hook fs rest)
