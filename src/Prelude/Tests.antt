-- ===== src/Prelude/Tests.antt =====
-- Boolean tests on numbers and optional numbers, the conditional, and case splits that keep
-- their equation.
use Prim.Native.Nat.{ℕ, compare, Ordering}
use Prim.Native.String.{String}
use mathlib.Core.Path.{◌≡◌, refl}
use mathlib.Core.Logic.{◌≢◌, ◌⊎◌, inl, inr}
use mathlib.Core.Bool.{Bool, true, false}
use mathlib.Core.Option.{Option, none, some}
use native.Mathlib.Omega.{arith}
use text.Mathlib.Text.{◌==◌}
use text.Mathlib.TextEquality.{eq_iff}

abbrev pub ltb : ℕ → ℕ → Bool
ltb a b = elim (compare a b) [ Ordering.lt ↦ true | _ ↦ false ]

abbrev pub leb : ℕ → ℕ → Bool
leb a b = elim (compare a b) [ Ordering.gt ↦ false | _ ↦ true ]

-- `===` on numbers
abbrev pub nat_eq : ℕ → ℕ → Bool
nat_eq a b = elim (compare a b) [ Ordering.eq ↦ true | _ ↦ false ]

-- `===` on `number | null`
abbrev pub nat_opt_eq : Option ℕ → Option ℕ → Bool
nat_opt_eq none none = true
nat_opt_eq (some a) (some b) = nat_eq a b
nat_opt_eq _ _ = false

infix 1 if◌then◌else◌
abbrev pub if◌then◌else◌ {ℓ} : {A : Type ℓ} → Bool → A → A → A
if true then x else y = x
if false then x else y = y

-- `e ?? fallback`
abbrev pub get_or {ℓ} : {A : Type ℓ} → Option A → A → A
get_or none d = d
get_or (some a) d = a

pub Bool-cases : (b : Bool) → (b ≡ true) ⊎ (b ≡ false)
Bool-cases true = inl refl
Bool-cases false = inr refl

pub Option-cases {ℓ} : {A : Type ℓ} (o : Option A) → (o ≡ none) ⊎ ((a : A) × (o ≡ some a))
Option-cases none = inl refl
Option-cases (some a) = inr (a, refl)

pub nat_eq_refl : (a : ℕ) → nat_eq a a ≡ true
nat_eq_refl a = ground arith

pub eq-of-== : (s t : String) → (s == t) ≡ true → s ≡ t
eq-of-== s t h = (eq_iff s t).0 h

pub ne-of-== : (s t : String) → (s == t) ≡ false → s ≢ t
ne-of-== s t h e = ground (arith, (eq_iff s t).1 e)

ne_test : (s t : String) → s ≢ t → (b : Bool) → (s == t) ≡ b → b ≡ false
ne_test s t n true e = absurd (n (eq-of-== s t e))
ne_test s t n false e = refl

pub ==-of-ne : (s t : String) → s ≢ t → (s == t) ≡ false
==-of-ne s t n = ne_test s t n (s == t) refl
