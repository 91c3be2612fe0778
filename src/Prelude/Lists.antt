-- ===== src/Prelude/Lists.antt =====
-- Lists with Boolean tests and native lengths: `some`, `every`, `filter`, `includes`, `slice`.
use Prim.Native.Nat.{ℕ, zero, suc, ◌+◌, ◌≤◌}
use Prim.Native.String.{String}
use mathlib.Core.Path.{◌≡◌, refl, ap}
use mathlib.Core.Logic.{◌⊎◌, inl, inr}
use mathlib.Core.Bool.{Bool, true, false, ◌&&◌, ◌||◌}
use mathlib.Core.List.{List, [], ◌∷◌, ◌++◌, map}
use native.Mathlib.Omega.{arith}
use text.Mathlib.Text.{◌==◌}
use text.Mathlib.TextEquality.{}
use autoreas_mobile.Prelude.Tests.{if◌then◌else◌, nat_eq, Bool-cases}

module _ {ℓ} {A : Type ℓ} where
  abbrev pub length : List A → ℕ
  length [] = 0
  length (x ∷ xs) = suc (length xs)

  abbrev pub is_empty : List A → Bool
  is_empty [] = true
  is_empty (x ∷ xs) = false

  abbrev pub take : ℕ → List A → List A
  take zero xs = []
  take (suc n) [] = []
  take (suc n) (x ∷ xs) = x ∷ take n xs

  abbrev pub any : (A → Bool) → List A → Bool
  any p [] = false
  any p (x ∷ xs) = p x || any p xs

  abbrev pub every : (A → Bool) → List A → Bool
  every p [] = true
  every p (x ∷ xs) = p x && every p xs

  abbrev pub filterb : (A → Bool) → List A → List A
  filterb p [] = []
  filterb p (x ∷ xs) = if p x then x ∷ filterb p xs else filterb p xs

  abbrev pub All {κ} : (A → Type κ) → List A → Type κ
  All P [] = Unit
  All P (x ∷ xs) = P x × All P xs

  pub length-append : (xs ys : List A) → length (xs ++ ys) ≡ length xs + length ys
  length-append [] ys = omega arith
  length-append (x ∷ xs) ys = omega (arith, length-append xs ys)

  pub length-take-le : (n : ℕ) (xs : List A) → length (take n xs) ≤ n
  length-take-le zero xs = omega arith
  length-take-le (suc n) [] = omega arith
  length-take-le (suc n) (x ∷ xs) = omega (arith, length-take-le n xs)

  pub length-filterb-le : (p : A → Bool) (xs : List A) → length (filterb p xs) ≤ length xs
  length-filterb-le p [] = omega arith
  length-filterb-le p (x ∷ xs) = ground (arith, length-filterb-le p xs)

module _ {A : Type 0} where
  abbrev pub Elem : A → List A → Type 0
  Elem a [] = ⊥
  Elem a (x ∷ xs) = (a ≡ x) ⊎ Elem a xs

  pub Elem-filterb :
      (p : A → Bool) (a : A) (xs : List A) → Elem a xs → p a ≡ true → Elem a (filterb p xs)
  Elem-filterb p a [] m h = m
  Elem-filterb p a (x ∷ xs) (inl e) h = ground arith
  Elem-filterb p a (x ∷ xs) (inr m) h = ground (arith, Elem-filterb p a xs m h)

  pub filterb-Elem :
      (p : A → Bool) (a : A) (xs : List A) → Elem a (filterb p xs) → Elem a xs × (p a ≡ true)
  filterb-Elem p a [] m = absurd m
  filterb-Elem p a (x ∷ xs) m = grind (arith, filterb-Elem p a xs)

abbrev pub contains : List String → String → Bool
contains xs s = any (λ x. x == s) xs

abbrev pub includes : List ℕ → ℕ → Bool
includes xs n = any (λ x. nat_eq x n) xs

module _ {A : Type 0} where
  pub Elem-append_left : (a : A) (xs ys : List A) → Elem a xs → Elem a (xs ++ ys)
  Elem-append_left a [] ys m = absurd m
  Elem-append_left a (x ∷ xs) ys (inl e) = inl e
  Elem-append_left a (x ∷ xs) ys (inr m) = inr (Elem-append_left a xs ys m)

  pub Elem-append_right : (a : A) (xs ys : List A) → Elem a ys → Elem a (xs ++ ys)
  Elem-append_right a [] ys m = m
  Elem-append_right a (x ∷ xs) ys m = inr (Elem-append_right a xs ys m)

  pub append-Elem : (a : A) (xs ys : List A) → Elem a (xs ++ ys) → Elem a xs ⊎ Elem a ys
  append-Elem a [] ys m = inr m
  append-Elem a (x ∷ xs) ys (inl e) = inl (inl e)
  append-Elem a (x ∷ xs) ys (inr m) = elim (append-Elem a xs ys m) [
    | inl l ↦ inl (inr l)
    | inr r ↦ inr r
  ]

module _ {A B : Type 0} where
  pub Elem-map : (f : A → B) (a : A) (xs : List A) → Elem a xs → Elem (f a) (map f xs)
  Elem-map f a [] m = absurd m
  Elem-map f a (x ∷ xs) (inl e) = inl (ap f e)
  Elem-map f a (x ∷ xs) (inr m) = inr (Elem-map f a xs m)

  pub map-Elem :
      (f : A → B) (b : B) (xs : List A) → Elem b (map f xs) → (a : A) × Elem a xs × (b ≡ f a)
  map-Elem f b [] m = absurd m
  map-Elem f b (x ∷ xs) (inl e) = (x, inl refl, e)
  map-Elem f b (x ∷ xs) (inr m) = let (a, n, e) = map-Elem f b xs m in (a, inr n, e)

module _ {A : Type 0} where
  pub any-Elem : (p : A → Bool) (xs : List A) → any p xs ≡ true → (a : A) × Elem a xs × (p a ≡ true)
  any-Elem p [] h = absurd (ground arith)
  any-Elem p (x ∷ xs) h = elim (Bool-cases (p x)) [
    | inl hit ↦ (x, inl refl, hit)
    | inr miss ↦ let (a, m, e) = any-Elem p xs (ground arith) in (a, inr m, e)
  ]

  pub Elem-any : (p : A → Bool) (a : A) (xs : List A) → Elem a xs → p a ≡ true → any p xs ≡ true
  Elem-any p a [] m h = absurd m
  Elem-any p a (x ∷ xs) (inl e) h = ground arith
  Elem-any p a (x ∷ xs) (inr m) h = ground (arith, Elem-any p a xs m h)

  pub All-Elem {κ} : (P : A → Type κ) (a : A) (xs : List A) → All P xs → Elem a xs → P a
  All-Elem P a [] all m = absurd m
  All-Elem P a (x ∷ xs) all (inl e) = rw e all.0
  All-Elem P a (x ∷ xs) all (inr m) = All-Elem P a xs all.1 m

  pub take-Elem : (n : ℕ) (a : A) (xs : List A) → Elem a (take n xs) → Elem a xs
  take-Elem zero a xs m = absurd m
  take-Elem (suc n) a [] m = m
  take-Elem (suc n) a (x ∷ xs) (inl e) = inl e
  take-Elem (suc n) a (x ∷ xs) (inr m) = inr (take-Elem n a xs m)

  pub take-all : (n : ℕ) (xs : List A) → length xs ≤ n → take n xs ≡ xs
  take-all zero [] h = refl
  take-all zero (x ∷ xs) h = absurd (omega arith)
  take-all (suc n) [] h = refl
  take-all (suc n) (x ∷ xs) h = ap (◌∷◌ x) (take-all n xs (omega arith))

  -- A test fails at an element of a list on which it holds nowhere.
  pub any-false : (p : A → Bool) (a : A) (xs : List A) → any p xs ≡ false → Elem a xs → p a ≡ false
  any-false p a [] h m = absurd m
  any-false p a (x ∷ xs) h (inl e) = ground arith
  any-false p a (x ∷ xs) h (inr m) = any-false p a xs (ground arith) m

module _ {A B : Type 0} where
  pub length-map : (f : A → B) (xs : List A) → length (map f xs) ≡ length xs
  length-map f [] = refl
  length-map f (x ∷ xs) = ap suc (length-map f xs)
