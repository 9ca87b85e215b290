-- ===== src/Prelude/Maps.antt =====
-- Lemmas on `map`, `filter`, `any` and `all`.
use Prim.Native.Nat.{suc}
use mathlib.Core.Path.{◌≡◌, refl}
use mathlib.Core.Logic.{inl, inr}
use mathlib.Core.Bool.{Bool, true}
use mathlib.Core.List.{List, [], ◌∷◌, ◌++◌, map}
use native.Mathlib.Omega.{arith}
use klend_sdk.Prelude.Tests.{if◌then◌else◌, Bool-cases}
use klend_sdk.Prelude.Lists.{length, filter, any, all}

pub length-map {ℓ κ} :
    {A : Type ℓ} {B : Type κ} (f : A → B) (xs : List A) → length (map f xs) ≡ length xs
length-map f [] = refl
length-map f (x ∷ xs) = λ i. suc (length-map f xs i)

pub map-map {ℓ κ μ} :
    {A : Type ℓ} {B : Type κ} {C : Type μ} (f : A → B) (g : B → C) (xs : List A)
    → map g (map f xs) ≡ map (λ x. g (f x)) xs
map-map f g [] = refl
map-map f g (x ∷ xs) = λ i. g (f x) ∷ map-map f g xs i

pub map_self {ℓ} : {A : Type ℓ} (f : A → A) → ((x : A) → f x ≡ x) → (xs : List A) → map f xs ≡ xs
map_self f same [] = refl
map_self f same (x ∷ xs) = λ i. same x i ∷ map_self f same xs i

pub map_ext {ℓ κ} :
    {A : Type ℓ} {B : Type κ} (f g : A → B)
    → ((x : A) → f x ≡ g x)
    → (xs : List A) → map f xs ≡ map g xs
map_ext f g same [] = refl
map_ext f g same (x ∷ xs) = λ i. same x i ∷ map_ext f g same xs i

pub any-append {ℓ} :
    {A : Type ℓ} (f : A → Bool) (xs ys : List A)
    → any f (xs ++ ys) ≡ (if any f xs then true else any f ys)
any-append f [] ys = refl
any-append f (x ∷ xs) ys = ground (arith, any-append f xs ys)

pub all_ext {ℓ} :
    {A : Type ℓ} (f g : A → Bool) → ((x : A) → f x ≡ g x) → (xs : List A) → all f xs ≡ all g xs
all_ext f g same [] = refl
all_ext f g same (x ∷ xs) = rw (same x, all_ext f g same xs) refl

pub filter-map {ℓ κ} :
    {A : Type ℓ} {B : Type κ} (f : A → B) (test : B → Bool) (xs : List A)
    → filter test (map f xs) ≡ map f (filter (λ x. test (f x)) xs)
filter-map f test [] = refl
filter-map f test (x ∷ xs) = elim (Bool-cases (test (f x))) [
  | inl passes ↦ rw (passes, filter-map f test xs) refl
  | inr stops ↦ rw (stops, filter-map f test xs) refl
]
