-- ===== src/Prelude/Predicates.antt =====
-- Predicates on lists by recursion, which the tactics read and build.
use mathlib.Core.Path.{◌≡◌}
use mathlib.Core.Logic.{◌⊎◌, inl, inr}
use mathlib.Core.List.{List, [], ◌∷◌, ◌++◌}

abbrev pub All {ℓ κ} : {A : Type ℓ} → (A → Type κ) → List A → Type κ
All P [] = Unit
All P (x ∷ xs) = P x × All P xs

-- Membership with its place kept.
infix 40 ◌∈◌
abbrev pub ◌∈◌ : {A : Type 0} → A → List A → Type 0
a ∈ [] = ⊥
a ∈ x ∷ xs = (a ≡ x) ⊎ (a ∈ xs)

pub All-append {ℓ κ} :
    {A : Type ℓ} (P : A → Type κ) (xs ys : List A) → All P xs → All P ys → All P (xs ++ ys)
All-append P [] ys hx hy = hy
All-append P (x ∷ xs) ys hx hy = (hx.0, All-append P xs ys hx.1 hy)

pub All-map {ℓ κ μ} :
    {A : Type ℓ} (P : A → Type κ) (Q : A → Type μ) (xs : List A)
    → ((a : A) → P a → Q a)
    → All P xs
    → All Q xs
All-map P Q [] f h = tt
All-map P Q (x ∷ xs) f h = (f x h.0, All-map P Q xs f h.1)

pub ∈-append : {A : Type 0} (a : A) (xs ys : List A) → a ∈ xs ++ ys → (a ∈ xs) ⊎ (a ∈ ys)
∈-append a [] ys m = inr m
∈-append a (x ∷ xs) ys (inl e) = inl (inl e)
∈-append a (x ∷ xs) ys (inr m) = elim (∈-append a xs ys m) [ inl l ↦ inl (inr l) | inr r ↦ inr r ]

pub ∈-append_left : {A : Type 0} (a : A) (xs ys : List A) → a ∈ xs → a ∈ xs ++ ys
∈-append_left a [] ys m = absurd m
∈-append_left a (x ∷ xs) ys (inl e) = inl e
∈-append_left a (x ∷ xs) ys (inr m) = inr (∈-append_left a xs ys m)

pub ∈-append_right : {A : Type 0} (a : A) (xs ys : List A) → a ∈ ys → a ∈ xs ++ ys
∈-append_right a [] ys m = m
∈-append_right a (x ∷ xs) ys m = inr (∈-append_right a xs ys m)
