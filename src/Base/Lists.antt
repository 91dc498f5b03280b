-- ===== src/Base/Lists.antt =====
-- Lists measured by native numbers, and predicates on lists by recursion.
use Prim.Native.Nat.{ℕ, suc, ◌+◌}
use mathlib.Core.Path.{◌≡◌, refl}
use mathlib.Core.Logic.{◌↔◌}
use mathlib.Core.Bool.{Bool, true, false, ◌||◌}
use mathlib.Core.Option.{Option, none, some}
use mathlib.Core.List.{List, [], ◌∷◌, ◌++◌, map}
use native.Mathlib.Omega.{arith}
use nfuse.Base.Tests.{if◌then◌else◌}

module _ {ℓ} {A : Type ℓ} where
  abbrev pub length : List A → ℕ
  length [] = 0
  length (x ∷ xs) = suc (length xs)

  pub length-append : (xs ys : List A) → length (xs ++ ys) ≡ length xs + length ys
  length-append [] ys = omega arith
  length-append (x ∷ xs) ys = omega (arith, length-append xs ys)

  abbrev pub is_empty : List A → Bool
  is_empty [] = true
  is_empty (x ∷ xs) = false

  -- The members that pass a test, in order.
  abbrev pub keep : (A → Bool) → List A → List A
  keep p [] = []
  keep p (x ∷ xs) = if p x then x ∷ keep p xs else keep p xs

  -- The first member that passes a test.
  abbrev pub find : (A → Bool) → List A → Option A
  find p [] = none
  find p (x ∷ xs) = if p x then some x else find p xs

  abbrev pub any : (A → Bool) → List A → Bool
  any p [] = false
  any p (x ∷ xs) = p x || any p xs

  -- The members that pass a test are changed.
  abbrev pub update_where : (A → Bool) → (A → A) → List A → List A
  update_where p f [] = []
  update_where p f (x ∷ xs) = (if p x then f x else x) ∷ update_where p f xs

  pub any-append : (p : A → Bool) (xs ys : List A) → any p (xs ++ ys) ≡ (any p xs || any p ys)
  any-append p [] ys = refl
  any-append p (x ∷ xs) ys = ground (arith, any-append p xs ys)

abbrev pub All {ℓ κ} : {A : Type ℓ} → (A → Type κ) → List A → Type κ
All P [] = Unit
All P (x ∷ xs) = P x × All P xs

module _ {ℓ κ} {A : Type ℓ} (P : A → Type κ) where
  pub All-append : (xs ys : List A) → All P xs → All P ys → All P (xs ++ ys)
  All-append [] ys hx hy = hy
  All-append (x ∷ xs) ys hx hy = (hx.0, All-append xs ys hx.1 hy)

  pub All-append_iff : (xs ys : List A) → All P (xs ++ ys) ↔ (All P xs × All P ys)
  All-append_iff [] ys = (λ h. (tt, h), λ h. h.1)
  All-append_iff (x ∷ xs) ys =
      let ih = All-append_iff xs ys in
      (λ h. ((h.0, (ih.0 h.1).0), (ih.0 h.1).1), λ h. (h.0.0, ih.1 (h.0.1, h.1)))

  -- The members that are kept have passed the test.
  pub All-keep : (p : A → Bool) (xs : List A) → All P xs → All (λ a. P a × (p a ≡ true)) (keep p xs)
  All-keep p [] h = tt
  All-keep p (x ∷ xs) h =
      (elim (p x)
          as (λ b.
            p x ≡ b → All (λ a. P a × (p a ≡ true)) (if b then x ∷ keep p xs else keep p xs)) [
              | true ↦ λ e. ((h.0, e), All-keep p xs h.1)
              | false ↦ λ e. All-keep p xs h.1
            ])
        refl

All-map {ℓ κ μ} :
    {A : Type ℓ} {B : Type κ} (P : B → Type μ) (f : A → B) (xs : List A)
    → All (λ a. P (f a)) xs
    → All P (map f xs)
All-map P f [] h = tt
All-map P f (x ∷ xs) h = (h.0, All-map P f xs h.1)

pub All-mono {ℓ κ μ} :
    {A : Type ℓ} {P : A → Type κ} {Q : A → Type μ} (f : (a : A) → P a → Q a) (xs : List A)
    → All P xs
    → All Q xs
All-mono f [] h = tt
All-mono f (x ∷ xs) h = (f x h.0, All-mono f xs h.1)

module _ {ℓ} {A : Type ℓ} (p : A → Bool) where
  pub find-none_iff : (xs : List A) → (find p xs ≡ none) ↔ All (λ a. p a ≡ false) xs
  find-none_iff [] = ground arith
  find-none_iff (x ∷ xs) = let ih = find-none_iff xs in ground (arith, ih)

  pub All-update_where {κ} :
      (P : A → Type κ) (f : A → A) (xs : List A)
      → ((a : A) → P a → p a ≡ true → P (f a))
      → All P xs
      → All P (update_where p f xs)
  All-update_where P f [] step h = tt
  All-update_where P f (x ∷ xs) step h = (
    (elim (p x) as (λ b. p x ≡ b → P (if b then f x else x)) [
      | true ↦ λ e. step x h.0 e
      | false ↦ λ e. h.0
    ])
        refl,
    All-update_where P f xs step h.1,
  )

  pub update_where_none : (f : A → A) (xs : List A) → any p xs ≡ false → update_where p f xs ≡ xs
  update_where_none f [] h = refl
  update_where_none f (x ∷ xs) h = ground (arith, update_where_none f xs)

  -- An update that leaves a key alone leaves the list of keys alone.
  pub map-update_where {κ} :
      {B : Type κ} (key : A → B) (f : A → A) (xs : List A)
      → ((a : A) → key (f a) ≡ key a)
      → map key (update_where p f xs) ≡ map key xs
  map-update_where key f [] same = refl
  map-update_where key f (x ∷ xs) same = ground (arith, same x, map-update_where key f xs same)

pub any-map {ℓ κ} :
    {A : Type ℓ} {B : Type κ} (f : A → B) (p : B → Bool) (xs : List A)
    → any p (map f xs) ≡ any (λ a. p (f a)) xs
any-map f p [] = refl
any-map f p (x ∷ xs) = ground (arith, any-map f p xs)

pub is_empty-nil {ℓ} : {A : Type ℓ} (xs : List A) → is_empty xs ≡ true → xs ≡ []
is_empty-nil [] h = refl
is_empty-nil (x ∷ xs) h = cc
