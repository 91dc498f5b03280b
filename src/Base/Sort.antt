-- ===== src/Base/Sort.antt =====
-- `ORDER BY` and `sort.Slice` as a stable insertion sort by a numeric key, and strictly ascending
-- keys.
use Prim.Native.Nat.{ℕ, suc, ◌≤◌, ◌<◌}
use mathlib.Core.Path.{◌≡◌, refl, ◌∙◌, ap}
use mathlib.Core.Bool.{Bool}
use mathlib.Core.Logic.{◌↔◌, inl, inr}
use mathlib.Core.List.{List, [], ◌∷◌, ◌++◌, map}
use native.Mathlib.Omega.{arith}
use nfuse.Base.Tests.{leb, if◌then◌else◌, Bool-cases}
use nfuse.Base.Lists.{All, keep}

module _ {ℓ} {A : Type ℓ} (key : A → ℕ) where
  unfoldable pub insert_by : A → List A → List A
  insert_by x [] = x ∷ []
  insert_by x (y ∷ ys) = if leb (key x) (key y) then x ∷ y ∷ ys else y ∷ insert_by x ys

  unfoldable pub sort_by : List A → List A
  sort_by [] = []
  sort_by (x ∷ xs) = insert_by x (sort_by xs)

module _ {ℓ} {A : Type ℓ} (key : A → ℕ) where
  pub All-insert_by {κ} :
      (P : A → Type κ) (x : A) (xs : List A) → All P (insert_by key x xs) ↔ (P x × All P xs)
  unfolding insert_by
  All-insert_by P x [] = (λ h. h, λ h. h)
  All-insert_by P x (y ∷ ys) =
      let ih = All-insert_by P x ys in
      elim (Bool-cases (leb (key x) (key y))) [
        | inl e ↦ rw e (λ h. h, λ h. h)
        | inr e ↦ rw e (λ h. ((ih.0 h.1).0, (h.0, (ih.0 h.1).1)), λ h. (h.1.0, ih.1 (h.0, h.1.1)))
      ]

  pub All-sort_by {κ} : (P : A → Type κ) (xs : List A) → All P (sort_by key xs) ↔ All P xs
  unfolding sort_by
  All-sort_by P [] = (λ h. h, λ h. h)
  All-sort_by P (x ∷ xs) =
      let here = All-insert_by P x (sort_by key xs) in
      let ih = All-sort_by P xs in
      (λ h. ((here.0 h).0, ih.0 (here.0 h).1), λ h. here.1 (h.0, ih.1 h.1))

-- Numbers that ascend strictly from above `low` up to at most `high`.
abbrev pub Ascending : ℕ → List ℕ → ℕ → Type 0
Ascending low [] high = low ≤ high
Ascending low (x ∷ xs) high = (low < x) × Ascending x xs high

Ascending-weaken :
    (low low' : ℕ) (xs : List ℕ) (high : ℕ)
    → low' ≤ low
    → Ascending low xs high
    → Ascending low' xs high
Ascending-weaken low low' [] high h a = omega arith
Ascending-weaken low low' (x ∷ xs) high h a = (omega arith, a.1)

pub Ascending-snoc :
    (low : ℕ) (xs : List ℕ) (high : ℕ)
    → Ascending low xs high
    → Ascending low (xs ++ suc high ∷ []) (suc high)
Ascending-snoc low [] high a = omega arith
Ascending-snoc low (x ∷ xs) high a = (a.0, Ascending-snoc x xs high a.1)

Ascending-above : (low : ℕ) (xs : List ℕ) (high : ℕ) → Ascending low xs high → All (λ x. low < x) xs
Ascending-above low [] high a = tt
Ascending-above low (x ∷ xs) high a =
    (a.0, Ascending-above low xs high (Ascending-weaken x low xs high (omega arith) a.1))

module _ {ℓ} {A : Type ℓ} (key : A → ℕ) where
  pub Ascending-keep :
      (p : A → Bool) (low : ℕ) (xs : List A) (high : ℕ)
      → Ascending low (map key xs) high
      → Ascending low (map key (keep p xs)) high
  Ascending-keep p low [] high a = a
  Ascending-keep p low (x ∷ xs) high a = elim (Bool-cases (p x)) [
    | inl e ↦ rw e (a.0, Ascending-keep p (key x) xs high a.1)
    | inr e ↦ rw e (
        Ascending-keep p low xs high
          (Ascending-weaken (key x) low (map key xs) high (omega arith) a.1))
  ]

  insert_by_first :
      (x : A) (xs : List A) → All (λ n. key x < n) (map key xs) → insert_by key x xs ≡ x ∷ xs
  unfolding insert_by
  insert_by_first x [] h = refl
  insert_by_first x (y ∷ ys) h = ground arith

  -- A list that ascends is sorted.
  pub sort_by-Ascending :
      (low : ℕ) (xs : List A) (high : ℕ) → Ascending low (map key xs) high → sort_by key xs ≡ xs
  unfolding sort_by
  sort_by-Ascending low [] high a = refl
  sort_by-Ascending low (x ∷ xs) high a =
      ap (insert_by key x) (sort_by-Ascending (key x) xs high a.1)
      ∙ insert_by_first x xs (Ascending-above (key x) (map key xs) high a.1)
