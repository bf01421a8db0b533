-- ===== src/Base/Keys.antt =====
-- Tables: lists of rows with a primary key.
use mathlib.Core.List.{List, [], ◌∷◌, map}
use mathlib.Core.Logic.{◌≢◌}
use mathlib.Core.Path.{◌≡◌, refl, ap₂}
use mathlib.Core.Bool.{Bool}
use native.Mathlib.Omega.{arith}
use Prim.Native.Nat.{ℕ}
use sportystake.Base.Tests.{◌==◌, if◌then◌else◌}
use sportystake.Base.Lists.{All, sum_by, select}

module _ {ℓ κ} {A : Type ℓ} {B : Type κ} where
  pub map_congr_All : (f g : A → B) (xs : List A) → All (λ x. f x ≡ g x) xs → map f xs ≡ map g xs
  map_congr_All f g [] h = refl
  map_congr_All f g (x ∷ xs) (e, h) = ap₂ ◌∷◌ e (map_congr_All f g xs h)

  pub All-map {μ} :
      (P : B → Type μ) (f : A → B) (xs : List A) → All (λ x. P (f x)) xs → All P (map f xs)
  All-map P f [] h = tt
  All-map P f (x ∷ xs) (p, h) = (p, All-map P f xs h)

module _ {ℓ} {A : Type ℓ} where
  pub All-tabulate {κ} : {P : A → Type κ} → ((x : A) → P x) → (xs : List A) → All P xs
  All-tabulate h [] = tt
  All-tabulate h (x ∷ xs) = (h x, All-tabulate h xs)

  pub All-zip {κ μ ν} :
      {P : A → Type κ} {Q : A → Type μ} {R : A → Type ν}
      → ((x : A) → P x → Q x → R x)
      → (xs : List A) → All P xs
      → All Q xs
      → All R xs
  All-zip f [] p q = tt
  All-zip f (x ∷ xs) (p, ps) (q, qs) = (f x p q, All-zip f xs ps qs)

  pub sum_by-select :
      (p : A → Bool) (w : A → ℕ) (xs : List A)
      → sum_by w (select p xs) ≡ sum_by (λ x. if p x then w x else 0) xs
  sum_by-select p w [] = refl
  sum_by-select p w (x ∷ xs) = ground (arith, sum_by-select p w xs)

  -- The keys are pairwise different.
  abbrev pub IsUnique : (A → ℕ) → List A → Type 0
  IsUnique key [] = Unit
  IsUnique key (x ∷ xs) = All (λ y. key y ≢ key x) xs × IsUnique key xs

  abbrev pub at_key : (A → ℕ) → (A → ℕ) → ℕ → A → ℕ
  at_key key w i x = if i == key x then w x else 0

  sum_by-absent :
      (key w : A → ℕ) (i : ℕ) (xs : List A)
      → All (λ y. key y ≢ i) xs
      → sum_by (at_key key w i) xs ≡ 0
  sum_by-absent key w i [] h = refl
  sum_by-absent key w i (x ∷ xs) (n, h) = ground (arith, sum_by-absent key w i xs h)

  -- Under a primary key a sum over the rows with one key is that row's weight.
  pub sum_by_unique :
      (key w : A → ℕ) (xs : List A)
      → IsUnique key xs
      → All (λ x. sum_by (at_key key w (key x)) xs ≡ w x) xs
  sum_by_unique key w [] h = tt
  sum_by_unique key w (x ∷ xs) (new, h) = (
    ground (arith, sum_by-absent key w (key x) xs new),
    All-zip (λ y n e. ground arith) xs new (sum_by_unique key w xs h),
  )
