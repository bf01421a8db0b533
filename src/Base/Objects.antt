-- ===== src/Base/Objects.antt =====
-- JavaScript objects and maps with texts as keys: a list of entries in the order of their first
-- write. (An object lists keys that are numbers first; no property speaks of the order.)
use mathlib.Core.Path.{◌≡◌, refl}
use mathlib.Core.Bool.{Bool, false, ◌||◌}
use mathlib.Core.Logic.{inl, inr}
use mathlib.Core.Option.{Option, none, some}
use mathlib.Core.List.{List, [], ◌∷◌}
use native.Mathlib.Omega.{arith}
use sportystake.Base.Tests.{if◌then◌else◌, Bool-cases}
use sportystake.Base.Lists.{All, All-imp}
use sportystake.Base.Strings.{Text, text_eq, text_eq-eq, text_eq_refl}

-- `set.has(k)`
abbrev pub has : Text → List Text → Bool
has k [] = false
has k (j ∷ js) = text_eq j k || has k js

module _ {ℓ} {A : Type ℓ} where
  -- `object[k]`
  abbrev pub lookup : Text → List (Text × A) → Option A
  lookup k [] = none
  lookup k ((j, a) ∷ rest) = if text_eq j k then some a else lookup k rest

  -- `object[k] = a`
  abbrev pub put : Text → A → List (Text × A) → List (Text × A)
  put k a [] = (k, a) ∷ []
  put k a ((j, b) ∷ rest) = if text_eq j k then (j, a) ∷ rest else (j, b) ∷ put k a rest

  -- No key stands twice.
  abbrev pub IsObject : List (Text × A) → Type ℓ
  IsObject [] = Unit
  IsObject ((k, a) ∷ rest) = (lookup k rest ≡ none) × IsObject rest

  pub lookup-put :
      (k j : Text) (a : A) (o : List (Text × A))
      → lookup k (put j a o) ≡ (if text_eq j k then some a else lookup k o)
  lookup-put k j a [] = refl
  lookup-put k j a ((i, b) ∷ rest) =
      ground (
        arith,
        lookup-put k j a rest,
        text_eq-eq i j,
        text_eq-eq i k,
        text_eq-eq j k,
        text_eq_refl k,
      )

  pub put-IsObject : (k : Text) (a : A) (o : List (Text × A)) → IsObject o → IsObject (put k a o)
  put-IsObject k a [] h = (refl, tt)
  put-IsObject k a ((j, b) ∷ rest) (new, h) = elim (Bool-cases (text_eq j k)) [
    | inl e ↦ rw e (new, h)
    | inr e ↦ rw e (
      ground (arith, lookup-put j k a rest, text_eq-eq k j, text_eq_refl k),
      put-IsObject k a rest h,
    )
  ]

  -- Each entry is what its key looks up.
  pub lookup-entries : (o : List (Text × A)) → IsObject o → All (λ e. lookup e.0 o ≡ some e.1) o
  lookup-entries [] h = tt
  lookup-entries ((k, a) ∷ rest) (new, h) = (
    rw (text_eq_refl k) refl,
    All-imp (λ e same. ground (arith, text_eq-eq k e.0)) rest (lookup-entries rest h),
  )
