-- ===== src/Base/Maps.antt =====
-- A hash from texts to values, as a list of its pairs.
use mathlib.Core.Path.{◌≡◌, refl}
use mathlib.Core.Option.{Option, none, some}
use mathlib.Core.List.{List, [], ◌∷◌}
use native.Mathlib.Omega.{arith}
use pimio.Base.Tests.{if◌then◌else◌}
use pimio.Base.Texts.{Text, text_eq, text_eq_iff}

module _ {ℓ} {A : Type ℓ} where
  unfoldable pub find_at : Text → List (Text × A) → Option A
  find_at k [] = none
  find_at k ((j, a) ∷ m) = if text_eq j k then some a else find_at k m

  unfoldable pub put_at : Text → A → List (Text × A) → List (Text × A)
  put_at k a [] = (k, a) ∷ []
  put_at k a ((j, b) ∷ m) = if text_eq j k then (k, a) ∷ m else (j, b) ∷ put_at k a m

  unfoldable pub without : Text → List (Text × A) → List (Text × A)
  without k [] = []
  without k ((j, b) ∷ m) = if text_eq j k then without k m else (j, b) ∷ without k m

  pub find-put :
      (k j : Text) (a : A) (m : List (Text × A))
      → find_at j (put_at k a m) ≡ (if text_eq k j then some a else find_at j m)
  unfolding find_at put_at
  find-put k j a [] = refl
  find-put k j a ((i, b) ∷ m) =
      ground (arith, text_eq_iff k j, text_eq_iff i k, text_eq_iff i j, find-put k j a m)

  pub find-without :
      (k j : Text) (m : List (Text × A))
      → find_at j (without k m) ≡ (if text_eq k j then none else find_at j m)
  unfolding find_at without
  find-without k j [] = ground arith
  find-without k j ((i, b) ∷ m) =
      ground (arith, text_eq_iff k j, text_eq_iff i k, text_eq_iff i j, find-without k j m)
