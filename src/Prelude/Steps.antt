-- ===== src/Prelude/Steps.antt =====
-- Code that changes a state, reports events and may panic. `none` is a panic (a nil dereference).
pub mod Rules
use mathlib.Core.Option.{Option, none, some}
use mathlib.Core.List.{List, [], ◌∷◌, ◌++◌}

abbrev pub Step {ℓ κ} : Type ℓ → Type κ → Type (ℓ ⊔ κ)
Step S E = S → Option (S × List E)

module _ {ℓ κ} {S : Type ℓ} {E : Type κ} where
  abbrev pub done : Step S E
  done s = some (s, [])

  infixl 5 ◌>>◌
  unfoldable pub ◌>>◌ : Step S E → Step S E → Step S E
  ◌>>◌ f g s = elim (f s) [
    | none ↦ none
    | some (s', ev) ↦ elim (g s') [ none ↦ none | some (t, ev') ↦ some (t, ev ++ ev') ]
  ]

  -- `for _, x := range xs`
  unfoldable pub each {ι} : {A : Type ι} → (A → Step S E) → List A → Step S E
  unfolding ◌>>◌
  each f [] = done
  each f (x ∷ xs) = f x >> each f xs
