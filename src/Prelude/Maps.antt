-- ===== src/Prelude/Maps.antt =====
-- Go maps with text keys. A map is the function of its look-ups, `none` where the key is missing;
-- a loop over a map goes over a list of its keys, in the order that the run time happened to pick.
use Prim.Native.String.{String}
use mathlib.Core.Path.{◌≡◌, subst}
use mathlib.Core.Logic.{◌≢◌, ◌⊎◌, inl, inr}
use mathlib.Core.Option.{Option, none, some}
use native.Mathlib.Omega.{arith}
use text.Mathlib.Text.{◌==◌}
use text.Mathlib.TextEquality.{eq_iff}
use lotr_kafka_strategy_game.Prelude.Tests.{if◌then◌else◌, text_cases}

abbrev pub Dict {ℓ} : Type ℓ → Type ℓ
Dict V = String → Option V

abbrev pub empty {ℓ} : {V : Type ℓ} → Dict V
empty k = none

abbrev pub insert {ℓ} : {V : Type ℓ} → Dict V → String → V → Dict V
insert m k v j = if k == j then some v else m j

abbrev pub Has {ℓ} : {V : Type ℓ} → Dict V → String → Type ℓ
Has m k = m k ≢ none

-- `m[k]` of a map whose values are structs: a missing key reads as the zero value.
abbrev pub get_or {ℓ} : {V : Type ℓ} → Dict V → String → V → V
get_or m k zero_value = elim (m k) [ none ↦ zero_value | some v ↦ v ]

pub Has-insert {ℓ} :
    {V : Type ℓ} (m : Dict V) (k j : String) (v : V) → Has m j → Has (insert m k v) j
Has-insert m k j v h = ground arith

insert_cases {ℓ} :
    {V : Type ℓ} (m : Dict V) (k j : String) (v x : V)
    → insert m k v j ≡ some x
    → (k ≡ j) × (v ≡ x) ⊎ (m j ≡ some x)
insert_cases m k j v x h = elim (text_cases k j) [
  | inl (t, p) ↦ inl (p, ground arith)
  | inr (f, p) ↦ inr (ground arith)
]

-- What holds of the value written and of every value that was there holds of every value.
pub insert_induction {ℓ κ} :
    {V : Type ℓ} (P : String → V → Type κ) (m : Dict V) (k : String) (v : V)
    → P k v
    → ((j : String) (x : V) → m j ≡ some x → P j x)
    → (j : String) (x : V) → insert m k v j ≡ some x
    → P j x
insert_induction P m k v new old j x h = elim (insert_cases m k j v x h) [
  | inl (p, q) ↦ subst (λ y. P j y) q (subst (λ i. P i v) p new)
  | inr there ↦ old j x there
]

-- The keys after a write.
pub Has-insert_cases {ℓ} :
    {V : Type ℓ} (m : Dict V) (k : String) (v : V) (j : String)
    → Has (insert m k v) j
    → (k ≡ j) ⊎ Has m j
Has-insert_cases m k v j h = elim (text_cases k j) [
  | inl (t, p) ↦ inl p
  | inr (f, p) ↦ inr (λ e. h (ground arith))
]

-- Writing under a key that is there adds no key.
pub Has-insert_back {ℓ} :
    {V : Type ℓ} (m : Dict V) (k : String) (v : V) (j : String)
    → Has m k
    → Has (insert m k v) j
    → Has m j
Has-insert_back m k v j old h = elim (text_cases k j) [
  | inl (t, p) ↦ subst (λ i. Has m i) p old
  | inr (f, p) ↦ λ e. h (ground arith)
]

pub Has_of_some {ℓ} : {V : Type ℓ} (o : Option V) {v : V} → o ≡ some v → o ≢ none
Has_of_some o h = λ e. ground arith

-- The same key written to two maps.
pub Has-insert_both {ℓ κ} :
    {V : Type ℓ} {W : Type κ} (m : Dict V) (n : Dict W) (k : String) (v : V) (w : W) (j : String)
    → (Has m j → Has n j)
    → Has (insert m k v) j
    → Has (insert n k w) j
Has-insert_both m n k v w j h there = elim (text_cases k j) [
  | inl (t, p) ↦ λ e. ground arith
  | inr (f, p) ↦ λ e. h (λ q. there (ground arith)) (ground arith)
]

pub Has-insert_self {ℓ} : {V : Type ℓ} (m : Dict V) (k : String) (v : V) → Has (insert m k v) k
Has-insert_self m k v e = ground (arith, eq_iff k k)
