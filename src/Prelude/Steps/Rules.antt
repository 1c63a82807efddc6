-- ===== src/Prelude/Steps/Rules.antt =====
-- Rules for steps, one for each way to build one: that a step does not panic and keeps an invariant
-- (`Total`), and what a step that does not panic keeps and reports (`Safe`).
use mathlib.Core.Path.{◌≡◌, refl, sym, subst}
use mathlib.Core.Logic.{inl, inr}
use mathlib.Core.Bool.{Bool, true, false}
use mathlib.Core.Option.{Option, none, some}
use mathlib.Core.List.{List, [], ◌∷◌, ◌++◌}
use native.Mathlib.Omega.{arith}
use lotr_kafka_strategy_game.Prelude.Tests.{if◌then◌else◌, Option-cases}
use lotr_kafka_strategy_game.Prelude.Lists.{All, All-append}
use lotr_kafka_strategy_game.Prelude.Steps.{Step, done, ◌>>◌, each}

-- A computation that returns, with a result of which `P` holds.
abbrev pub Gives {ℓ} : {A : Type ℓ} → (A → Type 0) → Option A → Type 0
Gives P none = ⊥
Gives P (some a) = P a

pub Gives-elim {ℓ} :
    {A : Type ℓ} (P : A → Type 0) (o : Option A) → Gives P o → (a : A) × (o ≡ some a) × P a
Gives-elim P none h = absurd h
Gives-elim P (some a) h = (a, refl, h)

pub record Total {S E : Type 0} (P : S → Type 0) (f : Step S E) : Type 0 where
  pub at : (s : S) → P s → Gives (λ r. P r.0) (f s)

pub record Safe {S E : Type 0} (P : S → Type 0) (Q : E → Type 0) (f : Step S E) : Type 0 where
  pub at : (s : S) (r : S × List E) → f s ≡ some r → P s → P r.0 × All Q r.1

pub some_eq {ℓ} : {A : Type ℓ} {a b : A} → some a ≡ some b → a ≡ b
some_eq h = cc

-- What the parts of a sequence return, from what it returns.
pub >>-inversion :
    {S E : Type 0} (f g : Step S E) (s : S) (t : S × List E)
    → (f >> g) s ≡ some t
    → (r q : S × List E) × (f s ≡ some r) × (g r.0 ≡ some q) × (t ≡ (q.0, r.1 ++ q.1))
unfolding ◌>>◌
>>-inversion f g s t h = elim (Option-cases (f s)) [
  | inl e ↦ absurd (cc (rw (e, ◌>>◌) at h))
  | inr (r, e) ↦ elim (Option-cases (g r.0)) [
    | inl e' ↦ absurd (cc (rw (e, e', ◌>>◌) at h))
    | inr (q, e') ↦ (r, q, e, e', ground arith)
  ]
]

module _ {S E : Type 0} {P : S → Type 0} where
  pub Total-done : Total {E = E} P done
  Total-done = record { at = λ s h. h }

  pub Total->> : (f g : Step S E) → Total P f → Total P g → Total P (f >> g)
  unfolding ◌>>◌
  Total->> f g hf hg = record {
    at = λ s h.
        let (r, e, p) = Gives-elim (λ r. P r.0) (f s) (hf.at s h) in
        let (q, e', p') = Gives-elim (λ r. P r.0) (g r.0) (hg.at r.0 p) in
        rw (e, ◌>>◌) (rw (e', ◌>>◌) p');
  }

  pub Total-if : (b : Bool) (f g : Step S E) → Total P f → Total P g → Total P (if b then f else g)
  Total-if true f g hf hg = hf
  Total-if false f g hf hg = hg

  pub Total-each {ι} :
      {A : Type ι} (f : A → Step S E) (xs : List A)
      → ((a : A) → Total P (f a))
      → Total P (each f xs)
  unfolding each
  Total-each f [] h = Total-done
  Total-each f (x ∷ xs) h = Total->> (f x) (each f xs) (h x) (Total-each f xs h)

module _ {S E : Type 0} {P : S → Type 0} {Q : E → Type 0} where
  pub Safe-done : Safe P Q done
  Safe-done = record { at = λ s r e h. subst (λ t. P t.0 × All Q t.1) (some_eq e) (h, tt) }

  pub Safe->> : (f g : Step S E) → Safe P Q f → Safe P Q g → Safe P Q (f >> g)
  Safe->> f g hf hg = record {
    at = λ s t e h.
        let (r, q, er, eq, et) = >>-inversion f g s t e in
        let (p, a) = hf.at s r er h in
        let (p', a') = hg.at r.0 q eq p in
        subst (λ x. P x.0 × All Q x.1) (sym et) (p', All-append Q r.1 q.1 a a');
  }

  pub Safe-if :
      (b : Bool) (f g : Step S E) → Safe P Q f → Safe P Q g → Safe P Q (if b then f else g)
  Safe-if true f g hf hg = hf
  Safe-if false f g hf hg = hg

  pub Safe-each {ι} :
      {A : Type ι} (f : A → Step S E) (xs : List A)
      → ((a : A) → Safe P Q (f a))
      → Safe P Q (each f xs)
  unfolding each
  Safe-each f [] h = Safe-done
  Safe-each f (x ∷ xs) h = Safe->> (f x) (each f xs) (h x) (Safe-each f xs h)
