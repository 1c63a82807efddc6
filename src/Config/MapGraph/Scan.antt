-- ===== src/Config/MapGraph/Scan.antt =====
-- What one round of the loop of `HopDistance` (option-b/internal/config/graph.go) marks.
use lotr_kafka_strategy_game.Prelude.{
  String, ◌≡◌, refl, sym, ◌∙◌, subst, ◌⊎◌, inl, inr, true, false, Bool-cases, Option-cases, none,
  some, List, [], ◌∷◌, ◌==◌, arith, eq_iff, eq_self, contains, contains-append, text_cases,
}
use lotr_kafka_strategy_game.Prelude.Steps.Rules.{some_eq}
use lotr_kafka_strategy_game.Config.{Edge, Graph}
use lotr_kafka_strategy_game.Config.MapGraph.{
  Search, visit, scan_edges, scan_frontier, find_edge, edge_between, adjacent,
}
use lotr_kafka_strategy_game.Config.MapGraph.Adjacency.{has_edge}

-- What a search that started from the marks `seen` has found, where the regions with `P` are those
-- that it may add.
pub record IsExtended {ℓ} (seen : List String) (b : String) (P : String → Type ℓ) (s : Search)
    : Type ℓ where
  pub keeps : (x : String) → contains seen x ≡ true → contains s.visited x ≡ true
  pub splits :
      (x : String)
      → contains s.visited x ≡ true
      → (contains seen x ≡ true) ⊎ (contains s.next x ≡ true)
  pub added : (x : String) → contains s.next x ≡ true → P x
  pub avoids : contains s.visited b ≡ false

module _ {ℓ} (seen : List String) (b : String) (P : String → Type ℓ) where
  visit-IsExtended :
      (s : Search) (v : String)
      → P v
      → (v == b) ≡ false
      → IsExtended seen b P s
      → IsExtended seen b P (visit s v)
  unfolding visit
  visit-IsExtended s v p away h = record {
    keeps = λ x m. ground (arith, h.keeps x m);
    splits = λ x m. ground (arith, h.splits x, eq_iff v x, contains-append s.next (v ∷ []) x);
    added = λ x m. elim (text_cases v x) [
      | inl (t, e) ↦ subst P e p
      | inr (f, e) ↦ h.added x (ground (arith, contains-append s.next (v ∷ []) x))
    ];
    avoids = ground (arith, h.avoids);
  }

  scan_edges-IsExtended :
      (es : List Edge) (s s' : Search)
      → ((x : String) → has_edge es x ≡ true → P x)
      → IsExtended seen b P s
      → scan_edges b es s ≡ some s'
      → IsExtended seen b P s'
  unfolding scan_edges find_edge
  scan_edges-IsExtended [] s s' p h e = subst (IsExtended seen b P) (some_eq e) h
  scan_edges-IsExtended (x ∷ es) s s' p h e = elim (Bool-cases (x.to == b)) [
    | inl t ↦ absurd (cc (rw (t, scan_edges) at e))
    | inr f ↦
        scan_edges-IsExtended es (visit s x.to) s' (λ y m. p y (ground (arith, m)))
          (visit-IsExtended s x.to (p x.to (ground (arith, eq_self x.to))) f h)
          (rw (f, scan_edges) at e)
  ]

visit-keeps :
    (s : Search) (v x : String)
    → contains s.visited x ≡ true
    → contains (visit s v).visited x ≡ true
unfolding visit
visit-keeps s v x m = ground (arith, m)

visit-marks : (s : Search) (v : String) → contains (visit s v).visited v ≡ true
unfolding visit
visit-marks s v = ground (arith, eq_self v)

scan_edges-keeps :
    (b : String) (es : List Edge) (s s' : Search) (x : String)
    → scan_edges b es s ≡ some s'
    → contains s.visited x ≡ true
    → contains s'.visited x ≡ true
unfolding scan_edges
scan_edges-keeps b [] s s' x e m = subst (λ t. contains t.visited x ≡ true) (some_eq e) m
scan_edges-keeps b (d ∷ es) s s' x e m = elim (Bool-cases (d.to == b)) [
  | inl t ↦ absurd (cc (rw (t, scan_edges) at e))
  | inr f ↦
      scan_edges-keeps b es (visit s d.to) s' x (rw (f, scan_edges) at e) (visit-keeps s d.to x m)
]

-- A scan that goes through marks the end of every edge, and none of them is the goal.
scan_edges-marks :
    (b : String) (es : List Edge) (s s' : Search) (x : String)
    → scan_edges b es s ≡ some s'
    → has_edge es x ≡ true
    → contains s'.visited x ≡ true
unfolding scan_edges find_edge
scan_edges-marks b [] s s' x e m = absurd (cc m)
scan_edges-marks b (d ∷ es) s s' x e m = elim (Bool-cases (d.to == b)) [
  | inl t ↦ absurd (cc (rw (t, scan_edges) at e))
  | inr f ↦ elim (text_cases d.to x) [
    | inl (t, q) ↦
        scan_edges-keeps b es (visit s d.to) s' x (rw (f, scan_edges) at e)
          (subst (λ y. contains (visit s d.to).visited y ≡ true) q (visit-marks s d.to))
    | inr (n, q) ↦
        scan_edges-marks b es (visit s d.to) s' x (rw (f, scan_edges) at e) (ground (arith, m, n))
  ]
]

-- A scan returns early at an edge to the goal.
scan_edges-stops :
    (b : String) (es : List Edge) (s : Search) → scan_edges b es s ≡ none → has_edge es b ≡ true
unfolding scan_edges find_edge
scan_edges-stops b [] s e = absurd (cc e)
scan_edges-stops b (d ∷ es) s e = elim (Bool-cases (d.to == b)) [
  | inl t ↦ ground (arith, t)
  | inr f ↦ ground (arith, f, scan_edges-stops b es (visit s d.to) (rw (f, scan_edges) at e))
]

adjacent-has_edge : (g : Graph) (y x : String) → adjacent g y x ≡ has_edge (g.adj y) x
unfolding adjacent edge_between
adjacent-has_edge g y x = refl

-- What the scan of a whole frontier gives.
pub record HasScanned {ℓ} (g : Graph) (seen frontier : List String) (b : String)
    (P : String → Type ℓ) (s : Search) : Type ℓ where
  pub found : IsExtended seen b P s
  pub covers :
      (y x : String)
      → contains frontier y ≡ true
      → adjacent g y x ≡ true
      → contains s.visited x ≡ true

module _ {ℓ} (g : Graph) (seen : List String) (b : String) (P : String → Type ℓ) where
  scan_frontier-keeps :
      (rs : List String) (s s' : Search) (x : String)
      → scan_frontier g b rs s ≡ some s'
      → contains s.visited x ≡ true
      → contains s'.visited x ≡ true
  unfolding scan_frontier
  scan_frontier-keeps [] s s' x e m = subst (λ t. contains t.visited x ≡ true) (some_eq e) m
  scan_frontier-keeps (r ∷ rs) s s' x e m = elim (Option-cases (scan_edges b (g.adj r) s)) [
    | inl n ↦ absurd (cc (rw (n, scan_frontier) at e))
    | inr (t, q) ↦
        scan_frontier-keeps rs t s' x (rw (q, scan_frontier) at e)
          (scan_edges-keeps b (g.adj r) s t x q m)
  ]

  pub scan_frontier-HasScanned :
      (rs : List String) (s s' : Search)
      → ((y x : String) → contains rs y ≡ true → adjacent g y x ≡ true → P x)
      → IsExtended seen b P s
      → scan_frontier g b rs s ≡ some s'
      → HasScanned g seen rs b P s'
  unfolding scan_frontier
  scan_frontier-HasScanned [] s s' p h e = record {
    found = subst (IsExtended seen b P) (some_eq e) h;
    covers = λ y x m. absurd (cc m);
  }
  scan_frontier-HasScanned (r ∷ rs) s s' p h e = elim (Option-cases (scan_edges b (g.adj r) s)) [
    | inl n ↦ absurd (cc (rw (n, scan_frontier) at e))
    | inr (t, q) ↦
        let first =
          scan_edges-IsExtended seen b P (g.adj r) s t
            (λ x m. p r x (rw (eq_self r) refl) (adjacent-has_edge g r x ∙ m)) h q in
        let rest =
          scan_frontier-HasScanned rs t s' (λ y x m. p y x (ground (arith, m))) first
            (rw (q, scan_frontier) at e) in
        record {
          found = rest.found;
          covers = λ y x m j. elim (text_cases r y) [
            | inl (k, same) ↦ scan_frontier-keeps rs t s' x (rw (q, scan_frontier) at e) (
                scan_edges-marks b (g.adj r) s t x q (
                  subst (λ z. has_edge (g.adj z) x ≡ true) (sym same)
                    (sym (adjacent-has_edge g y x) ∙ j)))
            | inr (n, _) ↦ rest.covers y x (ground (arith, m, n)) j
          ];
        }
  ]

  pub scan_frontier-stops :
      (rs : List String) (s : Search)
      → scan_frontier g b rs s ≡ none
      → (y : String) × (contains rs y ≡ true) × (adjacent g y b ≡ true)
  unfolding scan_frontier
  scan_frontier-stops [] s e = absurd (cc e)
  scan_frontier-stops (r ∷ rs) s e = elim (Option-cases (scan_edges b (g.adj r) s)) [
    | inl n ↦ (r, rw (eq_self r) refl, adjacent-has_edge g r b ∙ scan_edges-stops b (g.adj r) s n)
    | inr (t, q) ↦
        let (y, m, j) = scan_frontier-stops rs t (rw (q, scan_frontier) at e) in
        (y, ground (arith, m), j)
  ]
