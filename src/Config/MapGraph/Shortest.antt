-- ===== src/Config/MapGraph/Shortest.antt =====
-- `HopDistance` of option-b/internal/config/graph.go against the walks of the graph.
use lotr_kafka_strategy_game.Prelude.{
  ℕ, zero, suc, ◌+◌, ◌≤◌, ◌<◌, String, ◌≡◌, ◌≢◌, refl, subst, ◌⊎◌, inl, inr, true, false,
  Bool-cases, Option-cases, List, [], ◌∷◌, ◌==◌, arith, eq_iff, eq_self, contains, length,
  text_cases,
}
use lotr_kafka_strategy_game.Config.{Region, MapPath, Graph}
use lotr_kafka_strategy_game.Config.MapGraph.{
  Hops, hops, unreachable, out_of_fuel, Search, scan_frontier, search_rounds, hop_distance,
  adjacent, build_graph,
}
use lotr_kafka_strategy_game.Config.MapGraph.Scan.{
  IsExtended, HasScanned, scan_frontier-HasScanned, scan_frontier-stops,
}
use lotr_kafka_strategy_game.Config.MapGraph.Rounds.{hop_distance-ends}

-- A walk of so many edges from the region `a`.
pub data Walk (g : Graph) (a : String) : ℕ → String → Type 0 where
  stay : Walk g a 0 a
  go : {n : ℕ} {y : String} (x : String) → Walk g a n y → adjacent g y x ≡ true → Walk g a (suc n) x

abbrev pub IsShortest : Graph → String → String → ℕ → Type 0
IsShortest g a b m = Walk g a m b × ((k : ℕ) → Walk g a k b → m ≤ k)

-- The regions that are marked and those on the frontier, after `d` rounds.
record IsLevel (g : Graph) (a b : String) (seen frontier : List String) (d : ℕ) : Type 0 where
  reached : (x : String) → contains frontier x ≡ true → Walk g a d x
  known : {k : ℕ} {x : String} → Walk g a k x → k ≤ d → contains seen x ≡ true
  closed :
      (y x : String)
      → contains seen y ≡ true
      → contains frontier y ≡ false
      → adjacent g y x ≡ true
      → contains seen x ≡ true
  fresh : contains seen b ≡ false

module _ (g : Graph) (a b : String) where
  module _ (seen frontier : List String) (d : ℕ) (s : Search) (h : IsLevel g a b seen frontier d)
      (r : HasScanned g seen frontier b (Walk g a (suc d)) s) where
    -- A neighbour of a marked region is marked after the round.
    marked_next :
        (y x : String)
        → contains seen y ≡ true
        → adjacent g y x ≡ true
        → contains s.visited x ≡ true
    marked_next y x m j = elim (Bool-cases (contains frontier y)) [
      | inl t ↦ r.covers y x t j
      | inr f ↦ r.found.keeps x (h.closed y x m f j)
    ]

    known_next : {k : ℕ} {x : String} → Walk g a k x → k ≤ suc d → contains s.visited x ≡ true
    known_next stay le = r.found.keeps a (h.known stay (omega arith))
    known_next (go {n} {y} x w j) le = marked_next y x (h.known w (omega (arith, le))) j

    next-IsLevel : IsLevel g a b s.visited s.next (suc d)
    next-IsLevel = record {
      reached = r.found.added;
      known = known_next;
      closed = λ y x m n j. elim (r.found.splits y m) [
        | inl old ↦ marked_next y x old j
        | inr new ↦ absurd (cc (new, n))
      ];
      fresh = r.found.avoids;
    }

  -- With an empty frontier the marked regions are all that can be reached.
  all_marked :
      (seen : List String) (d : ℕ)
      → IsLevel g a b seen [] d
      → {k : ℕ} {x : String} → Walk g a k x
      → contains seen x ≡ true
  all_marked seen d h stay = h.known stay (omega arith)
  all_marked seen d h (go {n} {y} x w j) = h.closed y x (all_marked seen d h w) refl j

  -- A walk to the goal is longer than the rounds done.
  past :
      (seen frontier : List String) (d : ℕ)
      → IsLevel g a b seen frontier d
      → {k : ℕ} → Walk g a k b
      → d < k
  past seen frontier d h {k} w =
      let early : k ≤ d → ⊥ = λ le. cc (h.known w le, h.fresh) in ground (arith, early)

  unscanned :
      (seen : List String) (d : ℕ)
      → contains seen b ≡ false
      → IsExtended seen b (Walk g a (suc d)) (record { visited = seen; next = [] })
  unscanned seen d fresh = record {
    keeps = λ x m. m;
    splits = λ x m. inl m;
    added = λ x m. absurd (cc m);
    avoids = fresh;
  }

  -- What the result of the search says.
  abbrev Answers : Hops → Type 0
  Answers (hops m) = IsShortest g a b m
  Answers unreachable = (k : ℕ) → Walk g a k b → ⊥
  Answers out_of_fuel = Unit

  search_rounds-Answers :
      (fuel : ℕ) (seen frontier : List String) (d : ℕ)
      → IsLevel g a b seen frontier d
      → Answers (search_rounds g b fuel seen frontier d)
  unfolding search_rounds
  search_rounds-Answers zero seen frontier d h = tt
  search_rounds-Answers (suc fuel) seen [] d h = λ k w. absurd (cc (all_marked seen d h w, h.fresh))
  search_rounds-Answers (suc fuel) seen (v ∷ vs) d h =
      let s0 : Search = record { visited = seen; next = [] } in
      elim (Option-cases (scan_frontier g b (v ∷ vs) s0)) [
        | inl n ↦
            let (y, m, j) = scan_frontier-stops g seen b (Walk g a (suc d)) (v ∷ vs) s0 n in
            rw (n, search_rounds) (go b (h.reached y m) j, λ k w. past seen (v ∷ vs) d h w)
        | inr (s, q) ↦
            let scanned =
              scan_frontier-HasScanned g seen b (Walk g a (suc d)) (v ∷ vs) s0 s
                (λ y x m j. go x (h.reached y m) j) (unscanned seen d h.fresh) q in
            rw (q, search_rounds)
              (search_rounds-Answers fuel s.visited s.next (suc d)
                (next-IsLevel seen (v ∷ vs) d s h scanned))
      ]

  known_start : {k : ℕ} {x : String} → Walk g a k x → k ≤ 0 → contains (a ∷ []) x ≡ true
  known_start stay le = rw (eq_self a) refl
  known_start (go x w j) le = absurd (omega (arith, le))

  start-IsLevel : (a == b) ≡ false → IsLevel g a b (a ∷ []) (a ∷ []) 0
  start-IsLevel differ = record {
    reached = λ x m. subst (Walk g a 0) ((eq_iff a x).0 (ground (arith, m))) stay;
    known = known_start;
    closed = λ y x m n j. absurd (cc (m, n));
    fresh = ground (arith, differ);
  }

  hop_distance-Answers : Answers (hop_distance g a b)
  unfolding hop_distance
  hop_distance-Answers = elim (text_cases a b) [
    | inl (t, e) ↦ rw (t, hop_distance) (subst (Walk g a 0) e stay, λ k w. omega arith)
    | inr (f, n) ↦
        rw (f, hop_distance)
          (search_rounds-Answers (length g.keys + 2) (a ∷ []) (a ∷ []) 0 (start-IsLevel f))
  ]

  answer_cases :
      (r : Hops)
      → Answers r
      → r ≢ out_of_fuel
      → ((m : ℕ) × (r ≡ hops m) × IsShortest g a b m)
        ⊎ (r ≡ unreachable) × ((k : ℕ) → Walk g a k b → ⊥)
  answer_cases (hops m) h n = inl (m, refl, h)
  answer_cases unreachable h n = inr (refl, h)
  answer_cases out_of_fuel h n = absurd (n refl)

-- In the graph of any map, `HopDistance` either returns the number of edges of a walk from one
-- region to the other than which none is shorter, or it returns -1 and there is no walk.
pub hop_distance_lem :
    (rs : List Region) (ps : List MapPath) (a b : String)
    → let g = build_graph rs ps in
      ((m : ℕ) × (hop_distance g a b ≡ hops m) × IsShortest g a b m)
      ⊎ (hop_distance g a b ≡ unreachable) × ((k : ℕ) → Walk g a k b → ⊥)
hop_distance_lem rs ps a b =
    let g = build_graph rs ps in
    answer_cases g a b (hop_distance g a b) (hop_distance-Answers g a b)
      (hop_distance-ends rs ps a b)
