-- ===== src/Config/MapGraph/Rounds.antt =====
-- The breadth-first loop of `HopDistance` (option-b/internal/config/graph.go) ends: each of its rounds
-- but the last marks a region that was not marked before.
use lotr_kafka_strategy_game.Prelude.{
  ℕ, zero, suc, ◌+◌, ◌≤◌, ◌<◌, String, ◌≡◌, ◌≢◌, refl, ◌⊎◌, inl, inr, true, false, Bool-cases,
  Option-cases, some, List, [], ◌∷◌, ◌==◌, arith, eq_iff, eq_self, contains, length, length-append,
  List-cases, All, All-append, if◌then◌else◌,
}
use lotr_kafka_strategy_game.Config.{Region, MapPath, Edge, Graph}
use lotr_kafka_strategy_game.Config.MapGraph.{
  out_of_fuel, Search, visit, scan_edges, scan_frontier, search_rounds, hop_distance, add_edge,
  add_path, add_paths, isolated, build_graph,
}

abbrev pub unvisited : List String → List String → ℕ
unvisited [] seen = 0
unvisited (k ∷ ks) seen = (if contains seen k then 0 else 1) + unvisited ks seen

unvisited-mark : (ks seen : List String) (v : String) → unvisited ks (v ∷ seen) ≤ unvisited ks seen
unvisited-mark [] seen v = omega arith
unvisited-mark (k ∷ ks) seen v = ground (arith, unvisited-mark ks seen v)

-- Marking a known region that was not marked leaves one fewer.
unvisited-mark_new :
    (ks seen : List String) (v : String)
    → contains ks v ≡ true
    → contains seen v ≡ false
    → unvisited ks (v ∷ seen) < unvisited ks seen
unvisited-mark_new [] seen v h n = absurd (cc h)
unvisited-mark_new (k ∷ ks) seen v h n =
    ground (arith, eq_iff k v, eq_iff v k, unvisited-mark ks seen v, unvisited-mark_new ks seen v)

unvisited-length : (ks seen : List String) → unvisited ks seen ≤ length ks
unvisited-length [] seen = omega arith
unvisited-length (k ∷ ks) seen = ground (arith, unvisited-length ks seen)

-- The ends of the edges are keys of the graph.
abbrev pub IsClosed : Graph → Type 0
IsClosed g = (r : String) → All (λ e. contains g.keys e.to ≡ true) (g.adj r)

-- What the search has marked since `seen` stands in the next frontier.
abbrev Marks : List String → List String → Search → Type 0
Marks keys seen s = unvisited keys s.visited + length s.next ≤ unvisited keys seen

visit-Marks :
    (keys seen : List String) (s : Search) (v : String)
    → contains keys v ≡ true
    → Marks keys seen s
    → Marks keys seen (visit s v)
unfolding visit
visit-Marks keys seen s v known h =
    ground (arith, unvisited-mark_new keys s.visited v, length-append s.next (v ∷ []))

scan_edges-Marks :
    (keys seen : List String) (b : String) (es : List Edge) (s s' : Search)
    → All (λ e. contains keys e.to ≡ true) es
    → Marks keys seen s
    → scan_edges b es s ≡ some s'
    → Marks keys seen s'
unfolding scan_edges
scan_edges-Marks keys seen b [] s s' known h e = ground arith
scan_edges-Marks keys seen b (x ∷ es) s s' known h e = ground (
  arith,
  scan_edges-Marks keys seen b es (visit s x.to) s' known.1
      (visit-Marks keys seen s x.to known.0 h),
)

scan_frontier-Marks :
    (g : Graph) (seen : List String) (b : String) (rs : List String) (s s' : Search)
    → IsClosed g
    → Marks g.keys seen s
    → scan_frontier g b rs s ≡ some s'
    → Marks g.keys seen s'
unfolding scan_frontier
scan_frontier-Marks g seen b [] s s' closed h e = ground arith
scan_frontier-Marks g seen b (r ∷ rs) s s' closed h e =
    elim (Option-cases (scan_edges b (g.adj r) s)) [
      | inl n ↦ absurd (cc (rw (n, scan_frontier) at e))
      | inr (t, q) ↦
          scan_frontier-Marks g seen b rs t s' closed
            (scan_edges-Marks g.keys seen b (g.adj r) s t (closed r) h q)
            (rw (q, scan_frontier) at e)
    ]

-- The next round has fuel enough, or nothing to do.
still_marking :
    (g : Graph) (seen : List String) (s : Search) (fuel : ℕ)
    → Marks g.keys seen s
    → unvisited g.keys seen < fuel
    → (unvisited g.keys s.visited + 1 < fuel) ⊎ (s.next ≡ []) × (0 < fuel)
still_marking g seen s fuel grown enough = elim (List-cases s.next) [
  | inl e ↦ inr (e, omega (arith, enough))
  | inr (x, xs, e) ↦ inl (omega (arith, enough, rw e at grown))
]

search_rounds-ends :
    (g : Graph) (b : String) (fuel : ℕ) (seen frontier : List String) (dist : ℕ)
    → IsClosed g
    → (unvisited g.keys seen + 1 < fuel) ⊎ (frontier ≡ []) × (0 < fuel)
    → search_rounds g b fuel seen frontier dist ≢ out_of_fuel
unfolding search_rounds
search_rounds-ends g b zero seen frontier dist closed h = ground arith
search_rounds-ends g b (suc fuel) seen [] dist closed h = λ e. cc e
search_rounds-ends g b (suc fuel) seen (v ∷ vs) dist closed h =
    elim (Option-cases (scan_frontier g b (v ∷ vs) (record { visited = seen; next = [] }))) [
      | inl n ↦ rw (n, search_rounds) (λ e. cc e)
      | inr (s, q) ↦
          let grown =
            scan_frontier-Marks g seen b (v ∷ vs) (record { visited = seen; next = [] }) s closed
              (omega arith) q in
          rw (q, search_rounds)
            (search_rounds-ends g b fuel s.visited s.next (suc dist) closed
              (still_marking g seen s fuel grown (ground arith)))
    ]

-- Every edge leads to one of the keys `ks`.
abbrev EndsIn : List String → Graph → Type 0
EndsIn ks g = (r : String) → All (λ e. contains ks e.to ≡ true) (g.adj r)

All-contains_more :
    (k : String) (ks : List String) (es : List Edge)
    → All (λ e. contains ks e.to ≡ true) es
    → All (λ e. contains (k ∷ ks) e.to ≡ true) es
All-contains_more k ks [] h = tt
All-contains_more k ks (e ∷ es) h = (ground (arith, h), All-contains_more k ks es h.1)

EndsIn-add_edge :
    (ks : List String) (g : Graph) (k : String) (e : Edge)
    → EndsIn ks g
    → contains ks e.to ≡ true
    → EndsIn ks (add_edge g k e)
unfolding add_edge
EndsIn-add_edge ks g k e h known r = elim (Bool-cases (k == r)) [
  | inl t ↦
      rw (t, add_edge)
        (All-append (λ x. contains ks x.to ≡ true) (g.adj r) (e ∷ []) (h r) (known, tt))
  | inr f ↦ rw (f, add_edge) (h r)
]

IsClosed-add_path : (g : Graph) (p : MapPath) → IsClosed g → IsClosed (add_path g p)
unfolding add_path add_edge
IsClosed-add_path g p closed =
    let ks = p.to ∷ p.from ∷ g.keys in
    let g1 = add_edge g p.from (record { to = p.to; path_id = p.id; cost = p.cost }) in
    let start : EndsIn ks g = λ r.
      All-contains_more p.to (p.from ∷ g.keys) (g.adj r)
        (All-contains_more p.from g.keys (g.adj r) (closed r)) in
    let there =
      EndsIn-add_edge ks g p.from (record { to = p.to; path_id = p.id; cost = p.cost }) start
        (rw (eq_self p.to) refl) in
    EndsIn-add_edge ks g1 p.to (record { to = p.from; path_id = p.id; cost = p.cost }) there
      (ground (arith, eq_self p.from))

IsClosed-add_paths : (g : Graph) (ps : List MapPath) → IsClosed g → IsClosed (add_paths g ps)
unfolding add_paths
IsClosed-add_paths g [] h = h
IsClosed-add_paths g (p ∷ ps) h = IsClosed-add_paths (add_path g p) ps (IsClosed-add_path g p h)

isolated-IsClosed : (rs : List Region) → IsClosed (isolated rs)
unfolding isolated
isolated-IsClosed [] x = tt
isolated-IsClosed (r ∷ rs) x =
    All-contains_more r.id (isolated rs).keys ((isolated rs).adj x) (isolated-IsClosed rs x)

hop_distance-closed : (g : Graph) (a b : String) → IsClosed g → hop_distance g a b ≢ out_of_fuel
unfolding hop_distance
hop_distance-closed g a b closed = elim (Bool-cases (a == b)) [
  | inl t ↦ rw (t, hop_distance) (λ e. cc e)
  | inr f ↦
      rw (f, hop_distance)
        (search_rounds-ends g b (length g.keys + 2) (a ∷ []) (a ∷ []) 0 closed
          (inl (omega (arith, unvisited-length g.keys (a ∷ [])))))
]

-- In the graph of any map the search of `HopDistance` ends: the fuel given to its loop is enough.
pub hop_distance-ends :
    (rs : List Region) (ps : List MapPath) (a b : String)
    → hop_distance (build_graph rs ps) a b ≢ out_of_fuel
unfolding build_graph
hop_distance-ends rs ps a b =
    hop_distance-closed (build_graph rs ps) a b
      (IsClosed-add_paths (isolated rs) ps (isolated-IsClosed rs))
