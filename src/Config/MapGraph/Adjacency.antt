-- ===== src/Config/MapGraph/Adjacency.antt =====
-- Adjacency in the graph that option-b/internal/config/graph.go builds, against the list of paths.
use lotr_kafka_strategy_game.Prelude.{
  String, ◌≡◌, refl, ◌⊎◌, ◌↔◌, Bool, true, false, none, some, List, [], ◌∷◌, ◌++◌, arith, eq_iff,
}
use lotr_kafka_strategy_game.Config.{Region, MapPath, Edge, Graph}
use lotr_kafka_strategy_game.Config.MapGraph.{
  find_edge, edge_between, adjacent, add_edge, add_path, add_paths, isolated, build_graph,
}

-- The path leads from one of the regions to the other.
abbrev pub Joins : String → String → MapPath → Type 0
Joins a b p = (p.from ≡ a) × (p.to ≡ b) ⊎ (p.from ≡ b) × (p.to ≡ a)

-- One of the paths joins the two regions.
abbrev pub AreJoined : String → String → List MapPath → Type 0
AreJoined a b [] = ⊥
AreJoined a b (p ∷ ps) = Joins a b p ⊎ AreJoined a b ps

abbrev pub has_edge : List Edge → String → Bool
has_edge es b = elim (find_edge es b) [ none ↦ false | some _ ↦ true ]

has_edge-append :
    (es : List Edge) (e : Edge) (b : String)
    → (has_edge (es ++ e ∷ []) b ≡ true) ↔ ((has_edge es b ≡ true) ⊎ (e.to ≡ b))
unfolding find_edge
has_edge-append [] e b = ground (arith, eq_iff e.to b)
has_edge-append (x ∷ es) e b = ground (arith, has_edge-append es e b)

adjacent-add_edge :
    (g : Graph) (k : String) (e : Edge) (a b : String)
    → (adjacent (add_edge g k e) a b ≡ true) ↔ ((adjacent g a b ≡ true) ⊎ (k ≡ a) × (e.to ≡ b))
unfolding adjacent add_edge edge_between
adjacent-add_edge g k e a b = ground (arith, eq_iff k a, has_edge-append (g.adj a) e b)

adjacent-add_path :
    (g : Graph) (p : MapPath) (a b : String)
    → (adjacent (add_path g p) a b ≡ true) ↔ ((adjacent g a b ≡ true) ⊎ Joins a b p)
unfolding add_path
adjacent-add_path g p a b =
    let out =
      adjacent-add_edge g p.from (record { to = p.to; path_id = p.id; cost = p.cost }) a b in
    let back =
      adjacent-add_edge (add_edge g p.from (record { to = p.to; path_id = p.id; cost = p.cost }))
        p.to (record { to = p.from; path_id = p.id; cost = p.cost }) a b in
    ground (arith, out, back)

adjacent-add_paths :
    (g : Graph) (ps : List MapPath) (a b : String)
    → (adjacent (add_paths g ps) a b ≡ true) ↔ ((adjacent g a b ≡ true) ⊎ AreJoined a b ps)
unfolding add_paths
adjacent-add_paths g [] a b = ground arith
adjacent-add_paths g (p ∷ ps) a b =
    ground (arith, adjacent-add_path g p a b, adjacent-add_paths (add_path g p) ps a b)

adjacent-isolated : (rs : List Region) (a b : String) → adjacent (isolated rs) a b ≡ false
unfolding adjacent isolated edge_between find_edge
adjacent-isolated [] a b = refl
adjacent-isolated (r ∷ rs) a b = adjacent-isolated rs a b

-- Two regions are adjacent in the graph of the map exactly if one of its paths joins them, in
-- either direction.
pub adjacent_iff :
    (rs : List Region) (ps : List MapPath) (a b : String)
    → (adjacent (build_graph rs ps) a b ≡ true) ↔ AreJoined a b ps
unfolding build_graph
adjacent_iff rs ps a b =
    ground (arith, adjacent-isolated rs a b, adjacent-add_paths (isolated rs) ps a b)
