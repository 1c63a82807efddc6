-- ===== src/Config/MapGraph.antt =====
-- option-b/internal/config/graph.go: the undirected map graph and its unweighted distance.
pub mod Scan
pub mod Shortest
pub mod Rounds
pub mod Adjacency
use lotr_kafka_strategy_game.Prelude.{
  ℕ, zero, suc, ◌+◌, String, Bool, true, false, Option, none, some, List, [], ◌∷◌, ◌++◌, ◌==◌,
  if◌then◌else◌, contains, length,
}
use lotr_kafka_strategy_game.Config.{Region, MapPath, Edge, Graph}

-- `g.adj[k] = append(g.adj[k], e)`
unfoldable pub add_edge : Graph → String → Edge → Graph
add_edge g k e = record {
  keys = k ∷ g.keys;
  adj = λ j. if k == j then g.adj j ++ e ∷ [] else g.adj j;
}

unfoldable pub add_path : Graph → MapPath → Graph
unfolding add_edge
add_path g p =
    add_edge (add_edge g p.from (record { to = p.to; path_id = p.id; cost = p.cost })) p.to
      (record { to = p.from; path_id = p.id; cost = p.cost })

unfoldable pub add_paths : Graph → List MapPath → Graph
add_paths g [] = g
add_paths g (p ∷ ps) = add_paths (add_path g p) ps

-- `g.adj[r.ID] = nil` for every region
unfoldable pub isolated : List Region → Graph
isolated [] = record { keys = []; adj = λ _. [] }
isolated (r ∷ rs) = let g = isolated rs in record g { keys = r.id ∷ g.keys }

unfoldable pub build_graph : List Region → List MapPath → Graph
build_graph regions paths = add_paths (isolated regions) paths

unfoldable pub neighbors : Graph → String → List Edge
neighbors g r = g.adj r

unfoldable pub find_edge : List Edge → String → Option Edge
find_edge [] b = none
find_edge (e ∷ es) b = if e.to == b then some e else find_edge es b

unfoldable pub edge_between : Graph → String → String → Option Edge
unfolding find_edge
edge_between g a b = find_edge (g.adj a) b

unfoldable pub adjacent : Graph → String → String → Bool
unfolding edge_between
adjacent g a b = elim (edge_between g a b) [ none ↦ false | some _ ↦ true ]

-- The result of `HopDistance`; `unreachable` is the source's -1.
pub data Hops : Type 0 where
  hops : ℕ → Hops
  unreachable : Hops
  out_of_fuel : Hops

-- The loop's variables in one round: `visited`, and the `next` frontier as it is built.
pub record Search : Type 0 where
  pub visited : List String
  pub next : List String

-- The body of the inner loop after its early return.
unfoldable pub visit : Search → String → Search
visit s v =
    if contains s.visited v then s else record { visited = v ∷ s.visited; next = s.next ++ v ∷ [] }

-- The loop over the edges of one vertex; `none` is the early return.
unfoldable pub scan_edges : String → List Edge → Search → Option Search
scan_edges b [] s = some s
scan_edges b (e ∷ es) s = if e.to == b then none else scan_edges b es (visit s e.to)

unfoldable pub scan_frontier : Graph → String → List String → Search → Option Search
scan_frontier g b [] s = some s
scan_frontier g b (cur ∷ rest) s = elim (scan_edges b (g.adj cur) s) [
  | none ↦ none
  | some s' ↦ scan_frontier g b rest s'
]

-- `for len(frontier) > 0`, on fuel
unfoldable pub search_rounds : Graph → String → ℕ → List String → List String → ℕ → Hops
search_rounds g b zero visited frontier dist = out_of_fuel
search_rounds g b (suc fuel) visited [] dist = unreachable
search_rounds g b (suc fuel) visited (v ∷ vs) dist =
    elim (scan_frontier g b (v ∷ vs) (record { visited = visited; next = [] })) [
      | none ↦ hops (suc dist)
      | some s ↦ search_rounds g b fuel s.visited s.next (suc dist)
    ]

-- Each round but the last marks a new key, so two rounds more than there are keys suffice.
unfoldable pub hop_distance : Graph → String → String → Hops
hop_distance g a b =
    if a == b then hops 0 else search_rounds g b (length g.keys + 2) (a ∷ []) (a ∷ []) 0
