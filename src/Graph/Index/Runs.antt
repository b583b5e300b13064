-- ===== src/Graph/Index/Runs.antt =====
-- Runs of the graph index.
use rethinking_git.Base.{
  ℕ, ◌+◌, ◌<◌, Bool, true, false, List, [], ◌∷◌, ◌++◌, ◌≡◌, ◌≢◌, ◌↔◌, ◌⊎◌, refl, inl, inr, Option,
  some, none, Result, ok, err, In,
}
use rethinking_git.Base.Order.{nat_ord}
use rethinking_git.Base.Map
use rethinking_git.Graph.Index.{
  GraphNode, IndexedNode, GraphIndex, build, ancestors, is_reachable, cycle,
}
use rethinking_git.Graph.Index.Order.{build_generations, build_topological, build_nodes}
use rethinking_git.Graph.Index.Ancestors.{
  Ancestor, ancestors_exact, build_acyclic, is_reachable_decides,
}

-- 1 <- 2, 1 <- 3, and 4 merges 2 and 3.
abbrev diamond : List (GraphNode ℕ)
diamond =
    (record { id = 4; parents = 3 ∷ 2 ∷ [] })
    ∷ (record { id = 1; parents = [] })
    ∷ (record { id = 2; parents = 1 ∷ [] })
    ∷ (record { id = 3; parents = 1 ∷ 1 ∷ [] })
    ∷ []

abbrev node : List ℕ → ℕ → IndexedNode ℕ
node parents generation = record { parents = parents; generation = generation }

abbrev diamond_index : GraphIndex ℕ
diamond_index = record {
  nodes =
      (1, node [] 0) ∷ (2, node (1 ∷ []) 1) ∷ (3, node (1 ∷ []) 1) ∷ (4, node (2 ∷ 3 ∷ []) 2) ∷ [];
  topological_order = 1 ∷ 2 ∷ 3 ∷ 4 ∷ [];
}

diamond_built : build diamond ≡ ok diamond_index
unfolding build Map.get Map.insert rethinking_git.Graph.Index.check_node
    rethinking_git.Base.Set.from_list rethinking_git.Base.Set.insert
    rethinking_git.Graph.Index.add_child rethinking_git.Graph.Index.without_parents
    rethinking_git.Graph.Index.parent_counts rethinking_git.Graph.Index.visit
    rethinking_git.Graph.Index.next_generation
diamond_built = refl

-- 2 and 3 are each other's parents, and 4 hangs below.
ring_refused :
    build {K = ℕ} (
      (record { id = 2; parents = 3 ∷ [] })
      ∷ (record { id = 3; parents = 2 ∷ [] })
      ∷ (record { id = 4; parents = 2 ∷ [] })
      ∷ [])
    ≡ err (cycle (2 ∷ 3 ∷ []))
unfolding build Map.get Map.insert rethinking_git.Graph.Index.check_node
    rethinking_git.Base.Set.from_list rethinking_git.Base.Set.insert
    rethinking_git.Graph.Index.add_child rethinking_git.Graph.Index.without_parents
    rethinking_git.Graph.Index.parent_counts rethinking_git.Base.Set.contains
ring_refused = refl

merged : Map.get 4 diamond_index.nodes ≡ some (node (2 ∷ 3 ∷ []) 2)
unfolding Map.get
merged = refl

root : Map.get 1 diamond_index.nodes ≡ some (node [] 0)
unfolding Map.get
root = refl

build_generations_example :
    ((p : ℕ)
      → In {A = ℕ} p (2 ∷ 3 ∷ [])
      → (y : IndexedNode ℕ) × (Map.get p diamond_index.nodes ≡ some y) × (y.generation < 2))
    × ((◌≡◌ {A = List ℕ} (2 ∷ 3 ∷ []) []) × (◌≡◌ {A = ℕ} 2 0)
        ⊎ ((p : ℕ) × (y : IndexedNode ℕ) × In {A = ℕ} p (2 ∷ 3 ∷ [])
            × (Map.get p diamond_index.nodes ≡ some y)
            × (2 ≡ y.generation + 1)))
build_generations_example =
    build_generations diamond diamond_index 4 (node (2 ∷ 3 ∷ []) 2) diamond_built merged

build_topological_example :
    (x : IndexedNode ℕ) × (Map.get 3 diamond_index.nodes ≡ some x)
    × ((p : ℕ) → In p x.parents → In {A = ℕ} p (1 ∷ 2 ∷ []))
    × (In {A = ℕ} 3 (1 ∷ 2 ∷ []) → ⊥)
build_topological_example =
    build_topological diamond diamond_index (1 ∷ 2 ∷ []) (4 ∷ []) 3 diamond_built refl

build_nodes_example :
    (In 4 diamond_index.topological_order
      ↔ ((x : IndexedNode ℕ) × (Map.get 4 diamond_index.nodes ≡ some x)))
    × ((given : GraphNode ℕ)
        → In given diamond
        → (x : IndexedNode ℕ) × (Map.get given.id diamond_index.nodes ≡ some x)
          × ((p : ℕ) → In p x.parents ↔ In p given.parents))
    × ((x : IndexedNode ℕ)
        → Map.get 4 diamond_index.nodes ≡ some x
        → (given : GraphNode ℕ) × In given diamond
          × (given.id ≡ 4)
          × ((p : ℕ) → In p x.parents ↔ In p given.parents))
build_nodes_example = build_nodes diamond diamond_index 4 diamond_built

ancestors_exact_example :
    (found : List ℕ) × (ancestors diamond_index 4 ≡ ok found)
    × ((p : ℕ) → In p found ↔ Ancestor diamond_index.nodes 4 p)
ancestors_exact_example =
    ancestors_exact diamond diamond_index 4 (node (2 ∷ 3 ∷ []) 2) diamond_built merged

build_acyclic_example : ¬ Ancestor diamond_index.nodes 3 3
build_acyclic_example = build_acyclic diamond diamond_index 3 diamond_built

is_reachable_decides_example :
    (answer : Bool) × (is_reachable diamond_index 1 4 ≡ ok answer)
    × ((answer ≡ true) ↔ (◌≡◌ {A = ℕ} 1 4 ⊎ Ancestor diamond_index.nodes 4 1))
is_reachable_decides_example =
    is_reachable_decides diamond diamond_index 1 4 (node [] 0) (node (2 ∷ 3 ∷ []) 2) diamond_built
      root merged
