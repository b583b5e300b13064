-- ===== src/Graph/Index.antt =====
-- crates/rgit-graph/src/reachability.rs: a commit graph checked to be acyclic, with generations and
-- reachability. A stack (`Vec` with `pop`) is a list whose head is its end. `panicked` is no error
-- of the source: it stands for its panics (`expect`, a map's index), and `out_of_fuel` for a loop
-- that has not ended.
pub mod Counts
pub mod Visit
pub mod Round
pub mod Children
pub mod Loop
pub mod Built
pub mod Order
pub mod Ancestors
mod Runs
use rethinking_git.Base.{
  ℕ, zero, suc, ◌+◌, ◌-◌, ◌^◌, Bool, true, false, List, [], ◌∷◌, ◌++◌, length, Result, ok, err,
  ◌>>=◌, ◌>>◌, ensure, ok_or, if◌then◌else◌, ltb, ◌==◌,
}
use mathlib.Core.List.{reverse}
use rethinking_git.Base.Order.{Ord, same}
use rethinking_git.Base.Map
use rethinking_git.Base.Map.{Map, keys}
use rethinking_git.Base.Set

pub record GraphNode (K : Type 0) : Type 0 where
  pub id : K
  pub parents : List K

pub data GenerationError : Type 0 where
  overflow : GenerationError

greatest : ℕ → List ℕ → ℕ
greatest best [] = best
greatest best (g ∷ gs) = greatest (if ltb best g then g else best) gs

-- Generations are u64.
unfoldable pub next_generation : List ℕ → Result GenerationError ℕ
unfolding greatest
next_generation [] = ok 0
next_generation (g ∷ gs) =
    let generation = greatest g gs in
    if ltb (generation + 1) (2 ^ 64) then ok (generation + 1) else err overflow

pub data GraphError (K : Type 0) : Type 0 where
  duplicate_node : K → GraphError K
  missing_parent : K → K → GraphError K
  cycle : List K → GraphError K
  generation_overflow : K → GraphError K
  unknown_node : K → GraphError K
  panicked : GraphError K
  out_of_fuel : GraphError K

pub record IndexedNode (K : Type 0) : Type 0 where
  pub parents : List K
  pub generation : ℕ

pub record GraphIndex (K : Type 0) : Type 0 where
  pub nodes : Map K (IndexedNode K)
  pub topological_order : List K

-- The mutable variables of the loop in `build`.
pub record Progress (K : Type 0) : Type 0 where
  pub remaining_parents : Map K ℕ
  pub ready : List K
  pub generations : Map K ℕ
  pub topological_order : List K

module _ {K : Type 0} ⦃o : Ord K⦄ where
  unfoldable pub collect_parents :
      List (GraphNode K) → Map K (List K) → Result (GraphError K) (Map K (List K))
  collect_parents [] m = ok m
  collect_parents (node ∷ nodes) m =
      if Map.contains_key node.id m
      then err (duplicate_node node.id)
      else collect_parents nodes (Map.insert node.id (Set.from_list node.parents) m)

  unfoldable pub check_node : K → List K → Map K (List K) → Result (GraphError K) (Unit {0})
  check_node node [] m = ok tt
  check_node node (parent ∷ parents) m =
      if Map.contains_key parent m
      then check_node node parents m
      else err (missing_parent node parent)

  unfoldable pub check_parents : Map K (List K) → Map K (List K) → Result (GraphError K) (Unit {0})
  check_parents [] m = ok tt
  check_parents ((node, parents) ∷ rest) m = do check_node node parents m; check_parents rest m

  unfoldable pub parent_counts : Map K (List K) → Map K ℕ
  parent_counts [] = []
  parent_counts ((node, parents) ∷ rest) = (node, length parents) ∷ parent_counts rest

  unfoldable pub no_children : Map K (List K) → Map K (List K)
  no_children [] = []
  no_children ((node, parents) ∷ rest) = (node, []) ∷ no_children rest

  unfoldable pub add_child : K → List K → Map K (List K) → Result (GraphError K) (Map K (List K))
  add_child node [] children = ok children
  add_child node (parent ∷ parents) children = do
    known ← ok_or (Map.get parent children) panicked
    add_child node parents (Map.insert parent (Set.insert node known) children)

  unfoldable pub collect_children :
      Map K (List K) → Map K (List K) → Result (GraphError K) (Map K (List K))
  collect_children [] children = ok children
  collect_children ((node, parents) ∷ rest) children = do
    children' ← add_child node parents children
    collect_children rest children'

  unfoldable pub without_parents : Map K ℕ → List K
  without_parents [] = []
  without_parents ((node, count) ∷ rest) =
      let later = without_parents rest in if count == 0 then Set.insert node later else later

  -- `generations[parent]` for each parent.
  unfoldable pub generations_of : List K → Map K ℕ → Result (GraphError K) (List ℕ)
  generations_of [] generations = ok []
  generations_of (parent ∷ parents) generations = do
    g ← ok_or (Map.get parent generations) panicked
    gs ← generations_of parents generations
    ok (g ∷ gs)

  -- One round of the loop over the children. `*count -= 1` panics at 0 in a checked build.
  unfoldable pub release : K → Progress K → Result (GraphError K) (Progress K)
  release child s = do
    count ← ok_or (Map.get child s.remaining_parents) panicked
    ensure (ltb 0 count) panicked
    ok (record s {
      remaining_parents = Map.insert child (count - 1) s.remaining_parents;
      ready = if count - 1 == 0 then Set.insert child s.ready else s.ready;
    })

  unfoldable pub release_all : List K → Progress K → Result (GraphError K) (Progress K)
  unfolding release
  release_all [] s = ok s
  release_all (child ∷ children) s = do s' ← release child s; release_all children s'

  as_overflow : K → Result GenerationError ℕ → Result (GraphError K) ℕ
  as_overflow node (ok g) = ok g
  as_overflow node (err overflow) = err (generation_overflow node)

  -- The body of `while let Some(node) = ready.pop_first()`; `rest` is the set without `node`.
  unfoldable pub visit :
      Map K (List K) → Map K (List K) → K → List K → Progress K → Result (GraphError K) (Progress K)
  unfolding generations_of as_overflow release_all
  visit parents_by_node children node rest s = do
    parents ← ok_or (Map.get node parents_by_node) panicked
    gs ← generations_of parents s.generations
    generation ← as_overflow node (next_generation gs)
    below ← ok_or (Map.get node children) panicked
    release_all below (record s {
      ready = rest;
      generations = Map.insert node generation s.generations;
      topological_order = s.topological_order ++ node ∷ [];
    })

  -- Every round takes a node for the first time, so one round for each node, and one for the end, are
  -- enough.
  unfoldable pub build_loop :
      ℕ → Map K (List K) → Map K (List K) → Progress K → Result (GraphError K) (Progress K)
  build_loop zero parents_by_node children s = elim s.ready [ [] ↦ ok s | _ ∷ _ ↦ err out_of_fuel ]
  build_loop (suc fuel) parents_by_node children s = elim s.ready [
    | [] ↦ ok s
    | node ∷ rest ↦ visit parents_by_node children node rest s >>= λ s'.
        build_loop fuel parents_by_node children s'
  ]

  unfoldable pub blocked : Map K ℕ → List K
  blocked [] = []
  blocked ((node, count) ∷ rest) =
      let later = blocked rest in if count == 0 then later else Set.insert node later

  unfoldable pub keep_in : List K → List K → List K
  keep_in set [] = []
  keep_in set (k ∷ ks) =
      let later = keep_in set ks in if Set.contains k set then k ∷ later else later

  -- `parents_by_node[node]` without those outside `blocked_nodes`, pushed on the stack.
  unfoldable pub push_blocked :
      Map K (List K) → List K → K → List K → Result (GraphError K) (List K)
  unfolding keep_in
  push_blocked parents_by_node blocked_nodes node pending = do
    parents ← ok_or (Map.get node parents_by_node) panicked
    ok (reverse (keep_in blocked_nodes parents) ++ pending)

  -- The loop of `cycle_members` for one node: can a blocked parent of the node reach it?
  unfoldable pub on_cycle_loop :
      ℕ → Map K (List K) → List K → K → List K → List K → Result (GraphError K) Bool
  on_cycle_loop fuel parents_by_node blocked_nodes node visited [] = ok false
  on_cycle_loop zero parents_by_node blocked_nodes node visited (candidate ∷ pending) =
      err out_of_fuel
  on_cycle_loop (suc fuel) parents_by_node blocked_nodes node visited (candidate ∷ pending) =
      let skip = on_cycle_loop fuel parents_by_node blocked_nodes node visited pending in
      let further = push_blocked parents_by_node blocked_nodes candidate pending >>= λ pending'.
      on_cycle_loop fuel parents_by_node blocked_nodes node (Set.insert candidate visited)
        pending' in
      if same candidate node
      then ok true
      else if Set.contains candidate visited
      then skip
      else further

  unfoldable pub count_edges : Map K (List K) → ℕ
  count_edges [] = 0
  count_edges ((node, parents) ∷ rest) = length parents + count_edges rest

  unfoldable pub cycle_members : Map K (List K) → List K → List K → Result (GraphError K) (List K)
  unfolding push_blocked on_cycle_loop count_edges
  cycle_members parents_by_node blocked_nodes [] = ok []
  cycle_members parents_by_node blocked_nodes (node ∷ nodes) = do
    pending ← push_blocked parents_by_node blocked_nodes node []
    found ←
        on_cycle_loop (count_edges parents_by_node + length pending) parents_by_node blocked_nodes
          node [] pending
    rest ← cycle_members parents_by_node blocked_nodes nodes
    ok (if found then node ∷ rest else rest)

  unfoldable pub index_nodes :
      Map K (List K) → Map K ℕ → Result (GraphError K) (Map K (IndexedNode K))
  index_nodes [] generations = ok []
  index_nodes ((node, parents) ∷ rest) generations = do
    generation ← ok_or (Map.get node generations) panicked
    nodes ← index_nodes rest generations
    ok ((node, record { parents = parents; generation = generation }) ∷ nodes)

  unfoldable pub start : Map K (List K) → Progress K
  start parents_by_node =
      let counts = parent_counts parents_by_node in
      record {
        remaining_parents = counts;
        ready = without_parents counts;
        generations = [];
        topological_order = [];
      }

  -- After the loop: a graph with a cycle is refused.
  unfoldable pub conclude : Map K (List K) → Progress K → Result (GraphError K) (GraphIndex K)
  unfolding index_nodes cycle_members blocked
  conclude parents_by_node s =
      if length s.topological_order == length parents_by_node
      then (do
        nodes ← index_nodes parents_by_node s.generations
        ok (record { nodes = nodes; topological_order = s.topological_order }))
      else (do
        let blocked_nodes = blocked s.remaining_parents
        members ← cycle_members parents_by_node blocked_nodes blocked_nodes
        err (cycle members))

  unfoldable pub build : List (GraphNode K) → Result (GraphError K) (GraphIndex K)
  unfolding collect_parents check_parents collect_children no_children start build_loop conclude
  build nodes = do
    parents_by_node ← collect_parents nodes []
    check_parents parents_by_node parents_by_node
    children ← collect_children parents_by_node (no_children parents_by_node)
    s ← build_loop (length parents_by_node) parents_by_node children (start parents_by_node)
    conclude parents_by_node s

  unfoldable pub generation : GraphIndex K → K → Result (GraphError K) ℕ
  generation index node = do
    found ← ok_or (Map.get node index.nodes) (unknown_node node)
    ok found.generation

  unfoldable pub count_parents : Map K (IndexedNode K) → ℕ
  count_parents [] = 0
  count_parents ((node, indexed) ∷ rest) = length indexed.parents + count_parents rest

  -- The loop of `ancestors`. Every round takes one entry off the stack, and only a node that is met
  -- for the first time adds its parents, so as many rounds as there are edges are enough.
  unfoldable pub ancestors_loop :
      ℕ → Map K (IndexedNode K) → List K → List K → Result (GraphError K) (List K)
  ancestors_loop fuel nodes found [] = ok found
  ancestors_loop zero nodes found (parent ∷ pending) = err out_of_fuel
  ancestors_loop (suc fuel) nodes found (parent ∷ pending) =
      let skip = ancestors_loop fuel nodes found pending in
      let further = ok_or (Map.get parent nodes) panicked >>= λ indexed.
      ancestors_loop fuel nodes (Set.insert parent found) (reverse indexed.parents ++ pending) in
      if Set.contains parent found then skip else further

  unfoldable pub ancestors : GraphIndex K → K → Result (GraphError K) (List K)
  unfolding ancestors_loop count_parents
  ancestors index node = do
    indexed ← ok_or (Map.get node index.nodes) (unknown_node node)
    ancestors_loop (count_parents index.nodes + length indexed.parents) index.nodes []
        (reverse indexed.parents)

  unfoldable pub is_reachable : GraphIndex K → K → K → Result (GraphError K) Bool
  unfolding ancestors
  is_reachable index ancestor descendant =
      if Map.contains_key ancestor index.nodes
      then (if same ancestor descendant
          then ok true
          else (ancestors index descendant >>= λ found. ok (Set.contains ancestor found)))
      else err (unknown_node ancestor)
