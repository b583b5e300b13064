-- ===== src/Store/Closure.antt =====
-- crates/rgit-store/src/memory.rs: the closure of a set of edges, and the commit graphs of stored
-- objects.
pub mod Complete
pub mod Ends
use rethinking_git.Base.{
  ℕ, zero, suc, ◌+◌, Bool, true, Option, none, some, List, [], ◌∷◌, ◌++◌, length, Result, ok, err,
  ◌>>=◌, ◌>>◌, ensure, if◌then◌else◌,
}
use mathlib.Core.List.{reverse}
use rethinking_git.Base.Order.{nat_ord}
use rethinking_git.Base.Map
use rethinking_git.Base.Map.{Map, values}
use rethinking_git.Objects.Id.{ObjectId}
use rethinking_git.Objects.Reference.{
  ObjectKind, snapshot, operation, ReferenceRole, ReferenceEdge, key_ord, id_ord, same_kind,
  is_operation_parent, is_snapshot_parent,
}
use rethinking_git.Graph.Index.{GraphNode, GraphIndex, build}
use rethinking_git.Store.Model.{
  ClosureError, missing, wrong_kind, StoreError, not_present, closure, invalid_graph, out_of_fuel,
  StoredObject, MemorySnapshot,
}
use rethinking_git.Store.Memory.{visible_object, edge_targets}

-- An object that a closure needs, with the errors of a closure.
unfoldable pub closure_object : MemorySnapshot → ObjectId → Result StoreError StoredObject
closure_object state id = elim (visible_object state id) [
  | ok object ↦ ok object
  | err error ↦ elim error [
    | not_present ↦ err (closure missing)
    | StoreError.promised ↦ err (closure ClosureError.promised)
    | StoreError.quarantined ↦ err (closure ClosureError.quarantined)
    | other ↦ err other
  ]
]

unfoldable pub has_kind : Option ObjectKind → ObjectKind → Bool
has_kind none actual = true
has_kind (some expected) actual = same_kind actual expected

abbrev pub wrong_kind_error : Option ObjectKind → ObjectKind → StoreError
wrong_kind_error none actual = closure missing
wrong_kind_error (some expected) actual = closure (wrong_kind expected actual)

-- The loop of `closure_from`; the stack `pending` is a list whose head is its end.
unfoldable pub closure_loop :
    ℕ
    → MemorySnapshot
    → Map ObjectId StoredObject
    → List ReferenceEdge
    → Result StoreError (Map ObjectId StoredObject)
closure_loop fuel state objects [] = ok objects
closure_loop zero state objects (edge ∷ pending) = err out_of_fuel
closure_loop (suc fuel) state objects (edge ∷ pending) = closure_object state edge.id >>= λ object.
    ensure (has_kind edge.expected_kind object.kind)
      (wrong_kind_error edge.expected_kind object.kind)
    >> closure_loop fuel state (Map.insert edge.id object objects)
        (if Map.contains_key edge.id objects then pending else reverse object.references ++ pending)

unfoldable pub count_references : Map ObjectId StoredObject → ℕ
count_references [] = 0
count_references ((id, object) ∷ objects) = length object.references + count_references objects

-- Every round takes one edge off the stack, and only the first visit of an object adds its edges.
unfoldable pub closure_from :
    MemorySnapshot → List ReferenceEdge → Result StoreError (Map ObjectId StoredObject)
closure_from state roots =
    closure_loop (count_references state.objects + length roots) state [] (reverse roots)

graph_nodes : ObjectKind → (ReferenceRole → Bool) → List StoredObject → List (GraphNode ObjectId)
graph_nodes kind wanted [] = []
graph_nodes kind wanted (object ∷ objects) =
    let later = graph_nodes kind wanted objects in
    if same_kind object.kind kind
    then (record { id = object.id; parents = edge_targets wanted object.references }) ∷ later
    else later

-- The role of a parent's edge, for the two kinds that have parents.
abbrev parent_role : ObjectKind → Result StoreError (ReferenceRole → Bool)
parent_role snapshot = ok is_snapshot_parent
parent_role operation = ok is_operation_parent
parent_role _ = err invalid_graph

-- `map_err(|_| StoreError::InvalidGraph)`
abbrev pub as_invalid_graph : {E A : Type 0} → Result E A → Result StoreError A
as_invalid_graph (ok a) = ok a
as_invalid_graph (err e) = err invalid_graph

unfoldable pub graph :
    Map ObjectId StoredObject → ObjectKind → Result StoreError (GraphIndex ObjectId)
unfolding graph_nodes build
graph objects kind = do
  wanted ← parent_role kind
  as_invalid_graph (build (graph_nodes kind wanted (values objects)))

unfoldable pub validate_affected_graphs : Map ObjectId StoredObject → Result StoreError (Unit {0})
unfolding graph
validate_affected_graphs objects = do _ ← graph objects snapshot; _ ← graph objects operation; ok tt

-- The loop of `ancestry_closure`.
ancestry_loop :
    ℕ
    → MemorySnapshot
    → ObjectKind
    → (ReferenceRole → Bool)
    → Map ObjectId StoredObject
    → List ObjectId
    → Result StoreError (Map ObjectId StoredObject)
ancestry_loop fuel state kind wanted result [] = ok result
ancestry_loop zero state kind wanted result (id ∷ pending) = err out_of_fuel
ancestry_loop (suc fuel) state kind wanted result (id ∷ pending) =
    visible_object state id >>= λ object.
    ensure (same_kind object.kind kind) invalid_graph
    >> ancestry_loop fuel state kind wanted (Map.insert id object result) (
        if Map.contains_key id result
        then pending
        else reverse (edge_targets wanted object.references) ++ pending)

unfoldable pub ancestry_closure :
    MemorySnapshot → List ObjectId → ObjectKind → Result StoreError (Map ObjectId StoredObject)
unfolding ancestry_loop
ancestry_closure state roots kind = do
  wanted ← parent_role kind
  ancestry_loop (count_references state.objects + length roots) state kind wanted [] (reverse roots)
