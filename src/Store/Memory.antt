-- ===== src/Store/Memory.antt =====
-- crates/rgit-store/src/memory.rs: the in-memory store. An operation takes the state under the lock
-- and returns its result with the state it leaves. `decode` stands for `AnyObject::decode_verified`
-- with the references of the object (crates/rgit-objects), and a validator is a function.
use rethinking_git.Base.{
  ℕ, suc, ◌+◌, ◌^◌, Bool, true, false, not, ◌&&◌, Option, none, some, List, [], ◌∷◌, length, Result,
  ok, err, ◌>>=◌, ◌>>◌, ensure, ok_or, if◌then◌else◌, ltb, ◌==◌,
}
use rethinking_git.Base.Order.{same, nat_ord}
use rethinking_git.Base.Map
use rethinking_git.Base.Map.{Map, values}
use rethinking_git.Base.Set
use rethinking_git.Objects.Id.{ObjectId}
use rethinking_git.Objects.Canonical.{Value, Items, no_items, item}
use rethinking_git.Objects.Reference.{
  ReferenceRole, ReferenceEdge, key_ord, id_ord, is_operation_parent, line, change, operation_head,
  release, marker,
}
use rethinking_git.Store.Model.{
  StoreError, not_present, reference_conflict, operation_mismatch, generation_overflow,
  StoredObject, ReferenceState, ExpectedRef, absent, exact, RefUpdate, Publication, MemorySnapshot,
}
use rethinking_git.Store.Values.{
  value_map, value_array, value_field, object_id_field, is_bytes, is_object_id,
  validate_line_predecessor, line_action_matches, transition_matches,
}

unfoldable pub visible_object : MemorySnapshot → ObjectId → Result StoreError StoredObject
visible_object state id =
    if Set.contains id state.quarantined
    then err StoreError.quarantined
    else elim (Map.get id state.objects) [
      | some object ↦ ok object
      | none ↦ if Set.contains id state.promised then err StoreError.promised else err not_present
    ]

-- `==` on reference states.
abbrev pub states_eq : ReferenceState → ReferenceState → Bool
states_eq a b =
    same a.target b.target && ((a.generation == b.generation) && same a.operation b.operation)

-- Whether the current value of a reference is the expected one.
unfoldable pub is_expected : ExpectedRef → Option ReferenceState → Bool
is_expected absent none = true
is_expected absent (some actual) = false
is_expected (exact expected) none = false
is_expected (exact expected) (some actual) = states_eq actual expected

unfoldable pub check_expected : MemorySnapshot → RefUpdate → Result StoreError (Unit {0})
check_expected state update =
    ensure (is_expected update.expected (Map.get update.key state.references)) reference_conflict

unfoldable pub next_state :
    MemorySnapshot → Publication → RefUpdate → Result StoreError ReferenceState
next_state state publication update = do
  generation ← elim (Map.get update.key state.references) [
    | none ↦ ok 0
    | some old ↦
        ensure (ltb (old.generation + 1) (2 ^ 64)) generation_overflow >> ok (old.generation + 1)
  ]
  ok (record { target = update.target; generation = generation; operation = publication.operation })

-- The targets of the edges that `wanted` selects.
unfoldable pub edge_targets : (ReferenceRole → Bool) → List ReferenceEdge → List ObjectId
edge_targets wanted [] = []
edge_targets wanted (edge ∷ edges) =
    let later = edge_targets wanted edges in if wanted edge.role then edge.id ∷ later else later

-- The first action that is not consumed and matches, and its index.
find_action : (Value → Bool) → List ℕ → ℕ → Items → Option ℕ
find_action matches consumed index no_items = none
find_action matches consumed index (item action actions) =
    let later = find_action matches consumed (index + 1) actions in
    if not (Set.contains index consumed) && matches action then some index else later

consume : (Value → Bool) → Items → List ℕ → Result StoreError (List ℕ)
unfolding find_action
consume matches actions consumed = do
  index ← ok_or (find_action matches consumed 0 actions) operation_mismatch
  ok (Set.insert index consumed)

count_actions : Items → ℕ
count_actions no_items = 0
count_actions (item action actions) = suc (count_actions actions)

-- The parents of an operation have to hold the expected head.
head_follows : ExpectedRef → List ObjectId → Bool
head_follows absent [] = true
head_follows absent (parent ∷ parents) = false
head_follows (exact state) parents = Set.contains state.target parents

-- The body of the loop in `validate_operation`; the result is the set of consumed indices.
validate_update :
    Publication
    → StoredObject
    → MemorySnapshot
    → Items
    → List ℕ
    → RefUpdate
    → Result StoreError (List ℕ)
unfolding consume head_follows
validate_update publication op state actions consumed update = elim update.key [
  | operation_head ↦ do
    ensure (same update.target publication.operation) operation_mismatch
    ensure
        (head_follows update.expected
          (Set.from_list (edge_targets is_operation_parent op.references)))
        operation_mismatch
    ok consumed
  | line line_id ↦ do
    object ← visible_object state update.target
    line_state ← ok_or (value_map object.value) operation_mismatch
    found ← ok_or (value_field line_state 3) operation_mismatch
    ensure (is_bytes (some found) line_id) operation_mismatch
    ensure (is_object_id (object_id_field line_state 12) publication.operation) operation_mismatch
    validate_line_predecessor line_state update.expected
    consume (λ action. line_action_matches action line_state) actions consumed
  | change _ ↦ consume (λ action. transition_matches action update) actions consumed
  | release _ ↦ consume (λ action. transition_matches action update) actions consumed
  | marker _ ↦ consume (λ action. transition_matches action update) actions consumed
]

validate_updates :
    Publication
    → StoredObject
    → MemorySnapshot
    → Items
    → List ℕ
    → List RefUpdate
    → Result StoreError (List ℕ)
unfolding validate_update
validate_updates publication op state actions consumed [] = ok consumed
validate_updates publication op state actions consumed (update ∷ updates) = do
  consumed' ← validate_update publication op state actions consumed update
  validate_updates publication op state actions consumed' updates

unfoldable pub validate_operation :
    Publication → StoredObject → MemorySnapshot → Result StoreError (Unit {0})
unfolding validate_updates count_actions
validate_operation publication op state = do
  operation_map ← ok_or (value_map op.value) operation_mismatch
  found ← ok_or (value_field operation_map 8) operation_mismatch
  actions ← ok_or (value_array found) operation_mismatch
  consumed ← validate_updates publication op state actions [] publication.updates
  ensure (length consumed == count_actions actions) operation_mismatch
