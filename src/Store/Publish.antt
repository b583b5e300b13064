-- ===== src/Store/Publish.antt =====
-- crates/rgit-store/src/memory.rs: the operations of the in-memory store. An operation takes the
-- state under the lock and returns its result with the state it leaves. `decode` stands for
-- `AnyObject::decode_verified` with the references of the object (crates/rgit-objects), and a
-- validator is a function.
use rethinking_git.Base.{
  ℕ, ◌+◌, ◌^◌, Bool, true, false, not, ◌||◌, Option, none, some, List, [], ◌∷◌, Result, ok, err,
  ◌>>=◌, ◌>>◌, ensure, if◌then◌else◌, ltb, ◌==◌,
}
use rethinking_git.Base.Order.{nat_ord}
use rethinking_git.Base.Map
use rethinking_git.Base.Map.{Map, values}
use rethinking_git.Base.Set
use rethinking_git.Objects.Id.{ObjectId}
use rethinking_git.Objects.Reference.{
  operation, operation_after, ReferenceEdge, ReferenceKey, key_ord, id_ord, same_kind,
  expected_kind,
}
use rethinking_git.Graph.Index.{GraphNode, GraphIndex, build}
use rethinking_git.Graph.Index
use rethinking_git.Store.Model.{
  DecodeObjectError, digest, StoreError, invalid_object, not_present, reference_conflict,
  duplicate_reference_update, reference_kind, revision_overflow, invalid_graph, PutOutcome, new,
  already_present, ObjectPresence, present, StoredObject, ReferenceState, ExpectedRef,
  PublicationObject, RefUpdate, Publication, MemorySnapshot, PublicationValidator,
}
use rethinking_git.Store.Values.{bytes_eq, reference_identity_matches}
use rethinking_git.Store.Memory.{visible_object, check_expected, next_state, validate_operation}
use rethinking_git.Store.Closure.{
  as_invalid_graph, closure_from, ancestry_closure, graph, validate_affected_graphs,
}

-- Revisions are u64.
unfoldable pub next_revision : MemorySnapshot → Result StoreError ℕ
next_revision state =
    if ltb (state.revision + 1) (2 ^ 64) then ok (state.revision + 1) else err revision_overflow

unfoldable pub fetch : ObjectId → MemorySnapshot → Result StoreError StoredObject
unfolding visible_object
fetch id state = visible_object state id

unfoldable pub presence : ObjectId → MemorySnapshot → Option ObjectPresence
presence id state =
    if Set.contains id state.quarantined
    then some ObjectPresence.quarantined
    else if Map.contains_key id state.objects
    then some present
    else if Set.contains id state.promised
    then some ObjectPresence.promised
    else none

unfoldable pub mark_promised :
    ObjectId → MemorySnapshot → Result StoreError (Unit {0}) × MemorySnapshot
unfolding next_revision
mark_promised id state =
    if Map.contains_key id state.objects || Set.contains id state.promised
    then (ok tt, state)
    else elim (next_revision state) [
      | err e ↦ (err e, state)
      | ok revision ↦
          (ok tt, record state { promised = Set.insert id state.promised; revision = revision })
    ]

unfoldable pub quarantine :
    ObjectId → MemorySnapshot → Result StoreError (Unit {0}) × MemorySnapshot
unfolding next_revision
quarantine id state =
    if Map.contains_key id state.objects || Set.contains id state.promised
    then (if Set.contains id state.quarantined then (ok tt, state) else elim (next_revision state) [
      | err e ↦ (err e, state)
      | ok revision ↦ (
        ok tt,
        record state { quarantined = Set.insert id state.quarantined; revision = revision },
      )
    ])
    else (err not_present, state)

unfoldable pub reference : ReferenceKey → MemorySnapshot → Option ReferenceState
reference key state = Map.get key state.references

pub generation : ObjectId → MemorySnapshot → Result StoreError ℕ
unfolding visible_object ancestry_closure graph Index.generation
generation id state = do
  object ← visible_object state id
  objects ← ancestry_closure state (id ∷ []) object.kind
  index ← graph objects object.kind
  as_invalid_graph (Index.generation index id)

pub is_reachable : ObjectId → ObjectId → MemorySnapshot → Result StoreError Bool
unfolding visible_object ancestry_closure graph Index.is_reachable
is_reachable ancestor descendant state = do
  first ← visible_object state ancestor
  second ← visible_object state descendant
  ensure (same_kind first.kind second.kind) invalid_graph
  objects ← ancestry_closure state (descendant ∷ []) first.kind
  elim (Map.contains_key ancestor objects) [
    | false ↦ ok false
    | true ↦ graph objects first.kind >>= λ index.
        as_invalid_graph (Index.is_reachable index ancestor descendant)
  ]

-- `insert` unless two updates have the same key.
unfoldable pub check_updates :
    MemorySnapshot
    → MemorySnapshot
    → List ReferenceKey
    → List RefUpdate
    → Result StoreError (Unit {0})
unfolding check_expected visible_object
check_updates state staged keys [] = ok tt
check_updates state staged keys (update ∷ updates) = do
  ensure (not (Set.contains update.key keys)) duplicate_reference_update
  check_expected state update
  target ← visible_object staged update.target
  ensure (same_kind target.kind (expected_kind update.key)) reference_kind
  ensure (reference_identity_matches update.key target) reference_kind
  check_updates state staged (Set.insert update.key keys) updates

unfoldable pub update_references :
    MemorySnapshot
    → Publication
    → List RefUpdate
    → Map ReferenceKey ReferenceState
    → Result StoreError (Map ReferenceKey ReferenceState)
unfolding next_state
update_references state publication [] references = ok references
update_references state publication (update ∷ updates) references = do
  next ← next_state state publication update
  update_references state publication updates (Map.insert update.key next references)

-- The roots of the closure that a publication needs.
unfoldable pub update_roots : List RefUpdate → List ReferenceEdge
update_roots [] = []
update_roots (update ∷ updates) =
    (record {
      role = operation_after;
      expected_kind = some (expected_kind update.key);
      id = update.target;
    })
    ∷ update_roots updates

-- The new states of the updated references.
unfoldable pub collect_results :
    List RefUpdate → Map ReferenceKey ReferenceState → List ReferenceState
collect_results [] references = []
collect_results (update ∷ updates) references =
    let later = collect_results updates references in
    elim (Map.get update.key references) [ none ↦ later | some next ↦ next ∷ later ]

-- What `publish` keeps between its two critical sections.
pub record Staged : Type 0 where
  pub snapshot : MemorySnapshot
  pub base_revision : ℕ
  pub next_revision : ℕ

-- The second critical section: `state` is the state by then.
unfoldable pub commit :
    Publication → Staged → MemorySnapshot → Result StoreError (List ReferenceState) × MemorySnapshot
commit publication staged state =
    if state.revision == staged.base_revision
    then (
      ok (collect_results publication.updates staged.snapshot.references),
      record staged.snapshot { revision = staged.next_revision },
    )
    else (err reference_conflict, state)

module _ (decode : ObjectId → List ℕ → Result DecodeObjectError StoredObject) where
  unfoldable pub put :
      ObjectId → List ℕ → MemorySnapshot → Result StoreError PutOutcome × MemorySnapshot
  unfolding next_revision
  put id bytes state = elim (decode id bytes) [
    | err e ↦ (err (invalid_object e), state)
    | ok decoded ↦ elim (Map.get id state.objects) [
      | some existing ↦ (
        if bytes_eq existing.bytes decoded.bytes
            then ok already_present
            else err (invalid_object digest),
        state,
      )
      | none ↦ elim (next_revision state) [
        | err e ↦ (err e, state)
        | ok revision ↦ (
          ok new,
          record state {
            objects = Map.insert id decoded state.objects;
            promised = Set.remove id state.promised;
            revision = revision;
          },
        )
      ]
    ]
  ]

  unfoldable pub stage_object :
      PublicationObject → MemorySnapshot → Result StoreError MemorySnapshot
  stage_object candidate staged = elim (decode candidate.id candidate.bytes) [
    | err e ↦ err (invalid_object e)
    | ok decoded ↦ elim (Map.get candidate.id staged.objects) [
      | some existing ↦
          if bytes_eq existing.bytes decoded.bytes
          then ok (record staged { promised = Set.remove candidate.id staged.promised })
          else err (invalid_object digest)
      | none ↦ ok (record staged {
        objects = Map.insert candidate.id decoded staged.objects;
        promised = Set.remove candidate.id staged.promised;
      })
    ]
  ]

  unfoldable pub stage_objects :
      List PublicationObject → MemorySnapshot → Result StoreError MemorySnapshot
  unfolding stage_object
  stage_objects [] staged = ok staged
  stage_objects (candidate ∷ candidates) staged = do
    staged' ← stage_object candidate staged
    stage_objects candidates staged'

  unfoldable pub stage : Publication → MemorySnapshot → Result StoreError MemorySnapshot
  unfolding stage_objects check_updates validate_operation closure_from validate_affected_graphs
      update_references
  stage publication state = do
    staged ← stage_objects publication.objects state
    op ← visible_object staged publication.operation
    ensure (same_kind op.kind operation) reference_kind
    check_updates state staged [] publication.updates
    validate_operation publication op staged
    objects ← closure_from staged (
        (record {
          role = operation_after;
          expected_kind = some operation;
          id = publication.operation;
        })
        ∷ update_roots publication.updates)
    validate_affected_graphs objects
    references ← update_references state publication publication.updates staged.references
    ok (record staged { references = references })

  -- `publish` up to its second critical section: from the state under the first lock.
  unfoldable pub prepare :
      PublicationValidator → Publication → MemorySnapshot → Result StoreError Staged
  unfolding next_revision stage
  prepare validate publication state = do
    revision ← next_revision state
    staged ← stage publication state
    validate (record {
      publication = publication;
      objects = staged.objects;
      references = staged.references;
    })
    ok (record { snapshot = staged; base_revision = state.revision; next_revision = revision })

  -- `base` is the state under the first lock, and `state` that under the second.
  unfoldable pub publish :
      PublicationValidator
      → Publication
      → MemorySnapshot
      → MemorySnapshot
      → Result StoreError (List ReferenceState) × MemorySnapshot
  unfolding prepare commit
  publish validate publication base state = elim (prepare validate publication base) [
    | err e ↦ (err e, state)
    | ok staged ↦ commit publication staged state
  ]

  first_state : Result StoreError (List ReferenceState) → Result StoreError ReferenceState
  first_state (err e) = err e
  first_state (ok []) = err reference_conflict
  first_state (ok (next ∷ states)) = ok next

  unfoldable pub compare_and_swap :
      PublicationValidator
      → ReferenceKey
      → ExpectedRef
      → ObjectId
      → ObjectId
      → MemorySnapshot
      → MemorySnapshot
      → Result StoreError ReferenceState × MemorySnapshot
  unfolding publish first_state
  compare_and_swap validate key expected target op base state =
      let done =
        publish validate
          (record {
            objects = [];
            updates = (record { key = key; expected = expected; target = target }) ∷ [];
            operation = op;
          })
          base state in
      (first_state (done.0), done.1)
