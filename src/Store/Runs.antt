-- ===== src/Store/Runs.antt =====
-- Runs of the in-memory store.
use rethinking_git.Base.{
  false, ℕ, arith, ◌+◌, List, [], ◌∷◌, ◌≡◌, refl, inl, inr, Option, some, none, Result, ok, err,
  Bool, true, false, ap,
}
use rethinking_git.Base.Map
use rethinking_git.Objects.Id.{ObjectId, sha256}
use rethinking_git.Objects.Canonical.{map, array, no_items, field, no_fields}
use rethinking_git.Objects.Reference.{
  ReferenceKey, operation, operation_head, line, key_ord, id_ord,
}
use rethinking_git.Store.Model.{
  DecodeObjectError, digest, StoredObject, MemorySnapshot, Publication, PublicationValidator,
  RefUpdate, absent, ReferenceState, empty, reference_conflict,
}
use rethinking_git.Base.{◌≢◌, In}
use rethinking_git.Objects.Reference.{ReferenceEdge, operation_after}
use rethinking_git.Store.Model.{out_of_fuel}
use rethinking_git.Store.Closure.{closure_from}
use rethinking_git.Store.Closure.Complete.{AreVisible, Found, closure_from_complete}
use rethinking_git.Store.Closure.Ends.{closure_from-ends}
use rethinking_git.Store.Publish.{Staged, put, publish, prepare, commit, mark_promised, quarantine}
use rethinking_git.Store.Contract.{Published, publish-updates}
use rethinking_git.Store.History.{System, initial, puts, begins, ends, Reach, stays, steps}
use rethinking_git.Store.History.Serial.{commit-serial}
use rethinking_git.Store.Memory.{is_expected}
use rethinking_git.Store.History.References.{commit_stale, commit_others}
use rethinking_git.Store.History.Objects.{objects-immutable, objects-verified}

-- Every byte string that is not empty is an operation without actions.
abbrev some_operation : ObjectId → List ℕ → StoredObject
some_operation id bytes = record {
  id = id;
  bytes = bytes;
  value = map (field 8 (array no_items) no_fields);
  kind = operation;
  references = [];
}

abbrev read_operation : ObjectId → List ℕ → Result DecodeObjectError StoredObject
read_operation id [] = err digest
read_operation id (b ∷ bytes) = ok (some_operation id (b ∷ bytes))

abbrev allow : PublicationValidator
allow candidate = ok tt

abbrev first_id : ObjectId
first_id = record { format_version = 0; algorithm = sha256; digest = 1 ∷ [] }

abbrev second_id : ObjectId
second_id = record { format_version = 0; algorithm = sha256; digest = 2 ∷ [] }

abbrev head_update : RefUpdate
head_update = record { key = operation_head; expected = absent; target = first_id }

abbrev genesis : Publication
genesis = record {
  objects = (record { id = first_id; bytes = 7 ∷ [] }) ∷ [];
  updates = head_update ∷ [];
  operation = first_id;
}

abbrev head_state : ReferenceState
head_state = record { target = first_id; generation = 0; operation = first_id }

abbrev after_genesis : MemorySnapshot
after_genesis = record {
  objects = (first_id, some_operation first_id (7 ∷ [])) ∷ [];
  promised = [];
  quarantined = [];
  references = (operation_head, head_state) ∷ [];
  revision = 1;
}

publish-genesis :
    publish read_operation allow genesis empty empty ≡ (ok (head_state ∷ []), after_genesis)
unfolding publish Map.get rethinking_git.Base.Set.contains Map.insert
    rethinking_git.Objects.Reference.kind_code rethinking_git.Store.Memory.is_expected
    rethinking_git.Store.Values.reference_identity_matches rethinking_git.Base.Set.from_list
    rethinking_git.Store.Memory.edge_targets rethinking_git.Store.Closure.closure_loop
    rethinking_git.Store.Publish.update_roots rethinking_git.Store.Closure.count_references
    rethinking_git.Store.Closure.closure_object rethinking_git.Store.Closure.has_kind
    rethinking_git.Graph.Index.without_parents rethinking_git.Graph.Index.parent_counts
    rethinking_git.Graph.Index.check_node rethinking_git.Graph.Index.add_child
    rethinking_git.Base.Set.insert rethinking_git.Graph.Index.visit
    rethinking_git.Graph.Index.next_generation rethinking_git.Store.Publish.collect_results
    rethinking_git.Base.Set.remove
publish-genesis = refl

publish-updates_example : Published genesis empty after_genesis head_update
publish-updates_example =
    publish-updates read_operation allow genesis empty after_genesis (head_state ∷ []) head_update
      publish-genesis (inl refl)

-- The same publication again finds the reference where it expects none.
publish_again :
    publish read_operation allow genesis empty after_genesis
    ≡ (err reference_conflict, after_genesis)
unfolding prepare Map.get rethinking_git.Base.Set.contains Map.insert
    rethinking_git.Objects.Reference.kind_code rethinking_git.Store.Memory.is_expected
    rethinking_git.Store.Values.reference_identity_matches rethinking_git.Base.Set.from_list
    rethinking_git.Store.Memory.edge_targets rethinking_git.Store.Closure.closure_loop
    rethinking_git.Store.Publish.update_roots rethinking_git.Store.Closure.count_references
    rethinking_git.Store.Closure.closure_object rethinking_git.Store.Closure.has_kind
    rethinking_git.Graph.Index.without_parents rethinking_git.Graph.Index.parent_counts
    rethinking_git.Graph.Index.check_node publish rethinking_git.Graph.Index.add_child
    rethinking_git.Base.Set.insert rethinking_git.Graph.Index.visit
    rethinking_git.Graph.Index.next_generation
publish_again = refl

abbrev genesis_staged : Staged
genesis_staged = record {
  snapshot = record after_genesis { revision = 0 };
  base_revision = 0;
  next_revision = 1;
}

prepare-genesis : prepare read_operation allow genesis empty ≡ ok genesis_staged
unfolding commit rethinking_git.Store.Publish.collect_results Map.get prepare
    rethinking_git.Base.Set.contains Map.insert rethinking_git.Objects.Reference.kind_code
    rethinking_git.Store.Memory.is_expected rethinking_git.Store.Values.reference_identity_matches
    rethinking_git.Base.Set.from_list rethinking_git.Store.Memory.edge_targets
    rethinking_git.Store.Closure.closure_loop rethinking_git.Store.Publish.update_roots
    rethinking_git.Store.Closure.count_references rethinking_git.Store.Closure.closure_object
    rethinking_git.Store.Closure.has_kind rethinking_git.Graph.Index.without_parents
    rethinking_git.Graph.Index.parent_counts rethinking_git.Graph.Index.check_node
    rethinking_git.Graph.Index.add_child rethinking_git.Base.Set.insert
    rethinking_git.Graph.Index.visit rethinking_git.Graph.Index.next_generation
    rethinking_git.Base.Set.remove
prepare-genesis = refl

-- Two threads have prepared the same publication.
abbrev two_in_flight : System
two_in_flight = record {
  store = empty;
  in_flight = (genesis, genesis_staged) ∷ (genesis, genesis_staged) ∷ [];
}

two_in_flight-Reach : Reach read_operation initial two_in_flight
two_in_flight-Reach =
    steps (steps (stays initial) (begins allow genesis genesis_staged initial prepare-genesis)) (
      begins allow genesis genesis_staged
        (record initial { in_flight = (genesis, genesis_staged) ∷ [] }) prepare-genesis)

commit-genesis : (commit genesis genesis_staged empty).0 ≡ ok (head_state ∷ [])
unfolding commit rethinking_git.Store.Publish.collect_results Map.get
commit-genesis = refl

commit-serial_example :
    (validate : PublicationValidator) × (publish read_operation validate genesis empty empty
      ≡ commit genesis genesis_staged empty)
commit-serial_example =
    commit-serial read_operation two_in_flight genesis genesis_staged (head_state ∷ [])
      two_in_flight-Reach (inl refl) commit-genesis

-- One of them has committed.
abbrev one_in_flight : System
one_in_flight = record {
  store = (commit genesis genesis_staged empty).1;
  in_flight = (genesis, genesis_staged) ∷ [];
}

one_in_flight-Reach : Reach read_operation initial one_in_flight
one_in_flight-Reach =
    steps two_in_flight-Reach
      (ends genesis genesis_staged [] ((genesis, genesis_staged) ∷ []) empty)

-- The other finds the head that it expects to be absent.
head_is_there : is_expected absent (Map.get operation_head one_in_flight.store.references) ≡ false
unfolding commit Map.get is_expected
head_is_there = refl

commit_stale_example :
    commit genesis genesis_staged one_in_flight.store
    ≡ (err reference_conflict, one_in_flight.store)
commit_stale_example =
    commit_stale read_operation one_in_flight genesis genesis_staged head_update one_in_flight-Reach
      (inl refl) (inl refl) head_is_there

commit_others_example :
    Map.get (line (5 ∷ [])) (commit genesis genesis_staged empty).1.references
    ≡ Map.get (line (5 ∷ [])) empty.references
commit_others_example =
    commit_others read_operation two_in_flight genesis genesis_staged (line (5 ∷ []))
      two_in_flight-Reach (inl refl) (λ u m. ground arith)

abbrev one_object : System
one_object = record initial { store = (put read_operation first_id (7 ∷ []) empty).1 }

abbrev two_objects : System
two_objects = record one_object {
  store = (put read_operation second_id (8 ∷ 9 ∷ []) one_object.store).1;
}

one_object-Reach : Reach read_operation initial one_object
one_object-Reach = steps (stays initial) (puts first_id (7 ∷ []) initial)

two_objects-Reach : Reach read_operation one_object two_objects
two_objects-Reach = steps (stays one_object) (puts second_id (8 ∷ 9 ∷ []) one_object)

one_object_stored :
    Map.get first_id one_object.store.objects ≡ some (some_operation first_id (7 ∷ []))
unfolding put Map.get Map.insert
one_object_stored = refl

objects-immutable_example :
    Map.get first_id two_objects.store.objects ≡ some (some_operation first_id (7 ∷ []))
objects-immutable_example =
    objects-immutable read_operation one_object two_objects first_id
      (some_operation first_id (7 ∷ [])) one_object-Reach two_objects-Reach one_object_stored

objects-verified_example :
    (bytes : List ℕ) × (read_operation first_id bytes ≡ ok (some_operation first_id (7 ∷ [])))
objects-verified_example =
    objects-verified read_operation one_object first_id (some_operation first_id (7 ∷ []))
      one_object-Reach one_object_stored

abbrev head_edge : ReferenceEdge
head_edge = record { role = operation_after; expected_kind = some operation; id = first_id }

closure_runs : closure_from after_genesis (head_edge ∷ []) ≡ ok after_genesis.objects
unfolding closure_from rethinking_git.Store.Closure.closure_loop
    rethinking_git.Store.Closure.count_references rethinking_git.Store.Closure.closure_object
    rethinking_git.Store.Memory.visible_object rethinking_git.Base.Set.contains Map.get
    rethinking_git.Store.Closure.has_kind rethinking_git.Objects.Reference.kind_code Map.insert
closure_runs = refl

closure_from_complete_example :
    AreVisible after_genesis after_genesis.objects
    × ((edge : ReferenceEdge) → In edge (head_edge ∷ []) → Found after_genesis.objects edge)
    × ((id : ObjectId) (o : StoredObject) (edge : ReferenceEdge)
        → Map.get id after_genesis.objects ≡ some o
        → In edge o.references
        → Found after_genesis.objects edge)
closure_from_complete_example =
    closure_from_complete after_genesis (head_edge ∷ []) after_genesis.objects closure_runs

closure_from-ends_example : closure_from after_genesis (head_edge ∷ []) ≢ err out_of_fuel
closure_from-ends_example = closure_from-ends after_genesis (head_edge ∷ [])
