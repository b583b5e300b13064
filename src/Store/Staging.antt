-- ===== src/Store/Staging.antt =====
-- What a publication that passes `stage` has shown.
use rethinking_git.Base.{ℕ, List, [], ◌∷◌, ◌≡◌, true, some, Result, ok, arith, >>=-ok, ensure-ok}
use rethinking_git.Base.Map.{Map}
use rethinking_git.Objects.Id.{ObjectId}
use rethinking_git.Objects.Reference.{
  operation, operation_after, same_kind, ReferenceEdge, ReferenceKey,
}
use rethinking_git.Store.Model.{
  DecodeObjectError, StoredObject, MemorySnapshot, Publication, ReferenceState, reference_kind,
}
use rethinking_git.Store.Memory.{visible_object, validate_operation}
use rethinking_git.Store.Closure.{closure_from, validate_affected_graphs}
use rethinking_git.Store.Publish.{
  stage_objects, check_updates, update_roots, update_references, stage,
}

abbrev pub roots_of : Publication → List ReferenceEdge
roots_of p =
    (record { role = operation_after; expected_kind = some operation; id = p.operation })
    ∷ update_roots p.updates

module _ (decode : ObjectId → List ℕ → Result DecodeObjectError StoredObject) where
  -- The values that `stage` computes on the way.
  pub record Parts (p : Publication) (s t : MemorySnapshot) : Type 0 where
    pub staged : MemorySnapshot
    pub of_objects : stage_objects decode p.objects s ≡ ok staged
    pub op : StoredObject
    pub of_operation : visible_object staged p.operation ≡ ok op
    pub is_operation : same_kind op.kind operation ≡ true
    pub of_updates : check_updates s staged [] p.updates ≡ ok tt
    pub of_actions : validate_operation p op staged ≡ ok tt
    pub objects : Map ObjectId StoredObject
    pub of_closure : closure_from staged (roots_of p) ≡ ok objects
    pub of_graphs : validate_affected_graphs objects ≡ ok tt
    pub references : Map ReferenceKey ReferenceState
    pub of_references : update_references s p p.updates staged.references ≡ ok references
    pub result : t ≡ record staged { references = references }

  pub parts : (p : Publication) (s t : MemorySnapshot) → stage decode p s ≡ ok t → Parts p s t
  unfolding stage
  parts p s t h =
      let (staged, of_objects, h₁) = >>=-ok (stage_objects decode p.objects s) _ h in
      let (op, of_operation, h₂) = >>=-ok (visible_object staged p.operation) _ h₁ in
      let (is_operation, h₃) = ensure-ok (same_kind op.kind operation) reference_kind _ h₂ in
      let (_, of_updates, h₄) = >>=-ok (check_updates s staged [] p.updates) _ h₃ in
      let (_, of_actions, h₅) = >>=-ok (validate_operation p op staged) _ h₄ in
      let (objects, of_closure, h₆) = >>=-ok (closure_from staged (roots_of p)) _ h₅ in
      let (_, of_graphs, h₇) = >>=-ok (validate_affected_graphs objects) _ h₆ in
      let (references, of_references, h₈) =
        >>=-ok (update_references s p p.updates staged.references) _ h₇ in
      record {
        staged = staged;
        of_objects = of_objects;
        op = op;
        of_operation = of_operation;
        is_operation = is_operation;
        of_updates = of_updates;
        of_actions = of_actions;
        objects = objects;
        of_closure = of_closure;
        of_graphs = of_graphs;
        references = references;
        of_references = of_references;
        result = ground arith;
      }
